-- ===== src/Scheduler/Nodes.antt =====
-- Making and copying nodes: `makeEmptyNode` and `getOtherNode` of src/scheduler/scheduler_base.cpp,
-- `copyToNode` and `revertNode` of scheduler_incremental.cpp.
use glet.Common.{
  ℕ, suc, Bool, false, not, Option, none, some, List, [], ◌∷◌, ◌++◌, String, ◌==◌, leb,
  if◌then◌else◌, update, assert, ◌>>◌, length,
}
use glet.Float.{Float}
use glet.Scheduler.State.{Task, Node, Store, is_same_node}

module _ {F : Type 0} where
  unfoldable pub set_node : Store F → ℕ → Node F → Store F
  set_node s n node = record s { nodes = update s.nodes n node }

  unfoldable pub set_task : Store F → ℕ → Task F → Store F
  set_task s t task = record s { tasks = update s.tasks t task }

  -- `std::make_shared`: the object under a fresh pointer.
  unfoldable pub new_node : Store F → Node F → ℕ × Store F
  unfolding set_node
  new_node s node = (s.next, record (set_node s s.next node) { next = suc s.next })

  unfoldable pub new_task : Store F → Task F → ℕ × Store F
  unfolding set_task
  new_task s task = (s.next, record (set_task s s.next task) { next = suc s.next })

  -- `gpu->vNodeList.push_back(node)` and `node->vTaskList.push_back(task)`.
  unfoldable pub push_node : Store F → ℕ → ℕ → Store F
  push_node s g n = record s {
    gpus = update s.gpus g (record (s.gpus g) { node_list = (s.gpus g).node_list ++ n ∷ [] });
  }

  unfoldable pub push_task : Store F → ℕ → ℕ → Store F
  unfolding set_node
  push_task s n t =
      set_node s n (record (s.nodes n) { task_list = (s.nodes n).task_list ++ t ∷ [] })

  -- `copyToNode`; the position and the number of the node stay.
  unfoldable pub copied : (org dst : Node F) → Bool → Node F
  copied org dst enable_repart = record dst {
    occupancy = org.occupancy;
    resource_pntg = if enable_repart then org.resource_pntg else dst.resource_pntg;
    duty_cycle = org.duty_cycle;
    task_list = org.task_list;
    reserved = org.reserved;
  }

  unfoldable pub copy_to_node : Store F → ℕ → ℕ → Bool → Store F
  unfolding set_node copied
  copy_to_node s org dst enable_repart =
      set_node s dst (copied (s.nodes org) (s.nodes dst) enable_repart)

  -- The search of `getOtherNode`, in the nodes of one GPU and in all GPUs.
  unfoldable pub other_in : Store F → Node F → List ℕ → Option ℕ
  unfolding is_same_node
  other_in s node [] = none
  other_in s node (n ∷ ns) =
      if not (is_same_node node (s.nodes n)) then some n else other_in s node ns

  unfoldable pub get_other_node : Store F → Node F → List ℕ → Option ℕ
  unfolding other_in
  get_other_node s node [] = none
  get_other_node s node (g ∷ gs) =
      let rest = get_other_node s node gs in
      if (s.gpus g).gpu_id == node.id
      then elim (other_in s node (s.gpus g).node_list) [ none ↦ rest | some n ↦ some n ]
      else rest

module _ {F : Type 0} ⦃R : Float F⦄ where
  open R use {lit}

  -- `makeEmptyNode`. The source leaves `duty_cycle` unset; it is 0 here.
  unfoldable pub make_empty_node : (gpu_id resource_pntg : ℕ) → String → Node F
  make_empty_node gpu_id resource_pntg type = record {
    task_list = [];
    duty_cycle = lit 0 0;
    occupancy = lit 0 0;
    resource_pntg = resource_pntg;
    id = gpu_id;
    reserved = false;
    dedup_num = 0;
    type = type;
  }

  -- `revertNode`, with its `assert`.
  unfoldable pub revert_node : Store F → ℕ → Option (Store F)
  unfolding set_node
  revert_node s n = do
    assert (leb (length (s.nodes n).task_list) 1)
    some (
        set_node s n
          (record (s.nodes n) { occupancy = lit 0 0; task_list = []; duty_cycle = lit 0 0 }))
