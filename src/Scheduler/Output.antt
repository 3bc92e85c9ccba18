-- ===== src/Scheduler/Output.antt =====
-- Copies of a decision and of a session: `copyToOutput` and `copySession` of
-- src/common/scheduler_utils.cpp. Members that the source leaves unset are
-- 0 here.
pub mod View
pub mod Copies
use glet.Common.{ℕ, List, [], ◌∷◌, ◌++◌, if◌then◌else◌, is_empty}
use glet.Common.Int.{pos}
use glet.Scheduler.State.{Task, MemNode, SimState, Store}
use glet.Scheduler.Nodes.{new_task, new_node}
use glet.Scheduler.Memory.{set_gpu}
use glet.Scheduler.Devices.{new_gpu, empty_gpu}

-- `copySession`.
unfoldable pub copy_session : {F : Type 0} → List (Task F) → List (Task F)
copy_session [] = []
copy_session (task ∷ tasks) = task ∷ copy_session tasks

module _ {F : Type 0} where
  -- The members of a task that are copied.
  unfoldable pub task_copy : Task F → Task F
  task_copy task = record task { org_rate = pos 0; additional_rate = pos 0 }

  unfoldable pub copy_tasks : Store F → List ℕ → List ℕ × Store F
  unfolding new_task task_copy
  copy_tasks s [] = ([], s)
  copy_tasks s (t ∷ ts) =
      let (u, s1) = new_task s (task_copy (s.tasks t)) in
      let (us, s2) = copy_tasks s1 ts in (u ∷ us, s2)

  unfoldable pub copy_nodes : Store F → List ℕ → List ℕ × Store F
  unfolding copy_tasks new_node
  copy_nodes s [] = ([], s)
  copy_nodes s (n ∷ ns) =
      let (ts, s1) = copy_tasks s (s.nodes n).task_list in
      let (m, s2) = new_node s1 (record (s1.nodes n) { task_list = ts }) in
      let (ms, s3) = copy_nodes s2 ns in (m ∷ ms, s3)

  -- The parts of the nodes that have tasks.
  unfoldable pub used_parts : Store F → List ℕ → List MemNode
  used_parts s [] = []
  used_parts s (n ∷ ns) =
      let rest = used_parts s ns in
      if is_empty (s.nodes n).task_list
      then rest
      else record { part = (s.nodes n).resource_pntg; dedup_num = (s.nodes n).dedup_num } ∷ rest

  -- The copies of the GPUs, which have no loaded parts; those of the nodes with tasks are appended to the
  -- loaded parts of the GPU that is copied.
  unfoldable pub copy_gpus : Store F → List ℕ → List ℕ × Store F
  unfolding copy_nodes used_parts new_gpu empty_gpu set_gpu
  copy_gpus s [] = ([], s)
  copy_gpus s (g ∷ gs) =
      let gpu = s.gpus g in
      let (ns, s1) = copy_nodes s gpu.node_list in
      let (h, s2) = new_gpu s1 (record (empty_gpu gpu.gpu_id gpu.type) { node_list = ns }) in
      let s3 =
        set_gpu s2 g
          (record gpu { loaded_parts = gpu.loaded_parts ++ used_parts s gpu.node_list }) in
      let (hs, s4) = copy_gpus s3 gs in (h ∷ hs, s4)

  -- `copyToOutput`, which leaves `next_dummy_id` of the output as it is.
  unfoldable pub copy_to_output : Store F → (input output : SimState) → SimState × Store F
  unfolding copy_gpus
  copy_to_output s input output =
      let (gs, s') = copy_gpus s input.gpu_list in
      (record output { gpu_list = gs; parts = input.parts }, s')
