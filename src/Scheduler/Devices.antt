-- ===== src/Scheduler/Devices.antt =====
-- Setting up the GPUs of a decision: `getMaxGPUs`, `getModelID`, `setupAvailParts`, `initiateDevs`,
-- `initDevMems`, `fillReservedNodes` and `resetScheduler` of src/scheduler/scheduler_base.cpp, and
-- `isModelScheduled` of scheduler_incremental.cpp. `none` is an abort.
pub mod ModelId
use glet.Common.{
  ◌>>◌, ℕ, zero, suc, ◌+◌, ◌-◌, Bool, true, false, not, ◌&&◌, ◌||◌, Option, none, some, List, [],
  ◌∷◌, ◌++◌, String, str_eq, ltb, leb, ◌==◌, if◌then◌else◌, any, assert, lookup, string_key, update,
  is_empty, length,
}
use glet.Float.{Float}
use glet.Scheduler.State.{Task, Node, Gpu, SimState, Store, Config}
use glet.Scheduler.Nodes.{new_node, push_node, make_empty_node}
use glet.Scheduler.Memory.{init_dev_mem}

-- `getMaxGPUs`: the numbers of GPUs of all types, added.
unfoldable pub get_max_gpus : List (String × ℕ) → ℕ
get_max_gpus [] = 0
get_max_gpus ((type, num) ∷ types) = num + get_max_gpus types

-- The loop of `getModelID` over the names, with `id` as it is before the loop goes on; the `assert` only
-- fails without names.
unfoldable pub model_id_from : ℕ → String → List String → ℕ
model_id_from id model_name [] = id
model_id_from id model_name (name ∷ names) =
    let rest = model_id_from (suc id) model_name names in
    if str_eq name model_name then id else if is_empty names then id else rest

unfoldable pub get_model_id : List String → String → Option ℕ
unfolding model_id_from
get_model_id names model_name = elim names [
  | [] ↦ none
  | n ∷ ns ↦ some (model_id_from 0 model_name (n ∷ ns))
]

-- The loop of `setupAvailParts`, for parts up to 100, and its sort in descending order.
unfoldable pub add_parts : List ℕ → List ℕ → List ℕ
unfolding any
add_parts parts [] = parts
add_parts parts (part ∷ inputs) =
    let with_part = if part == 0 then parts else parts ++ part ∷ [] in
    add_parts
      (if 100 - part == 0 || any (λ p. p == 100 - part) with_part
        then with_part
        else with_part ++ (100 - part) ∷ [])
      inputs

unfoldable pub insert_desc : ℕ → List ℕ → List ℕ
insert_desc p [] = p ∷ []
insert_desc p (q ∷ qs) = let rest = insert_desc p qs in if leb q p then p ∷ q ∷ qs else q ∷ rest

unfoldable pub sort_desc : List ℕ → List ℕ
unfolding insert_desc
sort_desc [] = []
sort_desc (p ∷ ps) = insert_desc p (sort_desc ps)

unfoldable pub setup_avail_parts : List ℕ → Option (List ℕ)
unfolding add_parts sort_desc
setup_avail_parts input_parts = do
  assert (leb 1 (length input_parts))
  some (sort_desc (add_parts [] input_parts))

unfoldable pub empty_gpu : (gpu_id : ℕ) → String → Gpu
empty_gpu gpu_id type = record {
  gpu_id = gpu_id;
  total_memory = 0;
  used_memory = 0;
  type = type;
  loaded_parts = [];
  node_list = [];
}

module _ {F : Type 0} where
  unfoldable pub new_gpu : Store F → Gpu → ℕ × Store F
  new_gpu s gpu = (s.next, record s { gpus = update s.gpus s.next gpu; next = suc s.next })

  -- `isModelScheduled`.
  unfoldable pub is_model_scheduled : Store F → Task F → SimState → Bool
  unfolding any
  is_model_scheduled s task decision =
      any
        (λ g.
          any (λ n. any (λ t. task.id == (s.tasks t).id) (s.nodes n).task_list)
            (s.gpus g).node_list)
        decision.gpu_list

module _ {F : Type 0} ⦃R : Float F⦄ where
  open R use {lit}

  -- A GPU of `initiateDevs` with its one node.
  unfoldable pub make_dev : Store F → (idx : ℕ) → String → ℕ × Store F
  unfolding new_node make_empty_node new_gpu empty_gpu
  make_dev s idx type =
      let (n, s') = new_node s (make_empty_node idx 100 type) in
      new_gpu s' (record (empty_gpu idx type) { node_list = n ∷ [] })

  -- The GPUs of one type: the new list, the next index, whether `nDevs` is reached, and the store.
  unfoldable pub init_type :
      Store F → (n_devs num idx : ℕ) → String → List ℕ → List ℕ × ℕ × Bool × Store F
  unfolding make_dev
  init_type s n_devs zero idx type gpus = (gpus, idx, false, s)
  init_type s n_devs (suc num) idx type gpus =
      let (g, s') = make_dev s idx type in
      let rest = init_type s' n_devs num (suc idx) type (gpus ++ g ∷ []) in
      if leb n_devs (suc idx) then (gpus ++ g ∷ [], suc idx, true, s') else rest

  unfoldable pub init_types :
      Store F → (n_devs idx : ℕ) → List (String × ℕ) → List ℕ → List ℕ × Store F
  unfolding init_type
  init_types s n_devs idx [] gpus = (gpus, s)
  init_types s n_devs idx ((type, num) ∷ types) gpus =
      let (gpus', idx', stop, s') = init_type s n_devs num idx type gpus in
      let rest = init_types s' n_devs idx' types gpus' in if stop then (gpus', s') else rest

  unfoldable pub initiate_devs : Config F → Store F → SimState → (n_devs : ℕ) → SimState × Store F
  unfolding init_types
  initiate_devs c s input n_devs =
      let (gpus, s') = init_types s n_devs 0 c.type_to_num [] in
      (record input { gpu_list = gpus }, s')

  -- The memory of the GPUs of one type, over the list of all that are left: the list after them.
  unfoldable pub init_mems : Store F → (mem num : ℕ) → List ℕ → List ℕ × Store F
  unfolding init_dev_mem
  init_mems s mem zero gpus = (gpus, s)
  init_mems s mem (suc num) [] = ([], s)
  init_mems s mem (suc num) (g ∷ gpus) = init_mems (init_dev_mem s g mem) mem num gpus

  unfoldable pub init_mem_types : Config F → Store F → List (String × ℕ) → List ℕ → Option (Store F)
  unfolding lookup init_mems
  init_mem_types c s [] gpus = some s
  init_mem_types c s ((type, zero) ∷ types) gpus = init_mem_types c s types gpus
  init_mem_types c s ((type, suc num) ∷ types) [] = some s
  init_mem_types c s ((type, suc num) ∷ types) (g ∷ gpus) = elim (lookup type c.dev_perf) [
    | none ↦ none
    | some dev ↦
        let (gpus', s') = init_mems s dev.get_dev_mem (suc num) (g ∷ gpus) in
        init_mem_types c s' types gpus'
  ]

  unfoldable pub init_dev_mems : Config F → Store F → SimState → Option (Store F)
  unfolding init_mem_types
  init_dev_mems c s input = do
    assert (not (is_empty input.gpu_list))
    init_mem_types c s c.type_to_num input.gpu_list

  -- `fillReservedNodes`: the percentage in use on a GPU, and a reserved node. The source sets
  -- `dedup_num` of the node only where `dedup_num` is given here; it is 0 elsewhere.
  unfoldable pub assigned_part : Store F → List ℕ → ℕ
  assigned_part s [] = 0
  assigned_part s (n ∷ ns) =
      let rest = assigned_part s ns in
      if is_empty (s.nodes n).task_list then rest else (s.nodes n).resource_pntg + rest

  unfoldable pub add_reserved : Store F → ℕ → (resource_pntg dedup_num : ℕ) → Store F
  unfolding new_node push_node make_empty_node
  add_reserved s g pntg dedup_num =
      let (n, s') = new_node s (record (make_empty_node (s.gpus g).gpu_id pntg "") {
        reserved = true;
        dedup_num = dedup_num;
      }) in
      push_node s' g n

  unfoldable pub fill_gpu : Config F → Store F → ℕ → Store F
  unfolding assigned_part add_reserved
  fill_gpu c s g =
      let part = assigned_part s (s.gpus g).node_list in
      if part == 0
      then (if c.use_part
          then add_reserved (add_reserved s g 50 0) g 50 1
          else add_reserved s g 100 0)
      else if ltb part 100 && ltb (length (s.gpus g).node_list) 2
      then add_reserved s g (100 - part) 0
      else s

  unfoldable pub fill_reserved_nodes : Config F → Store F → List ℕ → Store F
  unfolding fill_gpu
  fill_reserved_nodes c s [] = s
  fill_reserved_nodes c s (g ∷ gs) = fill_reserved_nodes c (fill_gpu c s g) gs

  -- `resetScheduler`: the nodes of one GPU, the GPUs of one type, and all types. The index starts at 0 for
  -- each type, and the GPUs join those that are there.
  unfoldable pub reset_nodes :
      Store F → (idx : ℕ) → String → List (Node F) → List ℕ → List ℕ × Store F
  unfolding new_node make_empty_node
  reset_nodes s idx type [] ns = (ns, s)
  reset_nodes s idx type (node ∷ sizes) ns =
      let fresh : Node F = record (make_empty_node idx node.resource_pntg type) {
        dedup_num = node.dedup_num;
      } in
      let (n, s') = new_node s fresh in
      if node.id == suc idx
      then reset_nodes s' idx type sizes (ns ++ n ∷ [])
      else reset_nodes s idx type sizes ns

  unfoldable pub reset_type :
      Store F → (num idx : ℕ) → String → List (Node F) → List ℕ → List ℕ × Store F
  unfolding reset_nodes new_gpu empty_gpu
  reset_type s zero idx type sizes gpus = (gpus, s)
  reset_type s (suc num) idx type sizes gpus =
      let (ns, s1) = reset_nodes s idx type sizes [] in
      let (g, s2) = new_gpu s1 (record (empty_gpu idx type) { node_list = ns }) in
      reset_type s2 num (suc idx) type sizes (gpus ++ g ∷ [])

  unfoldable pub reset_types :
      Store F → List (String × ℕ) → List (Node F) → List ℕ → List ℕ × Store F
  unfolding reset_type
  reset_types s [] sizes gpus = (gpus, s)
  reset_types s ((type, num) ∷ types) sizes gpus =
      let (gpus', s') = reset_type s num 0 type sizes gpus in reset_types s' types sizes gpus'

  unfoldable pub reset_scheduler :
      Config F → Store F → SimState → List (Node F) → SimState × Store F
  unfolding reset_types
  reset_scheduler c s input sizes =
      let (gpus, s') = reset_types s c.type_to_num sizes input.gpu_list in
      (record input { gpu_list = gpus }, s')
