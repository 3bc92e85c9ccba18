-- ===== src/Service/Routing.antt =====
-- What is loaded and unloaded after a decision: `unloadModels`, `additionalLoad` and
-- `applyReorganization` of src/service/global_scheduler.cpp. A thread that is started is its arguments, in
-- the order of the starts. `none` is an abort.
pub mod Apply
pub mod Extract
use glet.Common.{
  ◌>>=◌, ℕ, zero, suc, Bool, true, false, ◌&&◌, Option, none, some, List, [], ◌∷◌, ◌++◌, String,
  ◌==◌, if◌then◌else◌, is_empty, any, get_elem?,
}
use glet.Float.{Float}
use glet.Scheduler.State.{Task, Node, SimState, Store}
use glet.Scheduler.Nodes.{set_node}
use glet.Scheduler.Estimate.{create_new_task}
use glet.Service.Loading.{
  ProxyEntry, Fleet, LoadArgs, set_entry, get_proxy_info, need_to_unload, kept_ids, ids_batches,
}

module _ {F : Type 0} where
  -- The proxy is marked as unloading, and a thread starts.
  unfoldable pub start_unload : Fleet F → ℕ → List (ℕ × ℕ) → Fleet F × List LoadArgs
  unfolding set_entry
  start_unload fleet p ids = (
    set_entry fleet p (record (fleet.entries p) { is_unloading = true }),
    record { proxy = p; model_ids_batches = ids } ∷ [],
  )

  unfoldable pub is_node_of : Node F → ProxyEntry F → Bool
  is_node_of node entry = node.resource_pntg == entry.cap && node.dedup_num == entry.dedup_num

  -- The loop over the nodes of the current decision: whether one was found, and the threads.
  unfoldable pub unload_found :
      List String → Store F → Fleet F → ℕ → Bool → List ℕ → Option (Bool × Fleet F × List LoadArgs)
  unfolding is_node_of need_to_unload start_unload kept_ids
  unload_found names s fleet p found [] = some (found, fleet, [])
  unload_found names s fleet p found (n ∷ ns) = elim (is_node_of (s.nodes n) (fleet.entries p)) [
    | false ↦ unload_found names s fleet p found ns
    | true ↦ elim (need_to_unload names s (s.nodes n) (fleet.entries p)) [
      | none ↦ none
      | some false ↦ unload_found names s fleet p true ns
      | some true ↦
          let (fleet1, args) = start_unload fleet p (kept_ids s (s.nodes n).task_list) in
          elim (unload_found names s fleet1 p true ns) [
            | none ↦ none
            | some (found', fleet2, more) ↦ some (found', fleet2, args ++ more)
          ]
    ]
  ]

  -- The nodes of the GPU with the same number in the current decision, if there is one.
  unfoldable pub nodes_at : Store F → SimState → (gpu_id : ℕ) → List ℕ
  nodes_at s curr gpu_id = elim (get_elem? curr.gpu_list gpu_id) [
    | none ↦ []
    | some g ↦ (s.gpus g).node_list
  ]

  -- What becomes of the proxy of a node of the previous decision.
  unfoldable pub unload_node :
      List String → Store F → SimState → Fleet F → (gpu_id n : ℕ) → Option (Fleet F × List LoadArgs)
  unfolding get_proxy_info unload_found nodes_at start_unload
  unload_node names s curr fleet gpu_id n = do
    p ← get_proxy_info fleet gpu_id (s.nodes n).resource_pntg (s.nodes n).dedup_num
    if is_empty (fleet.entries p).loaded_models then some (fleet, []) else do
      (found, fleet', args) ← unload_found names s fleet p false (nodes_at s curr gpu_id)
      some (if found then (fleet', args) else start_unload fleet' p [])

  unfoldable pub unload_nodes :
      List String
      → Store F
      → SimState
      → Fleet F
      → (gpu_id : ℕ) → List ℕ
      → Option (Fleet F × List LoadArgs)
  unfolding unload_node
  unload_nodes names s curr fleet gpu_id [] = some (fleet, [])
  unload_nodes names s curr fleet gpu_id (n ∷ ns) = do
    (fleet1, args) ← unload_node names s curr fleet gpu_id n
    (fleet2, more) ← unload_nodes names s curr fleet1 gpu_id ns
    some (fleet2, args ++ more)

  -- `unloadModels(prev_state, curr_state)`, over the GPUs of the previous decision.
  unfoldable pub unload_models :
      List String → Store F → SimState → Fleet F → List ℕ → Option (Fleet F × List LoadArgs)
  unfolding unload_nodes
  unload_models names s curr fleet [] = some (fleet, [])
  unload_models names s curr fleet (g ∷ gs) = do
    (fleet1, args) ← unload_nodes names s curr fleet (s.gpus g).gpu_id (s.gpus g).node_list
    (fleet2, more) ← unload_models names s curr fleet1 gs
    some (fleet2, args ++ more)

  -- `additionalLoad`, over the nodes of a GPU.
  unfoldable pub additional_load : Store F → Fleet F → List ℕ → Option (List LoadArgs)
  unfolding get_proxy_info ids_batches
  additional_load s fleet [] = some []
  additional_load s fleet (n ∷ ns) = elim (is_empty (s.nodes n).task_list) [
    | true ↦ additional_load s fleet ns
    | false ↦ do
      p ← get_proxy_info fleet (s.nodes n).id (s.nodes n).resource_pntg (s.nodes n).dedup_num
      rest ← additional_load s fleet ns
      some (record { proxy = p; model_ids_batches = ids_batches s (s.nodes n).task_list } ∷ rest)
  ]

  -- `unloadModels(gpu_ptr)`: the loop over the nodes of the GPU, which ends at the first one for which
  -- the proxy has to unload; whether one was found, and the threads.
  unfoldable pub unload_extra :
      List String → Store F → Fleet F → ℕ → Bool → List ℕ → Option (Bool × Fleet F × List LoadArgs)
  unfolding is_node_of need_to_unload start_unload kept_ids
  unload_extra names s fleet p found [] = some (found, fleet, [])
  unload_extra names s fleet p found (n ∷ ns) = elim (is_node_of (s.nodes n) (fleet.entries p)) [
    | false ↦ unload_extra names s fleet p found ns
    | true ↦ elim (need_to_unload names s (s.nodes n) (fleet.entries p)) [
      | none ↦ none
      | some false ↦ unload_extra names s fleet p true ns
      | some true ↦
          let (fleet', args) = start_unload fleet p (kept_ids s (s.nodes n).task_list) in
          some (true, fleet', args)
    ]
  ]

  -- The loop over the proxies of the GPU.
  unfoldable pub unload_proxies :
      List String → Store F → Fleet F → (nodes ps : List ℕ) → Option (Fleet F × List LoadArgs)
  unfolding unload_extra start_unload
  unload_proxies names s fleet nodes [] = some (fleet, [])
  unload_proxies names s fleet nodes (p ∷ ps) = elim (is_empty (fleet.entries p).loaded_models) [
    | true ↦ unload_proxies names s fleet nodes ps
    | false ↦ do
      (found, fleet1, args) ← unload_extra names s fleet p false nodes
      let (fleet2, started) = if found then (fleet1, args) else start_unload fleet1 p []
      (fleet3, more) ← unload_proxies names s fleet2 nodes ps
      some (fleet3, started ++ more)
  ]

  -- `applyReorganization`: for each GPU what is unloaded, and what is loaded.
  unfoldable pub apply_reorganization :
      List String
      → Store F
      → Fleet F
      → List ℕ
      → Option (Fleet F × List (List LoadArgs × List LoadArgs))
  unfolding unload_proxies additional_load
  apply_reorganization names s fleet [] = some (fleet, [])
  apply_reorganization names s fleet (g ∷ gs) = do
    let nodes = (s.gpus g).node_list
    (fleet1, unloads) ← unload_proxies names s fleet nodes (fleet.devs (s.gpus g).gpu_id)
    loads ← additional_load s fleet1 nodes
    (fleet2, more) ← apply_reorganization names s fleet1 gs
    some (fleet2, (unloads, loads) ∷ more)
