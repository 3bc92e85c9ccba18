-- ===== src/Service/Loading/Direct.antt =====
-- Loading what a proxy is to route to, unloading all that it has, and the models that run as tasks of a
-- decision: `loadModelstoProxy` and `unloadModelsfromProxy` of src/service/global_scheduler_proxy.cpp and
-- `updateGPUModelLoadState` of global_scheduler.cpp. The table of `getIDfromModel` is an argument.
use glet.Common.{
  ◌>>=◌, ◌>>◌, ℕ, suc, true, false, ◌&&◌, Option, none, some, List, [], ◌∷◌, ◌++◌, String, ◌==◌,
  if◌then◌else◌, assert, length,
}
use glet.Common.Int.{pos}
use glet.Float.{Float}
use glet.Scheduler.State.{SimState, Store}
use glet.Scheduler.Nodes.{new_task, push_task}
use glet.Scheduler.Devices.{get_model_id}
use glet.Scheduler.Estimate.{create_new_task}
use glet.Service.Loading.{ProxyEntry, Fleet, check_if_loaded}

unfoldable pub job_ids : (String → ℕ) → List String → List ℕ
job_ids job_id [] = []
job_ids job_id (name ∷ names) = job_id name ∷ job_ids job_id names

module _ {F : Type 0} where
  -- The loop of `loadModelstoProxy`: the entry, and the ids and batch sizes of the commands.
  unfoldable pub load_nets :
      (String → ℕ) → List (String × ℕ) → ProxyEntry F → ProxyEntry F × List (ℕ × ℕ)
  unfolding check_if_loaded
  load_nets job_id [] entry = (entry, [])
  load_nets job_id ((name, batch) ∷ nets) entry =
      let loaded =
        if check_if_loaded entry name
        then entry.loaded_models
        else entry.loaded_models ++ name ∷ [] in
      let (entry', commands) = load_nets job_id nets (record entry { loaded_models = loaded }) in
      (entry', (job_id name, batch) ∷ commands)

  unfoldable pub load_models_to_proxy : (String → ℕ) → ProxyEntry F → ProxyEntry F × List (ℕ × ℕ)
  unfolding load_nets
  load_models_to_proxy job_id entry = load_nets job_id entry.net_list entry

  unfoldable pub unload_models_from_proxy : (String → ℕ) → ProxyEntry F → ProxyEntry F × List ℕ
  unfolding job_ids
  unload_models_from_proxy job_id entry =
      (record entry { loaded_models = [] }, job_ids job_id entry.loaded_models)

module _ {F : Type 0} ⦃R : Float F⦄ where
  open R use {lit}

  -- The innermost loop of `updateGPUModelLoadState`: a task of the model on each node of the proxy.
  unfoldable pub push_to_nodes :
      List String → Store F → ProxyEntry F → String → List ℕ → Option (Store F)
  unfolding new_task push_task create_new_task get_model_id
  push_to_nodes names s entry name [] = some s
  push_to_nodes names s entry name (n ∷ ns) =
      elim ((s.nodes n).resource_pntg == entry.cap && (s.nodes n).dedup_num == entry.dedup_num) [
        | false ↦ push_to_nodes names s entry name ns
        | true ↦ elim (get_model_id names name) [
          | none ↦ none
          | some id ↦
              let (t, s1) = new_task s (create_new_task id (pos 0) (pos 0) 0 (lit 0 0)) in
              push_to_nodes names (push_task s1 n t) entry name ns
        ]
      ]

  unfoldable pub push_nets :
      List String → Store F → ProxyEntry F → (nodes : List ℕ) → List (String × ℕ) → Option (Store F)
  unfolding push_to_nodes
  push_nets names s entry nodes [] = some s
  push_nets names s entry nodes ((name, batch) ∷ nets) = do
    s' ← push_to_nodes names s entry name nodes
    push_nets names s' entry nodes nets

  unfoldable pub push_proxies :
      List String → Store F → Fleet F → (nodes ps : List ℕ) → Option (Store F)
  unfolding push_nets
  push_proxies names s fleet nodes [] = some s
  push_proxies names s fleet nodes (p ∷ ps) = do
    s' ← push_nets names s (fleet.entries p) nodes (fleet.entries p).net_list
    push_proxies names s' fleet nodes ps

  unfoldable pub push_devs : List String → Store F → Fleet F → (dev : ℕ) → List ℕ → Option (Store F)
  unfolding push_proxies
  push_devs names s fleet dev [] = some s
  push_devs names s fleet dev (g ∷ gs) = do
    s' ← push_proxies names s fleet (s.gpus g).node_list (fleet.devs dev)
    push_devs names s' fleet (suc dev) gs

  unfoldable pub update_gpu_model_load_state :
      List String → Store F → Fleet F → SimState → Option (Store F)
  unfolding push_devs
  update_gpu_model_load_state names s fleet input = do
    assert (fleet.ngpus == length input.gpu_list)
    push_devs names s fleet 0 input.gpu_list
