-- ===== src/Service/Loading.antt =====
-- Loading models on proxies and unloading them: `getProxyInfo`, `loadModel_sync`, `unloadModel_async` and
-- what they call of src/service/global_scheduler_proxy.cpp, and `needToLoad` and `needToUnload` of
-- global_scheduler.cpp. What the functions wait for has come. `none` is an abort.
pub mod Direct
pub mod Loaded
pub mod Unloaded
use glet.Common.{
  ◌>>=◌, ◌>>◌, ℕ, zero, suc, Bool, true, false, not, ◌&&◌, ◌||◌, Option, none, some, List, [], ◌∷◌,
  ◌++◌, String, str_eq, ltb, ◌==◌, if◌then◌else◌, assert, is_empty, any, update, get_elem?, length,
}
use glet.Common.Int.{pos}
use glet.Float.{Float}
use glet.Scheduler.State.{Task, Node, SimState, Store}
use glet.Scheduler.Nodes.{set_node}
use glet.Scheduler.Devices.{get_model_id}
use glet.Scheduler.Estimate.{create_new_task}

-- What the functions read and write of a `proxy_info`, with its list of models and batch sizes.
pub record ProxyEntry (F : Type 0) : Type 0 where
  pub dev_id : ℕ
  pub cap : ℕ
  pub dedup_num : ℕ
  pub loaded_models : List String
  pub net_list : List (String × ℕ)
  pub is_booted : Bool
  pub is_connected : Bool
  pub is_schedulable : Bool
  pub is_reserved : Bool
  pub is_loading : Bool
  pub is_unloading : Bool
  pub duty_cycle : F

-- The proxies behind their pointers, and those of each GPU.
pub record Fleet (F : Type 0) : Type 0 where
  pub entries : ℕ → ProxyEntry F
  pub devs : ℕ → List ℕ
  pub ngpus : ℕ

-- `load_args`.
pub record LoadArgs : Type 0 where
  pub proxy : ℕ
  pub model_ids_batches : List (ℕ × ℕ)

-- The loop of `unloadModel_async` over the loaded models: those that stay, and the ids of the others.
unfoldable pub unload_others :
    List String → List (ℕ × ℕ) → List String → Option (List String × List ℕ)
unfolding get_model_id any
unload_others names exempted [] = some ([], [])
unload_others names exempted (name ∷ loaded) = elim (get_model_id names name) [
  | none ↦ none
  | some id ↦ elim (unload_others names exempted loaded) [
    | none ↦ none
    | some (kept, commands) ↦
        some
          (if any (λ e. e.0 == id) exempted then (name ∷ kept, commands) else (kept, id ∷ commands))
  ]
]

module _ {F : Type 0} where
  unfoldable pub set_entry : Fleet F → ℕ → ProxyEntry F → Fleet F
  set_entry fleet p entry = record fleet { entries = update fleet.entries p entry }

  unfoldable pub find_proxy_entry : Fleet F → (cap dedup_num : ℕ) → List ℕ → Option ℕ
  find_proxy_entry fleet cap dedup_num [] = none
  find_proxy_entry fleet cap dedup_num (p ∷ ps) =
      let rest = find_proxy_entry fleet cap dedup_num ps in
      if (fleet.entries p).cap == cap && (fleet.entries p).dedup_num == dedup_num
      then some p
      else rest

  unfoldable pub get_proxy_info : Fleet F → (dev_id cap dedup_num : ℕ) → Option ℕ
  unfolding find_proxy_entry
  get_proxy_info fleet dev_id cap dedup_num = do
    assert (ltb dev_id fleet.ngpus)
    find_proxy_entry fleet cap dedup_num (fleet.devs dev_id)

  unfoldable pub check_if_loaded : ProxyEntry F → String → Bool
  unfolding any
  check_if_loaded entry name = any (λ n. str_eq n name) entry.loaded_models

  -- `needToLoad`, over the tasks of the node.
  unfoldable pub need_to_load : List String → Store F → ProxyEntry F → List ℕ → Option Bool
  unfolding check_if_loaded
  need_to_load names s entry [] = some false
  need_to_load names s entry (t ∷ ts) = elim (get_elem? names (s.tasks t).id) [
    | none ↦ none
    | some name ↦
        let rest = need_to_load names s entry ts in
        if check_if_loaded entry name then rest else some true
  ]

  -- Whether a task of the node is of the model.
  unfoldable pub has_task : Store F → List ℕ → ℕ → Bool
  unfolding any
  has_task s ts model_id = any (λ t. (s.tasks t).id == model_id) ts

  unfoldable pub is_superfluous : List String → Store F → List ℕ → List String → Option Bool
  unfolding get_model_id has_task
  is_superfluous names s ts [] = some false
  is_superfluous names s ts (name ∷ loaded) = elim (get_model_id names name) [
    | none ↦ none
    | some id ↦
        let rest = is_superfluous names s ts loaded in if has_task s ts id then rest else some true
  ]

  unfoldable pub need_to_unload : List String → Store F → Node F → ProxyEntry F → Option Bool
  unfolding is_superfluous
  need_to_unload names s node entry = do
    assert (
        node.id == entry.dev_id
        && node.resource_pntg == entry.cap
        && node.dedup_num == entry.dedup_num)
    is_superfluous names s node.task_list entry.loaded_models

  -- The ids of the tasks with a batch size of 0, as for `unloadModel_async`.
  unfoldable pub kept_ids : Store F → List ℕ → List (ℕ × ℕ)
  kept_ids s [] = []
  kept_ids s (t ∷ ts) = ((s.tasks t).id, 0) ∷ kept_ids s ts

  unfoldable pub ids_batches : Store F → List ℕ → List (ℕ × ℕ)
  ids_batches s [] = []
  ids_batches s (t ∷ ts) = ((s.tasks t).id, (s.tasks t).batch_size) ∷ ids_batches s ts

  -- The loop of `loadModel_sync`: the loaded models, and the commands to the proxy.
  unfoldable pub load_models :
      List String → List (ℕ × ℕ) → ProxyEntry F → Option (ProxyEntry F × List (ℕ × ℕ))
  unfolding check_if_loaded
  load_models names [] entry = some (entry, [])
  load_models names ((id, batch) ∷ pairs) entry = elim (get_elem? names id) [
    | none ↦ none
    | some name ↦ elim (check_if_loaded entry name) [
      | true ↦ load_models names pairs entry
      | false ↦
          elim (load_models names pairs
            (record entry { loaded_models = entry.loaded_models ++ name ∷ [] })) [
              | none ↦ none
              | some (entry', commands) ↦ some (entry', (id, batch) ∷ commands)
            ]
    ]
  ]

  unfoldable pub boot_proxy_sync : ProxyEntry F → Option (ProxyEntry F)
  boot_proxy_sync entry = do
    assert (not entry.is_connected)
    some (record entry { is_booted = true; is_connected = true })

  unfoldable pub shutdown_proxy_sync : ProxyEntry F → Option (ProxyEntry F)
  shutdown_proxy_sync entry = do
    assert (is_empty entry.loaded_models && entry.is_connected && entry.is_booted)
    some (record entry { is_schedulable = false; is_booted = false; is_connected = false })

  -- `loadModel_sync`, once the proxy is not unloading; `cold` is whether its state is COLD.
  unfoldable pub load_model_sync :
      (allow_repart cold : Bool)
      → List String
      → List (ℕ × ℕ)
      → ProxyEntry F
      → Option (ProxyEntry F × List (ℕ × ℕ))
  unfolding boot_proxy_sync load_models
  load_model_sync allow_repart cold names pairs entry = do
    booted ← if cold && allow_repart then boot_proxy_sync entry else some entry
    (entry', commands) ← load_models names pairs booted
    some (record entry' { is_loading = false }, commands)

  -- The end of `unloadModel_async`: a proxy without models is shut down.
  unfoldable pub end_unused : (allow_repart : Bool) → ProxyEntry F → Option (ProxyEntry F)
  unfolding shutdown_proxy_sync
  end_unused allow_repart entry =
      if is_empty entry.loaded_models && allow_repart
      then (do
        down ← shutdown_proxy_sync entry
        some (record down { is_reserved = false; is_schedulable = false }))
      else some entry

  unfoldable pub unload_model_async :
      (allow_repart : Bool)
      → List String
      → List (ℕ × ℕ)
      → ProxyEntry F
      → Option (ProxyEntry F × List ℕ)
  unfolding unload_others end_unused
  unload_model_async allow_repart names exempted entry = do
    (kept, commands) ← unload_others names exempted entry.loaded_models
    ended ← end_unused allow_repart (record entry { loaded_models = kept })
    some (record ended { is_unloading = false }, commands)
