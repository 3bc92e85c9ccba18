-- ===== src/Service/Loading/Unloaded.antt =====
-- What a proxy still has loaded after `unloadModel_async`.
use glet.Common.{
  ◌>>=◌, ℕ, ◌≡◌, refl, ap, Bool, true, false, ◌&&◌, ◌||◌, Option, none, some, List, [], ◌∷◌, String,
  any, if◌then◌else◌, ◌==◌, is_empty, assert, ◌>>◌,
}
use glet.Common.Loops.{Ends, Ends-bind, Ends-some}
use glet.Scheduler.State.{Store}
use glet.Scheduler.Devices.{get_model_id}
use glet.Service.Loading.{
  ProxyEntry, is_superfluous, has_task, kept_ids, unload_others, unload_model_async, end_unused,
  shutdown_proxy_sync,
}

module _ {F : Type 0} where
  any-kept_ids :
      (s : Store F) (ts : List ℕ) (id : ℕ) → any (λ e. e.0 == id) (kept_ids s ts) ≡ has_task s ts id
  unfolding any kept_ids has_task
  any-kept_ids s [] id = refl
  any-kept_ids s (t ∷ ts) id = ap (λ b. (s.tasks t).id == id || b) (any-kept_ids s ts id)

  is_superfluous-cons :
      (names : List String) (s : Store F) (ts : List ℕ) (name : String) (loaded : List String)
      (id : ℕ)
      → get_model_id names name ≡ some id
      → has_task s ts id ≡ true
      → is_superfluous names s ts loaded ≡ some false
      → is_superfluous names s ts (name ∷ loaded) ≡ some false
  unfolding is_superfluous
  is_superfluous-cons names s ts name loaded id e needed rest =
      rw (e, is_superfluous) (rw needed rest)

  -- A model that stays is of a task.
  unload_others-needed :
      (names : List String) (s : Store F) (ts : List ℕ) (loaded : List String)
      → Ends
          (λ r. is_superfluous names s ts r.0 ≡ some false)
          (unload_others names (kept_ids s ts) loaded)
  unfolding unload_others is_superfluous
  unload_others-needed names s ts [] = refl
  unload_others-needed names s ts (name ∷ loaded) =
      by_id (get_model_id names name) refl (unload_others names (kept_ids s ts) loaded)
        (unload_others-needed names s ts loaded)
    where
      Needed : List String × List ℕ → Type 0
      Needed r = is_superfluous names s ts r.0 ≡ some false

      by_kept :
          (id : ℕ) (b : Bool) (r : List String × List ℕ)
          → get_model_id names name ≡ some id
          → has_task s ts id ≡ b
          → Needed r
          → Needed (if b then (name ∷ r.0, r.1) else (r.0, id ∷ r.1))
      by_kept id true r e needed rest = is_superfluous-cons names s ts name r.0 id e needed rest
      by_kept id false r e other rest = rest

      by_id :
          (o : Option ℕ)
          → get_model_id names name ≡ o
          → (rest : Option (List String × List ℕ)) → Ends Needed rest
          → Ends Needed (elim o [
            | none ↦ none
            | some id ↦ elim rest [
              | none ↦ none
              | some (kept, commands) ↦ some (
                  if any (λ e. e.0 == id) (kept_ids s ts)
                  then (name ∷ kept, commands)
                  else (kept, id ∷ commands))
            ]
          ])
      by_id none e rest h = tt
      by_id (some id) e none h = tt
      by_id (some id) e (some r) h =
          rw (any-kept_ids s ts id) (by_kept id (has_task s ts id) r e refl h)

  end_unused-Ends {κ} :
      (P : List String → Type κ) (allow_repart : Bool) (entry : ProxyEntry F)
      → P entry.loaded_models
      → Ends (λ e. P e.loaded_models) (end_unused allow_repart entry)
  unfolding end_unused shutdown_proxy_sync
  end_unused-Ends P allow_repart entry h =
      by_test (is_empty entry.loaded_models && allow_repart)
        (is_empty entry.loaded_models && entry.is_connected && entry.is_booted)
    where
      by_test :
          (b c : Bool)
          → Ends
              (λ (e : ProxyEntry F). P e.loaded_models)
              (if b
                then (assert c
                    >> some (record entry {
                      is_schedulable = false;
                      is_booted = false;
                      is_connected = false;
                    }))
                  >>= (λ (down : ProxyEntry F).
                      some (record down { is_reserved = false; is_schedulable = false }))
                else some entry)
      by_test true true = h
      by_test true false = tt
      by_test false c = h

  -- Once a proxy has unloaded all but the models of a node's tasks, no model that it still has is without
  -- a task there, unless the run aborts.
  pub unload_model_async-is_superfluous :
      (allow_repart : Bool) (names : List String) (s : Store F) (ts : List ℕ) (entry : ProxyEntry F)
      → Ends
          (λ r. is_superfluous names s ts r.0.loaded_models ≡ some false)
          (unload_model_async allow_repart names (kept_ids s ts) entry)
  unfolding unload_model_async
  unload_model_async-is_superfluous allow_repart names s ts entry =
      Ends-bind _ (unload_others names (kept_ids s ts) entry.loaded_models) _
        (λ (r : List String × List ℕ) e.
          let left : ProxyEntry F = record entry { loaded_models = r.0 } in
          let needed =
            Ends-some (λ (r : List String × List ℕ). is_superfluous names s ts r.0 ≡ some false) _ r
              e (unload_others-needed names s ts entry.loaded_models) in
          Ends-bind
            (λ (q : ProxyEntry F × List ℕ).
              is_superfluous names s ts q.0.loaded_models ≡ some false)
            (end_unused allow_repart left)
            (λ ended. some (record ended { is_unloading = false }, r.1))
            (λ ended e'.
              Ends-some
                (λ (e : ProxyEntry F). is_superfluous names s ts e.loaded_models ≡ some false) _
                ended e'
                (end_unused-Ends (λ loaded. is_superfluous names s ts loaded ≡ some false)
                  allow_repart left needed)))
