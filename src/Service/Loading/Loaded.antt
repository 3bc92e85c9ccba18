-- ===== src/Service/Loading/Loaded.antt =====
-- What a proxy has loaded after `loadModel_sync`.
use glet.Common.{
  ℕ, ◌≡◌, refl, ap, ◌∙◌, Bool, true, false, ◌&&◌, Option, none, some, List, [], ◌∷◌, ◌++◌, String,
  str_eq, arith, any, if◌then◌else◌, get_elem?,
}
use text.Mathlib.TextEquality.{eq_iff}
use glet.Common.Loops.{Ends, Ends-bind, Ends-imp, Ends-some}
use glet.Scheduler.State.{Store}
use glet.Service.Loading.{
  ProxyEntry, check_if_loaded, need_to_load, ids_batches, load_models, load_model_sync,
  boot_proxy_sync,
}

any-append : (p : String → Bool) (xs ys : List String) → any p xs ≡ true → any p (xs ++ ys) ≡ true
unfolding any
any-append p [] ys h = absurd (ground (arith, h))
any-append p (x ∷ xs) ys h = ground (arith, any-append p xs ys, h)

any_here :
    (p : String → Bool) (xs : List String) (x : String) → p x ≡ true → any p (xs ++ x ∷ []) ≡ true
unfolding any
any_here p [] x h = rw h refl
any_here p (y ∷ xs) x h = ground (arith, any_here p xs x h)

Ends-and {κ ℓ} :
    {A : Type 0} (P : A → Type κ) (Q : A → Type ℓ) (o : Option A)
    → Ends P o
    → Ends Q o
    → Ends (λ a. P a × Q a) o
Ends-and P Q none p q = tt
Ends-and P Q (some a) p q = (p, q)

module _ {F : Type 0} where
  -- A model that is loaded stays so.
  abbrev Keeps : ProxyEntry F → ProxyEntry F × List (ℕ × ℕ) → Type 0
  Keeps entry r =
      (name : String) → check_if_loaded entry name ≡ true → check_if_loaded r.0 name ≡ true

  -- The entry with one model more.
  abbrev grown : ProxyEntry F → String → ProxyEntry F
  grown entry name = record entry { loaded_models = entry.loaded_models ++ name ∷ [] }

  abbrev with_command :
      ℕ × ℕ → Option (ProxyEntry F × List (ℕ × ℕ)) → Option (ProxyEntry F × List (ℕ × ℕ))
  with_command pair o = elim o [
    | none ↦ none
    | some (entry', commands) ↦ some (entry', pair ∷ commands)
  ]

  with_command-Ends {κ} :
      (P : ProxyEntry F → Type κ) (pair : ℕ × ℕ) (o : Option (ProxyEntry F × List (ℕ × ℕ)))
      → Ends (λ r. P r.0) o
      → Ends (λ r. P r.0) (with_command pair o)
  with_command-Ends P pair none h = tt
  with_command-Ends P pair (some r) h = h

  load_models-Keeps :
      (names : List String) (pairs : List (ℕ × ℕ)) (entry : ProxyEntry F)
      → Ends (Keeps entry) (load_models names pairs entry)
  unfolding load_models check_if_loaded
  load_models-Keeps names [] entry = λ name h. h
  load_models-Keeps names ((id, batch) ∷ pairs) entry =
      by_name (get_elem? names id) (load_models-Keeps names pairs)
    where
      by_loaded :
          (name : String) (b : Bool)
          → ((e : ProxyEntry F) → Ends (Keeps e) (load_models names pairs e))
          → Ends (Keeps entry) (elim b [
            | true ↦ load_models names pairs entry
            | false ↦ with_command (id, batch) (load_models names pairs (grown entry name))
          ])
      by_loaded name true rest = rest entry
      by_loaded name false rest =
          with_command-Ends
            (λ e. (k : String) → check_if_loaded entry k ≡ true → check_if_loaded e k ≡ true)
            (id, batch) (load_models names pairs (grown entry name))
            (Ends-imp (Keeps (grown entry name)) (Keeps entry) _
              (λ r h k loaded. h k (any-append _ entry.loaded_models (name ∷ []) loaded))
              (rest (grown entry name)))

      by_name :
          (o : Option String)
          → ((e : ProxyEntry F) → Ends (Keeps e) (load_models names pairs e))
          → Ends (Keeps entry) (elim o [
            | none ↦ none
            | some name ↦ elim (check_if_loaded entry name) [
              | true ↦ load_models names pairs entry
              | false ↦ with_command (id, batch) (load_models names pairs (grown entry name))
            ]
          ])
      by_name none rest = tt
      by_name (some name) rest = by_loaded name (check_if_loaded entry name) rest

  need_to_load-cons :
      (names : List String) (s : Store F) (t : ℕ) (ts : List ℕ) (name : String)
      (entry : ProxyEntry F)
      → get_elem? names (s.tasks t).id ≡ some name
      → check_if_loaded entry name ≡ true
      → need_to_load names s entry ts ≡ some false
      → need_to_load names s entry (t ∷ ts) ≡ some false
  unfolding need_to_load
  need_to_load-cons names s t ts name entry e loaded rest = rw (e, need_to_load) (rw loaded rest)

  -- After the loop of `loadModel_sync`, no task of the node needs its model loaded.
  load_models-need :
      (names : List String) (s : Store F) (ts : List ℕ) (entry : ProxyEntry F)
      → Ends
          (λ r. need_to_load names s r.0 ts ≡ some false)
          (load_models names (ids_batches s ts) entry)
  unfolding load_models ids_batches check_if_loaded need_to_load
  load_models-need names s [] entry = refl
  load_models-need names s (t ∷ ts) entry =
      by_name (get_elem? names (s.tasks t).id) refl (load_models-need names s ts)
    where
      pairs : List (ℕ × ℕ)
      pairs = ids_batches s ts

      Needs : List ℕ → ProxyEntry F × List (ℕ × ℕ) → Type 0
      Needs us r = need_to_load names s r.0 us ≡ some false

      -- A run that starts with the model loaded.
      from_loaded :
          (name : String) (e : ProxyEntry F)
          → get_elem? names (s.tasks t).id ≡ some name
          → check_if_loaded e name ≡ true
          → Ends (Needs ts) (load_models names pairs e)
          → Ends (Needs (t ∷ ts)) (load_models names pairs e)
      from_loaded name e q loaded rest =
          Ends-imp (λ r. Keeps e r × Needs ts r) (Needs (t ∷ ts)) (load_models names pairs e)
            (λ r h. need_to_load-cons names s t ts name r.0 q (h.0 name loaded) h.1)
            (Ends-and (Keeps e) (Needs ts) (load_models names pairs e)
              (load_models-Keeps names pairs e) rest)

      by_loaded :
          (name : String) (b : Bool)
          → check_if_loaded entry name ≡ b
          → get_elem? names (s.tasks t).id ≡ some name
          → ((e : ProxyEntry F) → Ends (Needs ts) (load_models names pairs e))
          → Ends (Needs (t ∷ ts)) (elim b [
            | true ↦ load_models names pairs entry
            | false ↦
                with_command
                  ((s.tasks t).id, (s.tasks t).batch_size)
                  (load_models names pairs (grown entry name))
          ])
      by_loaded name true loaded q rest = from_loaded name entry q loaded (rest entry)
      by_loaded name false missing q rest =
          with_command-Ends (λ e. need_to_load names s e (t ∷ ts) ≡ some false)
            ((s.tasks t).id, (s.tasks t).batch_size) (load_models names pairs (grown entry name))
            (from_loaded name (grown entry name) q
              (any_here (λ n. str_eq n name) entry.loaded_models name ((eq_iff name name).1 refl))
              (rest (grown entry name)))

      by_name :
          (o : Option String)
          → get_elem? names (s.tasks t).id ≡ o
          → ((e : ProxyEntry F) → Ends (Needs ts) (load_models names pairs e))
          → Ends (Needs (t ∷ ts)) (elim o [
            | none ↦ none
            | some name ↦ elim (check_if_loaded entry name) [
              | true ↦ load_models names pairs entry
              | false ↦
                  with_command
                    ((s.tasks t).id, (s.tasks t).batch_size)
                    (load_models names pairs (grown entry name))
            ]
          ])
      by_name none q rest = tt
      by_name (some name) q rest = by_loaded name (check_if_loaded entry name) refl q rest

  need_to_load-loaded :
      (names : List String) (s : Store F) (ts : List ℕ) (entry : ProxyEntry F)
      → need_to_load names s (record entry { is_loading = false }) ts
        ≡ need_to_load names s entry ts
  unfolding need_to_load check_if_loaded
  need_to_load-loaded names s [] entry = refl
  need_to_load-loaded names s (t ∷ ts) entry =
      ap
        (λ (rest : Option Bool). elim (get_elem? names (s.tasks t).id) [
          | none ↦ none
          | some name ↦ if check_if_loaded entry name then rest else some true
        ])
        (need_to_load-loaded names s ts entry)

  -- Once a proxy has loaded the models of a node's tasks, `need_to_load` of the node answers no, unless
  -- the run aborts.
  pub load_model_sync-need_to_load :
      (allow_repart cold : Bool) (names : List String) (s : Store F) (ts : List ℕ)
      (entry : ProxyEntry F)
      → Ends
          (λ r. need_to_load names s r.0 ts ≡ some false)
          (load_model_sync allow_repart cold names (ids_batches s ts) entry)
  unfolding load_model_sync
  load_model_sync-need_to_load allow_repart cold names s ts entry =
      Ends-bind _ (if cold && allow_repart then boot_proxy_sync entry else some entry) _
        (λ booted _.
          Ends-bind _ (load_models names (ids_batches s ts) booted) _
            (λ (r : ProxyEntry F × List (ℕ × ℕ)) e.
              need_to_load-loaded names s ts r.0
              ∙ Ends-some (λ r. need_to_load names s r.0 ts ≡ some false) _ r e
                  (load_models-need names s ts booted)))
