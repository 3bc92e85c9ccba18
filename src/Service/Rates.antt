-- ===== src/Service/Rates.antt =====
-- Target rates of the models: `setupTasks`, `setupAllTasks`, `updateAndReturnMaxHistRate` and
-- `removeMaxRates` of src/service/global_scheduler.cpp. The rates that arrive (`getTaskArivRate`) are an
-- argument; `none` is an abort.
pub mod History
pub mod Idle
pub mod Backup
use glet.Common.{
  ◌>>=◌, ℕ, suc, Bool, true, false, not, ◌&&◌, ◌||◌, Option, none, some, List, [], ◌∷◌, ◌++◌,
  String, if◌then◌else◌, is_empty, length, lookup, lookup_or, insert, string_key, get_elem?,
}
use glet.Common.Int.{ℤ, pos}
use glet.Float.{Float}
use glet.Scheduler.State.{Task, SimState, Store}
use glet.Scheduler.Estimate.{create_new_task}
use glet.Scheduler.Devices.{get_model_id}

-- `mPerTaskTgtRate`, `mPerTaskRateHist` with the newest rate first, and the flag of `isSysFlush`.
pub record Targets (F : Type 0) : Type 0 where
  pub tgt : List (String × F)
  pub hist : List (String × List F)
  pub flush : Bool

-- What the functions read: `HIST_LEN`, the rates that arrive, the names of the models in the order of
-- their ids, and `mPerModelSLO`.
pub record Models (F : Type 0) : Type 0 where
  pub hist_len : F
  pub ariv_rate : String → F
  pub names : List String
  pub slo : List (String × ℤ)

-- The list without its last element: `pop_back`.
unfoldable pub pop_back {ℓ} : {A : Type ℓ} → List A → List A
pop_back [] = []
pop_back (x ∷ xs) = elim xs [ [] ↦ [] | y ∷ ys ↦ x ∷ pop_back xs ]

module _ {F : Type 0} ⦃R : Float F⦄ where
  open R use {of_int, lit, add, sub, mul, div, eq, lt, trunc}

  -- `std::max_element`: the first of the largest.
  unfoldable pub max_element : F → List F → F
  max_element best [] = best
  max_element best (x ∷ xs) = max_element (if lt best x then x else best) xs

  -- The history with the new rate, cut to `HIST_LEN`.
  unfoldable pub push_rate : F → F → List F → List F
  unfolding pop_back
  push_rate hist_len rate rates =
      let rates' = rate ∷ rates in
      if lt hist_len (of_int (pos (length rates'))) then pop_back rates' else rates'

  -- An empty history leaves `max_element` with the end of the list, an invalid read.
  unfoldable pub update_and_return_max_hist_rate :
      F → String → F → List (String × List F) → Option (F × List (String × List F))
  unfolding push_rate max_element lookup_or insert
  update_and_return_max_hist_rate hist_len name rate hist =
      elim (push_rate hist_len rate (lookup_or [] name hist)) [
        | [] ↦ none
        | x ∷ xs ↦ some (max_element x xs, insert name (x ∷ xs) hist)
      ]

  unfoldable pub remove_equal : F → List F → List F
  remove_equal v [] = []
  remove_equal v (x ∷ xs) = let rest = remove_equal v xs in if eq x v then rest else x ∷ rest

  -- `removeMaxRates`, of the histories that have two rates or more.
  unfoldable pub remove_max : List F → List F
  unfolding max_element remove_equal
  remove_max [] = []
  remove_max (x ∷ xs) = if is_empty xs then x ∷ xs else remove_equal (max_element x xs) (x ∷ xs)

  unfoldable pub remove_max_rates : List (String × List F) → List (String × List F)
  unfolding remove_max
  remove_max_rates [] = []
  remove_max_rates ((name, rates) ∷ hist) = (name, remove_max rates) ∷ remove_max_rates hist

  unfoldable pub rate_of : List (String × F) → String → F
  unfolding lookup_or
  rate_of tgt name = lookup_or (lit 0 0) name tgt

  -- `mPerTaskTgtRate[name]` as a read, which adds a missing name with rate 0.
  unfoldable pub touch : String → List (String × F) → List (String × F)
  unfolding lookup insert
  touch name tgt = elim (lookup name tgt) [ none ↦ insert name (lit 0 0) tgt | some r ↦ tgt ]

  -- The target with its room, which is larger for small rates.
  unfoldable pub with_room : F → F
  with_room org = if lt org (lit 125 0) then mul org (lit 15 1) else mul org (lit 12 1)

  -- The thresholds for a new target, in percent and in absolute rate.
  unfoldable pub goes_up : (old new : F) → Bool
  goes_up old new =
      lt (lit 5 0) (mul (div (sub new old) old) (lit 100 0)) || lt (lit 10 0) (sub new old)

  unfoldable pub goes_down : (old new : F) → Bool
  goes_down old new = lt (mul (div (sub new old) old) (lit 100 0)) (sub (lit 0 0) (lit 10 0))

  -- The change of a target that is set, and the names that are pushed to `tasks`.
  unfoldable pub retarget : Bool → String → (old new : F) → Targets F → Targets F × List String
  unfolding goes_up goes_down insert
  retarget include_downsize name old new x =
      let up = goes_up old new in
      let down = include_downsize && goes_down old new in
      (
        record x {
          tgt = if up || down then insert name new x.tgt else x.tgt;
          flush = down || x.flush;
        },
        (if up then name ∷ [] else []) ++ (if down then name ∷ [] else []),
      )

  -- A model with a known rate: it is flushed, passed over, or its target is set.
  unfoldable pub setup_rate :
      Bool → String → (curr tgt_rate : F) → Targets F → Targets F × List String
  unfolding touch rate_of retarget lookup insert
  setup_rate include_downsize name curr tgt_rate x0 =
      let x = record x0 { tgt = touch name x0.tgt } in
      let old = rate_of x.tgt name in
      if lt curr (lit 1 0) && lt (lit 1 0) old
      then (record x { tgt = insert name (lit 0 0) x.tgt; flush = true }, [])
      else if eq old (lit 0 0)
      then (x, [])
      else elim (lookup name x.tgt) [
        | none ↦ (record x { tgt = insert name tgt_rate x.tgt }, name ∷ [])
        | some r ↦ retarget include_downsize name old tgt_rate x
      ]

  -- No target and no requests.
  unfoldable pub is_unused : Models F → String → Targets F → Bool
  unfolding lookup
  is_unused m name x =
      eq (m.ariv_rate name) (lit 0 0) && elim (lookup name x.tgt) [ none ↦ true | some r ↦ false ]

  unfoldable pub setup_round :
      Models F → Bool → String → Targets F → Option (Targets F × List String)
  unfolding is_unused
  setup_round m include_downsize name x = if is_unused m name x then some (x, []) else do
    (org_rate, hist) ← update_and_return_max_hist_rate m.hist_len name (m.ariv_rate name) x.hist
    some (
        setup_rate include_downsize name (m.ariv_rate name) (with_room org_rate)
          (record x { hist = hist }))

  -- The loop over the names of the networks.
  unfoldable pub setup_names :
      Models F → Bool → List String → Targets F → Option (Targets F × List String)
  setup_names m include_downsize [] x = some (x, [])
  setup_names m include_downsize (name ∷ names) x = do
    (x1, tasks) ← setup_round m include_downsize name x
    (x2, more) ← setup_names m include_downsize names x1
    some (x2, tasks ++ more)

  unfoldable pub new_session_task : Models F → List (String × F) → String → Option (Task F)
  unfolding get_model_id create_new_task rate_of lookup_or
  new_session_task m tgt name = do
    id ← get_model_id m.names name
    some (create_new_task id (trunc (rate_of tgt name)) (lookup_or (pos 0) name m.slo) 0 (lit 0 0))

  unfoldable pub session_of : Models F → List (String × F) → List String → Option (List (Task F))
  unfolding new_session_task
  session_of m tgt [] = some []
  session_of m tgt (name ∷ names) = do
    task ← new_session_task m tgt name
    tasks ← session_of m tgt names
    some (task ∷ tasks)

  -- `setupTasks`: the new targets, and the session with what was in the output before.
  unfoldable pub setup_tasks :
      Models F
      → Bool
      → (net_names : List String) → Targets F
      → List (Task F)
      → Option (Targets F × List (Task F))
  unfolding setup_names session_of
  setup_tasks m include_downsize net_names x output = do
    (x', names) ← setup_names m include_downsize net_names x
    tasks ← session_of m x'.tgt names
    some (x', output ++ tasks)

  -- The names with a target, for `setupAllTasks`; reading a target adds a missing name.
  unfoldable pub all_names : Models F → List String → Targets F → Targets F × List String
  unfolding is_unused touch rate_of
  all_names m [] x = (x, [])
  all_names m (name ∷ names) x =
      let x1 = if is_unused m name x then x else record x { tgt = touch name x.tgt } in
      let keep = not (is_unused m name x) && not (eq (rate_of x1.tgt name) (lit 0 0)) in
      let (x2, more) = all_names m names x1 in (x2, if keep then name ∷ more else more)

  -- `setupAllTasks`, which clears the output if there is a task.
  unfoldable pub setup_all_tasks :
      Models F
      → (net_names : List String) → Targets F
      → List (Task F)
      → Option (Targets F × List (Task F))
  unfolding all_names session_of
  setup_all_tasks m net_names x output = do
    let (x', names) = all_names m net_names x
    tasks ← session_of m x'.tgt names
    some (x', (if is_empty names then output else []) ++ tasks)
