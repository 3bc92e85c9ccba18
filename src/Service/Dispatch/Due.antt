-- ===== src/Service/Dispatch/Due.antt =====
-- What `staticMPSScheduler` hands out, and how many latencies a proxy keeps.
use glet.Common.{
  ℕ, zero, suc, ◌/◌, ◌+◌, ◌≤◌, ◌≡◌, ap, inl, inr, Bool, true, false, not, List, [], ◌∷◌, String,
  arith, ltb, ◌==◌, if◌then◌else◌, is_empty, length, lookup_or, insert, string_key, All, All-append,
  Bool-cases, lookup_or-insert, str_eq, length-append,
}
use glet.Common.Loops.{if_both}
use glet.Common.Int.{pos, leb_ℤ}
use glet.Float.{Float}
use glet.Service.Dispatch.{
  Worker, TaskSpec, get_tasks_need_scheduling, is_needed, is_idle, specs_of, specs_of_workers,
  specs_of_gpus, static_mps_scheduler, Latencies, pop_front, add_latency,
}
use text.Mathlib.TextEquality.{eq_iff}

-- A task for a model that has requests, on a proxy that is schedulable, has models loaded and nothing in
-- its queue.
abbrev pub IsDue : (String → ℕ) → TaskSpec → Type 0
IsDue len spec =
    ((len spec.req_name == 0) ≡ false)
    × (is_empty spec.proxy.loaded_models ≡ false)
    × (spec.proxy.is_schedulable ≡ true)
    × (spec.proxy.queued == 0) ≡ true

-- The models that are marked as in need have requests.
abbrev IsSound : (String → ℕ) → List (String × Bool) → Type 0
IsSound len needs = (name : String) → is_needed needs name ≡ true → (len name == 0) ≡ false

get_tasks_need_scheduling-IsSound :
    (len : String → ℕ) (names : List String) (needs : List (String × Bool))
    → IsSound len needs
    → IsSound len (get_tasks_need_scheduling len names needs)
unfolding get_tasks_need_scheduling is_needed
get_tasks_need_scheduling-IsSound len [] needs h = h
get_tasks_need_scheduling-IsSound len (k ∷ ks) needs h =
    get_tasks_need_scheduling-IsSound len ks (insert k (not (len k == 0)) needs) (λ name e.
      elim (Bool-cases (str_eq k name)) [
        | inl same ↦
            let equal : k ≡ name = (eq_iff k name).0 same in
            ground
              (arith, lookup_or-insert false (not (len k == 0)) k name needs, e, same, ap len equal)
        | inr other ↦
            h name
              (ground (arith, lookup_or-insert false (not (len k == 0)) k name needs, e, other))
      ])

module _ (len : String → ℕ) (needs : List (String × Bool)) (sound : IsSound len needs) where
  specs_of-IsDue :
      (dev : ℕ) (w : Worker) (nets : List (String × ℕ))
      → is_idle needs w ≡ true
      → All (IsDue len) (specs_of needs dev w nets)
  unfolding specs_of is_idle
  specs_of-IsDue dev w [] idle = tt
  specs_of-IsDue dev w ((name, batch) ∷ nets) idle = elim (Bool-cases (is_needed needs name)) [
    | inl e ↦ rw e (
      (sound name e, ground (arith, idle), ground (arith, idle), ground (arith, idle)),
      specs_of-IsDue dev w nets idle,
    )
    | inr e ↦ rw e (specs_of-IsDue dev w nets idle)
  ]

  specs_of_workers-IsDue :
      (dev : ℕ) (ws : List Worker) → All (IsDue len) (specs_of_workers needs dev ws)
  unfolding specs_of_workers
  specs_of_workers-IsDue dev [] = tt
  specs_of_workers-IsDue dev (w ∷ ws) = elim (Bool-cases (is_idle needs w)) [
    | inl e ↦ rw e (
        All-append (IsDue len) (specs_of needs dev w w.net_list) (specs_of_workers needs dev ws)
          (specs_of-IsDue dev w w.net_list e) (specs_of_workers-IsDue dev ws))
    | inr e ↦ rw e (specs_of_workers-IsDue dev ws)
  ]

  specs_of_gpus-IsDue :
      (workers : ℕ → List Worker) (dev num : ℕ)
      → All (IsDue len) (specs_of_gpus needs workers dev num)
  unfolding specs_of_gpus
  specs_of_gpus-IsDue workers dev zero = tt
  specs_of_gpus-IsDue workers dev (suc num) =
      All-append (IsDue len) (specs_of_workers needs dev (workers dev)) _
        (specs_of_workers-IsDue dev (workers dev)) (specs_of_gpus-IsDue workers (suc dev) num)

-- Every task that staticMPSScheduler hands out is for a model with requests in its queue, on a proxy that
-- is schedulable, has models loaded, and has nothing in its batch queue.
pub static_mps_scheduler-IsDue :
    (len : String → ℕ) (net_names : List String) (ngpus : ℕ) (workers : ℕ → List Worker)
    → All (IsDue len) (static_mps_scheduler len net_names ngpus workers)
unfolding static_mps_scheduler is_needed lookup_or
static_mps_scheduler-IsDue len net_names ngpus workers =
    specs_of_gpus-IsDue len (get_tasks_need_scheduling len net_names [])
      (get_tasks_need_scheduling-IsSound len net_names [] (λ name e. absurd (ground (arith, e))))
      workers 0 ngpus

module _ {F : Type 0} ⦃R : Float F⦄ where
  length-pop_front : (n : ℕ) (xs : List F) → n ≤ length xs → length (pop_front n xs) + n ≡ length xs
  unfolding pop_front
  length-pop_front zero xs h = omega arith
  length-pop_front (suc n) [] h = absurd (omega (arith, h))
  length-pop_front (suc n) (x ∷ xs) h = omega (arith, length-pop_front n xs (omega (arith, h)))

  -- The latencies of one model on a proxy, the newest first, given to `addLatency` in turn.
  unfoldable pub added : List F → Latencies F → Latencies F
  added [] v = v
  added (latency ∷ latencies) v = add_latency latency (added latencies v)

  kept-le :
      (window : List F)
      → length window ≤ 11
      → length (if ltb 10 (length window) then pop_front (length window / 2) window else window)
        ≤ 10
  kept-le window h = elim (Bool-cases (ltb 10 (length window))) [
    | inl e ↦
        let full : length window ≡ 11 = ground (arith, e, h) in
        rw e (omega (arith, full, length-pop_front (length window / 2) window (omega arith)))
    | inr e ↦ rw e (ground (arith, e, h))
  ]

  add_latency-le :
      (latency : F) (v : Latencies F)
      → length v.window ≤ 11
      → length (add_latency latency v).window ≤ 11
  unfolding add_latency
  add_latency-le latency v h =
      let kept =
        if ltb 10 (length v.window) then pop_front (length v.window / 2) v.window else v.window in
      if_both (λ (w : Latencies F). length w.window ≤ 11) (leb_ℤ v.skip_cnt (pos 0)) _ _
        (omega (arith, length-append kept (latency ∷ []), kept-le v.window h))
        (omega (arith, kept-le v.window h))

  -- However many latencies a proxy reports for a model, of which any number is skipped, the window never
  -- has more than 11 of them: one more than MA_WINDOW.
  added-le :
      (latencies : List F) (v : Latencies F)
      → length v.window ≤ 11
      → length (added latencies v).window ≤ 11
  unfolding added
  added-le [] v h = h
  added-le (latency ∷ latencies) v h =
      add_latency-le latency (added latencies v) (added-le latencies v h)
