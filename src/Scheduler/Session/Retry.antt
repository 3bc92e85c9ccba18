-- ===== src/Scheduler/Session/Retry.antt =====
-- The rounds of `incrementalScehduling` end: a task that is tried again is flagged, and a flagged task
-- that falls short ends the scheduling.
use glet.Common.{
  ℕ, ◌<◌, ◌≡◌, refl, inl, inr, Bool, true, false, Option, none, some, List, [], ◌∷◌, arith, all,
  lookup_or, lookup_or-insert, ==-refl, insert, nat_key, if◌then◌else◌, Bool-cases,
}
use glet.Common.Int.{ℤ, pos}
use glet.Common.Loops.{again, loop, Ends, loop_ends}
use glet.Float.{Float}
use glet.Scheduler.State.{Task, SimState, Store, Config, Exit, success, failure}
use glet.Scheduler.Estimate.{create_new_task}
use glet.Scheduler.Output.{copy_session}
use glet.Scheduler.Choose.{Planner}
use glet.Scheduler.Session.{
  Surroundings, Trial, retry_tasks, falls_short, retry_round, trial_round, elastic_partitioning,
  cmp_task_dsc, add_models, org_rates,
}

all_cons {ℓ} :
    {A : Type ℓ} (p : A → Bool) (x : A) (xs : List A)
    → all p (x ∷ xs) ≡ true
    → (p x ≡ true) × (all p xs ≡ true)
unfolding all
all_cons p x xs h = (ground arith, ground arith)

module _ {F : Type 0} where
  unfoldable pub is_flagged : List (ℕ × Bool) → Task F → Bool
  is_flagged flags task = lookup_or false task.id flags

  -- All tasks of the session have been tried before.
  unfoldable pub untried : Trial F → ℕ
  unfolding is_flagged all
  untried r = if all (is_flagged r.flags) r.session then 0 else 1

  untried-lt : (r : Trial F) → untried r < 2
  unfolding untried
  untried-lt r = ground arith

  copy_session_lem : (tasks : List (Task F)) → copy_session tasks ≡ tasks
  unfolding copy_session
  copy_session_lem [] = refl
  copy_session_lem (task ∷ tasks) = cc (copy_session_lem tasks)

module _ {F : Type 0} ⦃R : Float F⦄ (s : Store F) (sim : SimState) (rates : List (ℕ × ℤ)) where
  -- What holds of the flags and the tasks that are tried again.
  abbrev IsRetry : List (ℕ × Bool) → List (ℕ × Bool) × List (Task F) → Type 0
  IsRetry flags (flags', more) =
      ((k : ℕ) → lookup_or false k flags ≡ true → lookup_or false k flags' ≡ true)
      × (all (is_flagged flags') more ≡ true)

  -- A flag stays when another one is set.
  lookup_or-set :
      (flags : List (ℕ × Bool)) (id k : ℕ)
      → lookup_or false k flags ≡ true
      → lookup_or false k (insert id true flags) ≡ true
  lookup_or-set flags id k h = ground (arith, lookup_or-insert false true id k flags)

  retry_tasks-cons :
      (flags : List (ℕ × Bool)) (task : Task F) (tasks : List (Task F))
      → falls_short s sim rates task ≡ true
      → lookup_or false task.id flags ≡ false
      → Ends
          (IsRetry (insert task.id true flags))
          (retry_tasks s sim rates (insert task.id true flags) tasks)
      → Ends (IsRetry flags) (retry_tasks s sim rates flags (task ∷ tasks))
  unfolding retry_tasks all is_flagged create_new_task
  retry_tasks-cons flags task tasks short fresh ih =
      rw (short, retry_tasks) (rw (fresh, retry_tasks) (by_rest _ ih))
    where
      by_rest :
          (r : Option (List (ℕ × Bool) × List (Task F)))
          → Ends (IsRetry (insert task.id true flags)) r
          → Ends (IsRetry flags) (elim r [
            | none ↦ none
            | some (flags', more) ↦ some (
              flags',
              create_new_task task.id (lookup_or (pos 0) task.id rates) task.slo 0 (R.lit 0 0)
                  ∷ more,
            )
          ])
      by_rest none h = tt
      by_rest (some (flags', more)) (kept, flagged) = (
        λ k h. kept k (lookup_or-set flags task.id k h),
        ground (
          arith,
          kept task.id,
          lookup_or-insert false true task.id task.id flags,
          flagged,
          ==-refl task.id,
        ),
      )

  retry_tasks-IsRetry :
      (flags : List (ℕ × Bool)) (tasks : List (Task F))
      → Ends (IsRetry flags) (retry_tasks s sim rates flags tasks)
  unfolding retry_tasks all
  retry_tasks-IsRetry flags [] = (λ k h. h, refl)
  retry_tasks-IsRetry flags (task ∷ tasks) = elim (Bool-cases (falls_short s sim rates task)) [
    | inr well ↦ rw (well, retry_tasks) (retry_tasks-IsRetry flags tasks)
    | inl short ↦ elim (Bool-cases (lookup_or false task.id flags)) [
      | inl tried ↦ rw (short, retry_tasks) (rw (tried, retry_tasks) tt)
      | inr fresh ↦
          retry_tasks-cons flags task tasks short fresh
            (retry_tasks-IsRetry (insert task.id true flags) tasks)
    ]
  ]

  -- If all tasks are flagged, none is tried again.
  retry_tasks-nil :
      (flags : List (ℕ × Bool)) (tasks : List (Task F))
      → all (is_flagged flags) tasks ≡ true
      → Ends (λ r. r.1 ≡ []) (retry_tasks s sim rates flags tasks)
  unfolding retry_tasks all is_flagged
  retry_tasks-nil flags [] h = refl
  retry_tasks-nil flags (task ∷ tasks) h =
      let (tried, more) = all_cons (is_flagged flags) task tasks h in
      elim (Bool-cases (falls_short s sim rates task)) [
        | inr well ↦ rw (well, retry_tasks) (retry_tasks-nil flags tasks more)
        | inl short ↦ rw (short, retry_tasks) (rw (tried, retry_tasks) tt)
      ]

-- What is documented of `std::sort`: it permutes, so what holds of all elements still does.
abbrev pub KeepsAll : {F : Type 0} → Surroundings F → Type 0
KeepsAll {F} e =
    (cmp : Task F → Task F → Bool) (p : Task F → Bool) (tasks : List (Task F))
    → all p tasks ≡ true
    → all p (e.sort_tasks cmp tasks) ≡ true

module _ {F : Type 0} ⦃R : Float F⦄ where
  -- A further round starts with flagged tasks only, and follows one that did not.
  retry_round-untried :
      (c : Config F) (sim : SimState) (rates : List (ℕ × ℤ)) (r r' : Trial F)
      → retry_round c sim rates r ≡ again r'
      → (untried r' ≡ 0) × (untried r ≡ 1)
  unfolding retry_round untried
  retry_round-untried c sim rates r r' h =
      by_retry (retry_tasks r.store sim rates r.flags r.session) refl
        (retry_tasks-IsRetry r.store sim rates r.flags r.session)
        (retry_tasks-nil r.store sim rates r.flags r.session)
    where
      by_retry :
          (o : Option (List (ℕ × Bool) × List (Task F)))
          → retry_tasks r.store sim rates r.flags r.session ≡ o
          → Ends (IsRetry r.store sim rates r.flags) o
          → (all (is_flagged r.flags) r.session ≡ true → Ends (λ x. x.1 ≡ []) o)
          → (untried r' ≡ 0) × (untried r ≡ 1)
      by_retry none e sound nothing = ground (arith, e)
      by_retry (some (flags', more)) e (kept, flagged) nothing =
          ground (arith, e, flagged, copy_session_lem more, nothing)

  module _ (e : Surroundings F) (c : Config F) (sim : SimState) (permutes : KeepsAll e) where
    -- Sorting the session loses no flag.
    untried-sorted :
        (r : Trial F) (p' : Planner F) (s' : Store F)
        → untried
            (record r { session = e.sort_tasks cmp_task_dsc r.session; planner = p'; store = s' })
          ≡ 1
        → untried r ≡ 1
    unfolding untried
    untried-sorted r p' s' h = ground (arith, permutes cmp_task_dsc (is_flagged r.flags) r.session)

    again-untried :
        (r r' : Trial F)
        → trial_round e c sim r ≡ some (again r')
        → (untried r' ≡ 0) × (untried r ≡ 1)
    unfolding trial_round elastic_partitioning
    again-untried r r' h = by_models (add_models e c r.planner r.store sim sorted) refl
      where
        sorted : List (Task F)
        sorted = e.sort_tasks cmp_task_dsc r.session

        by_models :
            (o : Option (Exit × Planner F × Store F))
            → add_models e c r.planner r.store sim sorted ≡ o
            → (untried r' ≡ 0) × (untried r ≡ 1)
        by_models none q = ground (arith, q)
        by_models (some (failure, p', s')) q = ground (arith, q)
        by_models (some (success, p', s')) q =
            let r1 : Trial F = record r { session = sorted; planner = p'; store = s' } in
            let (clear, due) =
              retry_round-untried c sim (org_rates [] r.session) r1 r' (ground (arith, q)) in
            (clear, untried-sorted r p' s' due)

    -- If the sort of the session only permutes, the loop of `incremental_scheduling` ends within two
    -- rounds, with a result or an abort of the code that it calls, on whatever session, flags, tables and
    -- store it starts.
    pub trial_round-ends :
        (r : Trial F) → (o : Option (Exit × Trial F)) × (loop (trial_round e c sim) 2 r ≡ some o)
    trial_round-ends r =
        let (o, q, _) =
          loop_ends (λ r. Unit {0}) (λ a. Unit {0}) untried (trial_round e c sim)
            (λ r1 r2 _ h.
              let (clear, due) = again-untried r1 r2 h in (tt, omega (arith, clear, due)))
            (λ r1 a _ h. tt) 2 r (untried-lt r) tt in
        (o, q)
