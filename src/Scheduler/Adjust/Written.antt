-- ===== src/Scheduler/Adjust/Written.antt =====
-- What `adjustResNode` writes: the least duty cycle, and the batches.
use glet.Common.{
  ℕ, ◌*◌, ◌≡◌, refl, sym, ap, ◌∙◌, subst, inl, inr, true, false, some, List, [], ◌∷◌, arith, All,
  In, Among, IsDistinct, Bool-cases, Option-cases,
}
use glet.Common.Int.{pos}
use glet.Float.{Float, IsWeakOrder, not_lt_self}
use glet.Scheduler.State.{Task, SimState, Store, Config}
use glet.Scheduler.Latency.{get_latency_in}
use glet.Scheduler.Nodes.{set_task}
use glet.Scheduler.Adjust.{min_duty, write_batches}

module _ {F : Type 0} ⦃R : Float F⦄ where
  open R use {of_int, div, lt}

  abbrev pub duties : List (ℕ × F) → List F
  duties [] = []
  duties ((b, d) ∷ xs) = d ∷ duties xs

  -- One of the duty cycles that no other is below.
  abbrev pub IsLeastDuty : F → List (ℕ × F) → Type 0
  IsLeastDuty m xs = Among m (duties xs) × All (λ d. lt d m ≡ false) (duties xs)

  min_duty_below :
      (best : F) (b : ℕ) (d : F) (xs : List (ℕ × F))
      → lt d best ≡ true
      → min_duty best ((b, d) ∷ xs) ≡ min_duty d xs
  unfolding min_duty
  min_duty_below best b d xs h = rw h refl

  min_duty_kept :
      (best : F) (b : ℕ) (d : F) (xs : List (ℕ × F))
      → lt d best ≡ false
      → min_duty best ((b, d) ∷ xs) ≡ min_duty best xs
  unfolding min_duty
  min_duty_kept best b d xs h = rw h refl

  min_duty_nil : (best : F) → min_duty best [] ≡ best
  unfolding min_duty
  min_duty_nil best = refl

  pub min_duty-IsLeastDuty :
      (weak : IsWeakOrder F) (b : ℕ) (best : F) (xs : List (ℕ × F))
      → IsLeastDuty (min_duty best xs) ((b, best) ∷ xs)
  min_duty-IsLeastDuty weak b best [] =
      rw (min_duty_nil best) (inl refl, (not_lt_self weak best, tt))
  min_duty-IsLeastDuty weak b best ((k, d) ∷ xs) = elim (Bool-cases (lt d best)) [
    | inl below ↦
        subst (λ m. IsLeastDuty m ((b, best) ∷ (k, d) ∷ xs))
          (sym (min_duty_below best k d xs below))
          (let (found, (low, all)) = min_duty-IsLeastDuty weak k d xs in
            let first = weak.not_lt_trans best d (min_duty d xs) (weak.lt_asym d best below) low in
            (inr found, (first, (low, all))))
    | inr kept ↦
        subst (λ m. IsLeastDuty m ((b, best) ∷ (k, d) ∷ xs)) (sym (min_duty_kept best k d xs kept))
          (let (found, (low, all)) = min_duty-IsLeastDuty weak b best xs in
            let next = weak.not_lt_trans d best (min_duty best xs) kept low in
            (elim found [ inl e ↦ inl e | inr i ↦ inr (inr i) ], (low, (next, all))))
  ]

  -- A task with a batch, and the throughput of the batch at a duty cycle.
  abbrev pub rebatched : Task F → ℕ → F → Task F
  rebatched task b duty = record task {
    batch_size = b;
    throughput = div (of_int (pos (1000 * b))) duty;
  }

  -- Each task of the list has become the old one with its batch.
  abbrev pub AllWritten : (old new : ℕ → Task F) → F → List ℕ → List (ℕ × F) → Type 0
  AllWritten old new duty [] xs = Unit
  AllWritten old new duty (t ∷ ts) [] = ⊥
  AllWritten old new duty (t ∷ ts) ((b, d) ∷ xs) =
      (new t ≡ rebatched (old t) b duty) × AllWritten old new duty ts xs

  set_task_self : (s : Store F) (t : ℕ) (task : Task F) → (set_task s t task).tasks t ≡ task
  unfolding set_task
  set_task_self s t task = ground arith

  set_task_other :
      (s : Store F) (t u : ℕ) (task : Task F) → ¬ (t ≡ u) → (set_task s t task).tasks u ≡ s.tasks u
  unfolding set_task
  set_task_other s t u task apart = ground arith

  -- Tasks that are not on the list stay.
  write_batches_other :
      (c : Config F) (s s' : Store F) (n : ℕ) (sim : SimState) (duty sum sum' : F) (ts : List ℕ)
      (xs : List (ℕ × F))
      → write_batches c s n sim duty sum ts xs ≡ some (sum', s')
      → (u : ℕ) → ¬ In u ts
      → s'.tasks u ≡ s.tasks u
  unfolding write_batches
  write_batches_other c s s' n sim duty sum sum' [] xs e u out = ground arith
  write_batches_other c s s' n sim duty sum sum' (t ∷ ts) [] e u out = absurd (ground arith)
  write_batches_other c s s' n sim duty sum sum' (t ∷ ts) ((b, d) ∷ xs) e u out =
      let s1 = set_task s t (rebatched (s.tasks t) b duty) in
      elim (Option-cases
        (get_latency_in c s1 (s1.nodes n).type (s1.tasks t).id b (s1.nodes n) sim)) [
          | inl f ↦ absurd (ground arith)
          | inr (l, f) ↦
              write_batches_other c s1 s' n sim duty (R.add sum l) sum' ts xs (ground arith) u
                (λ i. out (inr i))
              ∙ set_task_other s t u (rebatched (s.tasks t) b duty) (λ same. out (inl same))
        ]

  write_batches-AllWritten :
      (old : ℕ → Task F) (c : Config F) (s s' : Store F) (n : ℕ) (sim : SimState)
      (duty sum sum' : F) (ts : List ℕ) (xs : List (ℕ × F))
      → ((u : ℕ) → In u ts → s.tasks u ≡ old u)
      → IsDistinct ts
      → write_batches c s n sim duty sum ts xs ≡ some (sum', s')
      → AllWritten old s'.tasks duty ts xs
  unfolding write_batches IsDistinct
  write_batches-AllWritten old c s s' n sim duty sum sum' [] xs same apart e = tt
  write_batches-AllWritten old c s s' n sim duty sum sum' (t ∷ ts) [] same apart e =
      absurd (ground arith)
  write_batches-AllWritten old c s s' n sim duty sum sum' (t ∷ ts) ((b, d) ∷ xs) same (out, apart)
        e =
      let task = rebatched (s.tasks t) b duty in
      let s1 = set_task s t task in
      elim (Option-cases
        (get_latency_in c s1 (s1.nodes n).type (s1.tasks t).id b (s1.nodes n) sim)) [
          | inl f ↦ absurd (ground arith)
          | inr (l, f) ↦
              let rest : write_batches c s1 n sim duty (R.add sum l) ts xs ≡ some (sum', s') =
                ground arith in
              (
                write_batches_other c s1 s' n sim duty (R.add sum l) sum' ts xs rest t out
                    ∙ set_task_self s t task
                    ∙ ap (λ (k : Task F). rebatched k b duty) (same t (inl refl)),
                write_batches-AllWritten old c s1 s' n sim duty (R.add sum l) sum' ts xs
                    (λ u i.
                      set_task_other s t u task (λ eq. out (subst (λ (k : ℕ). In k ts) (sym eq) i))
                      ∙ same u (inr i))
                    apart rest,
              )
        ]

  -- The node's duty cycle is the least of those that were found, its tasks have the batches, and other
  -- tasks are as before.
  abbrev pub IsShrunk : Store F → Store F → ℕ → List ℕ → List (ℕ × F) → Type 0
  IsShrunk s s' n ts xs =
      let duty = (s'.nodes n).duty_cycle in
      IsLeastDuty duty xs
      × AllWritten s.tasks s'.tasks duty ts xs
      × ((u : ℕ) → ¬ In u ts → s'.tasks u ≡ s.tasks u)

  pub write_batches-IsShrunk :
      (weak : IsWeakOrder F) (c : Config F) (s t s' : Store F) (n : ℕ) (sim : SimState)
      (sum sum' d : F) (b : ℕ) (ts : List ℕ) (xs : List (ℕ × F))
      → IsDistinct ts
      → write_batches c s n sim (min_duty d xs) sum ts ((b, d) ∷ xs) ≡ some (sum', t)
      → s'.tasks ≡ t.tasks
      → (s'.nodes n).duty_cycle ≡ min_duty d xs
      → IsShrunk s s' n ts ((b, d) ∷ xs)
  write_batches-IsShrunk weak c s t s' n sim sum sum' d b ts xs apart w tasks duty =
      let xs' = (b, d) ∷ xs in
      let written =
        write_batches-AllWritten s.tasks c s t n sim (min_duty d xs) sum sum' ts xs' (λ u i. refl)
          apart w in
      (
        subst (λ m. IsLeastDuty m xs') (sym duty) (min_duty-IsLeastDuty weak b d xs),
        subst (λ m. AllWritten s.tasks s'.tasks m ts xs') (sym duty)
            (subst (λ f. AllWritten s.tasks f (min_duty d xs) ts xs') (sym tasks) written),
        λ u out.
            ap (λ (f : ℕ → Task F). f u) tasks
            ∙ write_batches_other c s t n sim (min_duty d xs) sum sum' ts xs' w u out,
      )
