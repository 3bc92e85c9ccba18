-- ===== src/Scheduler/TimeShare/Ends.antt =====
-- The rounds of `allocateTimeShare` end: each gives the task to one more of the candidates.
use glet.Common.{
  ℕ, suc, ◌<◌, ◌≡◌, refl, subst, ◌⊎◌, inl, inr, true, false, Option, none, some, List, [], ◌∷◌,
  arith, In, All, length, Bool-cases,
}
use glet.Common.Int.{ℤ}
use glet.Common.Loops.{ends, again, loop, Ends, Ends-bind, Ends-imp, Ends-some, loop_ends}
use glet.Float.{Float}
use glet.Scheduler.State.{SimState, Store, Config, Exit, success, failure}
use glet.Scheduler.TimeShare.{
  SortNodes, check_contain, share, shared_batch, share_first, wants_more, time_share_round,
  candidates, allocate_time_share,
}
use glet.Scheduler.TimeShare.Takes.{
  Takes, without_model, without_model-le_length, without_model-lt, share-Takes,
}

module _ {F : Type 0} ⦃R : Float F⦄ where
  -- The loop over the candidates: it declines them all, or gives the task to one that did not have it.
  abbrev IsFirst : Config F → Store F → SimState → ℕ → List ℕ → Option (Store F) → Type 0
  IsFirst c s sim t ns none = All (λ n. shared_batch c s sim t n ≡ some none) ns
  IsFirst c s sim t ns (some s') =
      (n : ℕ) × In n ns
      × (check_contain s (s.tasks t).id (s.nodes n) ≡ false)
      × Takes (s.tasks t).id s n s'

  IsFirst-cons :
      (c : Config F) (s : Store F) (sim : SimState) (t n : ℕ) (ns : List ℕ)
      → shared_batch c s sim t n ≡ some none
      → (o : Option (Store F)) → IsFirst c s sim t ns o
      → IsFirst c s sim t (n ∷ ns) o
  IsFirst-cons c s sim t n ns e none h = (e, h)
  IsFirst-cons c s sim t n ns e (some s') (m, i, lacks, takes) = (m, inr i, lacks, takes)

  shared_batch-lacks :
      (c : Config F) (s : Store F) (sim : SimState) (t n : ℕ) (p : ℕ × ℤ)
      → shared_batch c s sim t n ≡ some (some p)
      → check_contain s (s.tasks t).id (s.nodes n) ≡ false
  unfolding shared_batch
  shared_batch-lacks c s sim t n p h =
      elim (Bool-cases (check_contain s (s.tasks t).id (s.nodes n))) [
        | inl has ↦ ground (arith, has)
        | inr lacks ↦ lacks
      ]

  share_first-IsFirst :
      (c : Config F) (s : Store F) (sim : SimState) (t : ℕ) (ns : List ℕ)
      → Ends (IsFirst c s sim t ns) (share_first c s sim t ns)
  unfolding share_first
  share_first-IsFirst c s sim t [] = tt
  share_first-IsFirst c s sim t (n ∷ ns) =
      by_batch (shared_batch c s sim t n) refl (share_first-IsFirst c s sim t ns)
    where
      by_batch :
          (o : Option (Option (ℕ × ℤ)))
          → shared_batch c s sim t n ≡ o
          → Ends (IsFirst c s sim t ns) (share_first c s sim t ns)
          → Ends (IsFirst c s sim t (n ∷ ns)) (share_first c s sim t (n ∷ ns))
      by_batch none e ih = rw (e, share_first) tt
      by_batch (some none) e ih =
          rw (e, share_first)
            (Ends-imp (IsFirst c s sim t ns) (IsFirst c s sim t (n ∷ ns)) (share_first c s sim t ns)
              (IsFirst-cons c s sim t n ns e) ih)
      by_batch (some (some (batch, duty))) e ih =
          rw (e, share_first)
            (Ends-bind (IsFirst c s sim t (n ∷ ns)) (share c s sim t n batch duty) _ (λ s' e'. (
              n,
              inl refl,
              shared_batch-lacks c s sim t n (batch, duty) e,
              Ends-some (Takes (s.tasks t).id s n) _ s' e' (share-Takes c s sim t n batch duty),
            )))

module _ {F : Type 0} ⦃R : Float F⦄ (c : Config F) (sim : SimState) (t : ℕ) (nodes : List ℕ) where
  -- The result of the loop. With success, no more of the rate is left than the slack; with failure, more is left and every
  -- candidate declines the task.
  abbrev pub IsShared : Exit × Store F → Type 0
  IsShared (success, s) = wants_more (s.tasks t) ≡ false
  IsShared (failure, s) =
      (wants_more (s.tasks t) ≡ true) × All (λ n. shared_batch c s sim t n ≡ some none) nodes

  left_over : Store F → ℕ
  left_over s = without_model s (s.tasks t).id nodes

  again-lt :
      (s s' : Store F)
      → time_share_round c sim t nodes s ≡ some (again s')
      → left_over s' < left_over s
  unfolding time_share_round left_over
  again-lt s s' h =
      by_first (share_first c s sim t nodes) refl (share_first-IsFirst c s sim t nodes)
    where
      by_first :
          (o : Option (Option (Store F)))
          → share_first c s sim t nodes ≡ o
          → Ends (IsFirst c s sim t nodes) o
          → left_over s' < left_over s
      by_first none e p = ground (arith, e)
      by_first (some none) e p = ground (arith, e)
      by_first (some (some s1)) e (n, i, lacks, (ids, more, new)) =
          let m = (s.tasks t).id in
          let same : s1 ≡ s' = ground (arith, e) in
          let id : (s'.tasks t).id ≡ m = rw (← same) (ids t refl) in
          rw id (rw (← same) (without_model-lt m s s1 n nodes more i lacks new))

  ends-IsShared :
      (s : Store F) (a : Exit × Store F)
      → time_share_round c sim t nodes s ≡ some (ends a)
      → IsShared a
  unfolding time_share_round
  ends-IsShared s a h =
      by_first (Bool-cases (wants_more (s.tasks t))) (share_first c s sim t nodes) refl
        (share_first-IsFirst c s sim t nodes)
    where
      by_first :
          (wants_more (s.tasks t) ≡ true) ⊎ (wants_more (s.tasks t) ≡ false)
          → (o : Option (Option (Store F))) → share_first c s sim t nodes ≡ o
          → Ends (IsFirst c s sim t nodes) o
          → IsShared a
      by_first (inr done) o e p =
          let same : (success, s) ≡ a = ground (arith, done) in subst IsShared same done
      by_first (inl more) none e p = ground (arith, e, more)
      by_first (inl more) (some none) e p =
          let same : (failure, s) ≡ a = ground (arith, e, more) in subst IsShared same (more, p)
      by_first (inl more) (some (some s1)) e p = ground (arith, e, more)

  time_share_round-Ends :
      (fuel : ℕ) (s : Store F)
      → left_over s < fuel
      → (o : Option (Exit × Store F)) × (loop (time_share_round c sim t nodes) fuel s ≡ some o)
        × Ends IsShared o
  time_share_round-Ends fuel s enough =
      loop_ends (λ s. Unit {0}) IsShared left_over (time_share_round c sim t nodes)
        (λ s1 s2 _ h. (tt, again-lt s1 s2 h)) (λ s1 a _ h. ends-IsShared s1 a h) fuel s enough tt

  left_over-lt : (s : Store F) → left_over s < suc (length nodes)
  unfolding left_over
  left_over-lt s = omega (arith, without_model-le_length s (s.tasks t).id nodes)

module _ {F : Type 0} ⦃R : Float F⦄ where
  -- Where the candidates of `allocateTimeShare` can be found, its loop ends within one round more than
  -- there are candidates, with an abort or with its result: success with no more of the rate left than
  -- the slack, or failure with more left and every candidate declining the task.
  pub allocate_time_share-Ends :
      (sort : SortNodes) (c : Config F) (s : Store F) (sim : SimState) (t : ℕ) (ts_nodes : List ℕ)
      (found : List ℕ)
      → candidates c s (s.tasks t).id ts_nodes sim.gpu_list ≡ some found
      → let nodes = sort (λ a b. R.lt (s.nodes b).occupancy (s.nodes a).occupancy) found in
        (o : Option (Exit × Store F)) × (loop
            (time_share_round c sim t nodes)
            (suc (length nodes))
            s
          ≡ some o)
        × (allocate_time_share sort c s sim t ts_nodes ≡ o)
        × Ends (IsShared c sim t nodes) o
  unfolding allocate_time_share
  allocate_time_share-Ends sort c s sim t ts_nodes found e =
      let nodes = sort (λ a b. R.lt (s.nodes b).occupancy (s.nodes a).occupancy) found in
      let (o, q, p) =
        time_share_round-Ends c sim t nodes (suc (length nodes)) s (left_over-lt c sim t nodes s) in
      (o, q, rw e (rw q), p)
