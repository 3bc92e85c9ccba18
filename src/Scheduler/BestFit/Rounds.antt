-- ===== src/Scheduler/BestFit/Rounds.antt =====
-- The rounds of `checkFit` for one candidate end: each flags one more node of the decision.
use glet.Common.{
  ℕ, zero, suc, ◌≤◌, ◌<◌, ◌≡◌, inl, inr, false, ◌||◌, Option, none, some, List, [], ◌∷◌, ◌++◌,
  arith, In, any, ◌==◌, Bool-cases, if◌then◌else◌, ltb, lookup_or, nat_key,
}
use glet.Float.{Float}
use glet.Scheduler.State.{Node, SimState, Store, Config}
use glet.Scheduler.BestFit.{find_best_fit, with_remain, fit_one}
use glet.Scheduler.BestFit.Closest.{find_best_fit-IsClosest}

-- How many nodes of the list are not flagged.
unfoldable pub unflagged : (flagged nodes : List ℕ) → ℕ
unflagged flagged [] = 0
unflagged flagged (n ∷ ns) =
    let rest = unflagged flagged ns in if any (λ m. m == n) flagged then rest else suc rest

any-append :
    (fl : List ℕ) (n x : ℕ) → any (λ m. m == x) (fl ++ n ∷ []) ≡ any (λ m. m == x) fl || (n == x)
unfolding any
any-append [] n x = ground arith
any-append (y ∷ fl) n x = ground (arith, any-append fl n x)

unflagged-le : (fl : List ℕ) (n : ℕ) (xs : List ℕ) → unflagged (fl ++ n ∷ []) xs ≤ unflagged fl xs
unfolding unflagged
unflagged-le fl n [] = omega arith
unflagged-le fl n (x ∷ xs) = ground (arith, any-append fl n x, unflagged-le fl n xs)

unflagged-lt :
    (fl : List ℕ) (n : ℕ) (xs : List ℕ)
    → In n xs
    → any (λ m. m == n) fl ≡ false
    → unflagged (fl ++ n ∷ []) xs < unflagged fl xs
unfolding unflagged
unflagged-lt fl n [] here e = elim here [ ]
unflagged-lt fl n (x ∷ xs) (inl same) e =
    let e' : any (λ m. m == x) fl ≡ false = rw same e in
    ground (arith, any-append fl n x, unflagged-le fl n xs, same)
unflagged-lt fl n (x ∷ xs) (inr i) e = ground (arith, any-append fl n x, unflagged-lt fl n xs i e)

In-append_left : (n : ℕ) (xs ys : List ℕ) → In n xs → In n (xs ++ ys)
In-append_left n [] ys here = elim here [ ]
In-append_left n (x ∷ xs) ys (inl e) = inl e
In-append_left n (x ∷ xs) ys (inr i) = inr (In-append_left n xs ys i)

In-append_right : (n : ℕ) (xs ys : List ℕ) → In n ys → In n (xs ++ ys)
In-append_right n [] ys i = i
In-append_right n (x ∷ xs) ys i = inr (In-append_right n xs ys i)

module _ {F : Type 0} where
  -- The nodes of all listed GPUs.
  unfoldable pub all_nodes : Store F → List ℕ → List ℕ
  all_nodes s [] = []
  all_nodes s (g ∷ gs) = (s.gpus g).node_list ++ all_nodes s gs

  In-all_nodes :
      (s : Store F) (gs : List ℕ) (g n : ℕ)
      → In g gs
      → In n (s.gpus g).node_list
      → In n (all_nodes s gs)
  unfolding all_nodes
  In-all_nodes s [] g n here i = elim here [ ]
  In-all_nodes s (h ∷ gs) g n (inl same) i =
      In-append_left n (s.gpus h).node_list (all_nodes s gs) (rw same i)
  In-all_nodes s (h ∷ gs) g n (inr j) i =
      In-append_right n (s.gpus h).node_list (all_nodes s gs) (In-all_nodes s gs g n j i)

module _ {F : Type 0} ⦃R : Float F⦄ (c : Config F) (s : Store F) (sim : SimState)
    (input : Node F) where
  found_unflagged :
      (fl : List ℕ) (n : ℕ)
      → find_best_fit c s sim input fl ≡ some (some n)
      → unflagged (fl ++ n ∷ []) (all_nodes s sim.gpu_list)
        < unflagged fl (all_nodes s sim.gpu_list)
  found_unflagged fl n e =
      let (closest, g, i, same, j, usable) = find_best_fit-IsClosest c s sim input fl n e in
      unflagged-lt fl n (all_nodes s sim.gpu_list) (In-all_nodes s sim.gpu_list g n i j) usable.2

  -- If `find_best_fit` never aborts, the rounds of `fit_one` end with a result on any fuel above the number of nodes of the decision that are not flagged.
  pub fit_one-ends :
      (fuel : ℕ) (flagged : List ℕ) (remain : List (ℕ × ℕ))
      → ((fl : List ℕ) → (r : Option ℕ) × (find_best_fit c s sim input fl ≡ some r))
      → unflagged flagged (all_nodes s sim.gpu_list) < fuel
      → (r : Option (ℕ × List ℕ × List (ℕ × ℕ))) × (fit_one fuel c s sim input flagged remain
          ≡ some r)
  unfolding fit_one
  fit_one-ends zero fl remain total enough = absurd (omega arith)
  fit_one-ends (suc fuel) fl remain total enough =
      by_found (total fl)
        (λ n e r. fit_one-ends fuel (fl ++ n ∷ []) r total (omega (arith, found_unflagged fl n e)))
    where
      by_found :
          ((r : Option ℕ) × (find_best_fit c s sim input fl ≡ some r))
          → ((n : ℕ)
              → find_best_fit c s sim input fl ≡ some (some n)
              → (remain' : List (ℕ × ℕ))
              → (r : Option (ℕ × List ℕ × List (ℕ × ℕ))) × (fit_one fuel c s sim input
                    (fl ++ n ∷ [])
                    remain'
                  ≡ some r))
          → (r : Option (ℕ × List ℕ × List (ℕ × ℕ))) × (fit_one (suc fuel) c s sim input fl remain
              ≡ some r)
      by_found (none, e) next = (none, ground arith)
      by_found (some n, e) next =
          let remain' = with_remain s n remain in
          let (r, f) = next n e remain' in
          elim (Bool-cases (ltb (lookup_or 0 n remain') input.resource_pntg)) [
            | inl small_rest ↦ (r, ground arith)
            | inr large_rest ↦ (some (n, fl, remain'), ground arith)
          ]
