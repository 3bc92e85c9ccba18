-- ===== src/Scheduler/Estimate/ReturnPart.antt =====
-- The part that `getMaxReturnPart` chooses.
use glet.Common.{
  ℕ, ◌≡◌, refl, sym, ◌⊎◌, inl, inr, some, List, [], ◌∷◌, String, arith, In, Option-cases,
}
use glet.Float.{Float}
use glet.Scheduler.State.{Config}
use glet.Scheduler.Estimate.{
  SatTrpEntry, per_part_trp, return_round, return_loop, get_max_return_part,
}

In-eq : (x y : ℕ) (xs : List ℕ) → x ≡ y → In y xs → In x xs
In-eq x y xs e i = rw e i

module _ {F : Type 0} ⦃R : Float F⦄ where
  return_round_cases :
      (trps : List (ℕ × F)) (high low : ℕ) (best : F × ℕ)
      → ((return_round trps high low best).1 ≡ high)
        ⊎ ((return_round trps high low best).1 ≡ best.1)
  unfolding return_round
  return_round_cases trps high low (ret, part) = ground arith

  return_loop-In :
      (trps : List (ℕ × F)) (part : ℕ) (parts : List ℕ)
      → In (return_loop trps part parts).1 (part ∷ parts)
  unfolding return_loop
  return_loop-In trps part [] = inl refl
  return_loop-In trps part (low ∷ parts) =
      elim (return_round_cases trps part low (return_loop trps low parts)) [
        | inl e ↦ inl (ground (arith, e))
        | inr e ↦ inr (In-eq _ _ (low ∷ parts) e (return_loop-In trps low parts))
      ]

  -- With two parts or more, the part that `get_max_return_part` chooses stands in the list behind
  -- the first one.
  pub get_max_return_part-In :
      (c : Config F) (table : List (SatTrpEntry F)) (device : String) (first second part : ℕ)
      (rest : List ℕ)
      → c.avail_parts ≡ first ∷ second ∷ rest
      → get_max_return_part c table device ≡ some part
      → In part (second ∷ rest)
  unfolding get_max_return_part
  get_max_return_part-In c table device first second part rest parts e =
      elim (Option-cases (per_part_trp table device (first ∷ second ∷ rest) [])) [
        | inl f ↦ absurd (ground arith)
        | inr (trps, f) ↦
            let chosen : (return_loop trps second rest).1 ≡ part = ground arith in
            In-eq _ _ (second ∷ rest) (sym chosen) (return_loop-In trps second rest)
      ]
