-- ===== src/Service/Tuning/Cut.antt =====
-- `AllocateMinMaxFair` ends: each part that a demand is cut into is at least 1.
use glet.Common.{
  ℕ, zero, suc, ◌+◌, ◌≤◌, ◌≡◌, refl, ap, inl, inr, false, Option, none, some, List, [], ◌∷◌, arith,
  leb, if◌then◌else◌, length, insert, nat_key, sum, All, is_empty, ◌==◌, ◌*◌, In,
}
use glet.Common.Int.{ℤ, pos, negsuc, pos_part, ◌-ℤ◌, ◌/ℤ◌, ltb_ℤ}
use glet.Common.Loops.{if_both}
use glet.Service.Tuning.{
  next_from, get_next_largest_part, cut, cut_fairly, allocate_fairly, allocate_min_max_fair,
}
use glet.Scheduler.Choose.{insert_asc, sort_asc}

module _ {κ} (P : ℕ → Type κ) where
  next_from-All : (part last : ℕ) (ps : List ℕ) → P last → All P ps → P (next_from part last ps)
  unfolding next_from
  next_from-All part last [] h _ = h
  next_from-All part last (p ∷ ps) _ (h, hs) =
      if_both P (leb part p) _ _ h (next_from-All part p ps h hs)

  insert_asc-All : (p : ℕ) (ps : List ℕ) → P p → All P ps → All P (insert_asc p ps)
  unfolding insert_asc
  insert_asc-All p [] h _ = (h, tt)
  insert_asc-All p (q ∷ qs) h (k, ks) =
      if_both (All P) (leb p q) _ _ (h, (k, ks)) (k, insert_asc-All p qs h ks)

  sort_asc-All : (ps : List ℕ) → All P ps → All P (sort_asc ps)
  unfolding sort_asc
  sort_asc-All [] _ = tt
  sort_asc-All (p ∷ ps) (h, hs) = insert_asc-All p (sort_asc ps) h (sort_asc-All ps hs)

-- What the parts of a demand are: available, and enough for it.
abbrev pub IsCut : List ℕ → ℕ → List ℕ → Type 0
IsCut avail demand parts = All (λ p. (1 ≤ p) × In p avail) parts × (demand ≤ sum parts)

-- A part to choose: available, and not 0.
abbrev pub IsChoice : List ℕ → ℕ → Type 0
IsChoice avail p = (1 ≤ p) × In p avail

rest-le : (n p fuel : ℕ) → 1 ≤ p → n ≤ fuel → pos_part (pos (suc n) -ℤ pos p) ≤ fuel
unfolding ◌-ℤ◌
rest-le n p fuel h k = ground arith

rest_covered : (n p x : ℕ) → pos_part (pos (suc n) -ℤ pos p) ≤ x → suc n ≤ p + x
unfolding ◌-ℤ◌
rest_covered n p x h = ground arith

-- One part more.
cut-cons :
    (fuel n p : ℕ) (ps parts : List ℕ)
    → cut fuel (p ∷ ps) (pos (suc n) -ℤ pos (next_from (suc n) p (p ∷ ps))) ≡ some parts
    → cut (suc fuel) (p ∷ ps) (pos (suc n)) ≡ some (next_from (suc n) p (p ∷ ps) ∷ parts)
unfolding cut get_next_largest_part
cut-cons fuel n p ps parts h =
    ap
      (λ (o : Option (List ℕ)). elim o [
        | none ↦ none
        | some parts ↦ some (next_from (suc n) p (p ∷ ps) ∷ parts)
      ])
      h

cut-IsCut :
    (avail choice : List ℕ)
    → is_empty choice ≡ false
    → All (IsChoice avail) choice
    → (fuel : ℕ) (demand : ℤ) → pos_part demand ≤ fuel
    → (parts : List ℕ) × (cut fuel choice demand ≡ some parts) × IsCut avail (pos_part demand) parts
unfolding cut
cut-IsCut avail choice some_part h zero (negsuc n) k = ([], refl, (tt, omega arith))
cut-IsCut avail choice some_part h (suc fuel) (negsuc n) k = ([], refl, (tt, omega arith))
cut-IsCut avail choice some_part h zero (pos zero) k = ([], refl, (tt, omega arith))
cut-IsCut avail choice some_part h (suc fuel) (pos zero) k = ([], refl, (tt, omega arith))
cut-IsCut avail choice some_part h zero (pos (suc n)) k = absurd (omega (arith, k))
cut-IsCut avail [] some_part h (suc fuel) (pos (suc n)) k = absurd (ground (arith, some_part))
cut-IsCut avail (p ∷ ps) some_part h (suc fuel) (pos (suc n)) k =
    let part = next_from (suc n) p (p ∷ ps) in
    let chosen = next_from-All (IsChoice avail) (suc n) p (p ∷ ps) h.0 h in
    let (parts, e, (all, enough)) =
      cut-IsCut avail (p ∷ ps) some_part h fuel (pos (suc n) -ℤ pos part)
        (rest-le n part fuel chosen.0 (omega (arith, k))) in
    (
      part ∷ parts,
      cut-cons fuel n p ps parts e,
      ((chosen, all), rest_covered n part (sum parts) enough),
    )

-- The parts that the models are given.
abbrev pub IsAllocation : List ℕ → List (ℕ × List ℕ) → Type 0
IsAllocation avail result = All (λ r. All (IsChoice avail) r.1) result

insert-IsAllocation :
    (avail : List ℕ) (id : ℕ) (parts : List ℕ) (result : List (ℕ × List ℕ))
    → All (IsChoice avail) parts
    → IsAllocation avail result
    → IsAllocation avail (insert id parts result)
unfolding insert
insert-IsAllocation avail id parts [] h _ = (h, tt)
insert-IsAllocation avail id parts ((j, ps) ∷ result) h (k, ks) =
    if_both (IsAllocation avail) (j == id) _ _ (h, ks)
      (k, insert-IsAllocation avail id parts result h ks)

module _ (avail choice : List ℕ) (some_part : is_empty choice ≡ false)
    (available : All (IsChoice avail) choice) where
  cut_fairly-All :
      (avg : ℤ) (original : ℕ)
      → (parts : List ℕ) × (cut_fairly choice avg original ≡ some parts)
        × All (IsChoice avail) parts
  unfolding cut_fairly
  cut_fairly-All avg original =
      let demand = if ltb_ℤ avg (pos original) then avg else pos original in
      let (parts, e, (all, enough)) =
        cut-IsCut avail choice some_part available (pos_part demand) demand (omega arith) in
      (parts, e, all)

  allocate_fairly-IsAllocation :
      (total avg : ℤ) (models : List (ℕ × ℕ)) (result : List (ℕ × List ℕ)) (demands : List (ℕ × ℕ))
      → IsAllocation avail result
      → (r : List (ℕ × List ℕ) × List (ℕ × ℕ)) × (allocate_fairly choice total avg models result
            demands
          ≡ some r)
        × IsAllocation avail r.0
  unfolding allocate_fairly
  allocate_fairly-IsAllocation total avg [] result demands h = ((result, demands), refl, h)
  allocate_fairly-IsAllocation total avg ((id, original) ∷ models) result demands h =
      let (parts, e, all) = cut_fairly-All avg original in
      let left = total -ℤ pos (sum parts) in
      let (r, e', rest) =
        allocate_fairly-IsAllocation left
          (if is_empty models then avg else left /ℤ pos (length models)) models
          (insert id parts result) (insert id (sum parts) demands)
          (insert-IsAllocation avail id parts result all h) in
      (r, rw (e, allocate_fairly) e', rest)

insert_asc_occupied : (p : ℕ) (ps : List ℕ) → is_empty (insert_asc p ps) ≡ false
unfolding insert_asc
insert_asc_occupied p [] = refl
insert_asc_occupied p (q ∷ qs) = ground arith

choices :
    (avail ps : List ℕ)
    → ((p : ℕ) → In p ps → In p avail)
    → All (λ p. 1 ≤ p) ps
    → All (IsChoice avail) ps
choices avail [] _ _ = tt
choices avail (p ∷ ps) h (k, ks) = ((k, h p (inl refl)), choices avail ps (λ q i. h q (inr i)) ks)

-- If there is a model and an available part, and no available part is 0, then AllocateMinMaxFair ends,
-- however the models are sorted, and gives every model available parts only.
pub allocate_min_max_fair-IsAllocation :
    (num_of_gpu : ℕ) (sort : List (ℕ × ℕ) → List (ℕ × ℕ)) (model : ℕ × ℕ) (models : List (ℕ × ℕ))
    (part : ℕ) (parts : List ℕ)
    → All (λ p. 1 ≤ p) (part ∷ parts)
    → (r : List (ℕ × List ℕ) × List (ℕ × ℕ)) × (allocate_min_max_fair num_of_gpu sort
          (model ∷ models)
          (part ∷ parts)
        ≡ some r)
      × IsAllocation (part ∷ parts) r.0
unfolding allocate_min_max_fair sort_asc
allocate_min_max_fair-IsAllocation num_of_gpu sort model models part parts h =
    let avail = part ∷ parts in
    let total = pos (num_of_gpu * 100) in
    allocate_fairly-IsAllocation avail (sort_asc avail) (insert_asc_occupied part (sort_asc parts))
      (sort_asc-All (IsChoice avail) avail (choices avail avail (λ p i. i) h)) total
      (total /ℤ pos (length (model ∷ models))) (sort (model ∷ models)) [] (model ∷ models) tt
