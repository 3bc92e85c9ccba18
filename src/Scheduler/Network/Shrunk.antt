-- ===== src/Scheduler/Network/Shrunk.antt =====
-- The batch that `adjustBatchSizetoNetBW` chooses.
use glet.Common.{
  ℕ, zero, suc, ◌≤◌, ◌<◌, ◌≡◌, refl, ◌⊎◌, inl, inr, Bool, true, false, Option, none, some, List,
  arith, Bool-cases, ◌==◌, ◌||◌, subst, if◌then◌else◌,
}
use glet.Float.{Float}
use glet.Scheduler.State.{Gpu, Store, Exit, success, failure}
use glet.Scheduler.Nodes.{set_task}
use glet.Scheduler.Network.{
  largest_batch, remain_bw, needs, scaled, adjusted, adjust_batch_size_to_net_bw,
}

-- The largest number from 1 to n that passes, or none if none does.
abbrev pub IsLargest : (ℕ → Bool) → ℕ → Option ℕ → Type 0
IsLargest ok n none = (j : ℕ) → 1 ≤ j → j ≤ n → ok j ≡ false
IsLargest ok n (some i) =
    (1 ≤ i) × (i ≤ n) × (ok i ≡ true) × ((j : ℕ) → i < j → j ≤ n → ok j ≡ false)

larger :
    (ok : ℕ → Bool) (n : ℕ) (r : Option ℕ)
    → ok (suc n) ≡ false
    → IsLargest ok n r
    → IsLargest ok (suc n) r
larger ok n none e h = λ j a b. elim (Bool-cases (j == suc n)) [
  | inl same ↦ ground arith
  | inr other ↦ h j a (ground arith)
]
larger ok n (some i) e (a, b, c, h) = (
  a,
  omega arith,
  c,
  λ j k l. elim (Bool-cases (j == suc n)) [
    | inl same ↦ ground arith
    | inr other ↦ h j k (ground arith)
  ],
)

largest_batch-IsLargest : (ok : ℕ → Bool) (n : ℕ) → IsLargest ok n (largest_batch ok n)
unfolding largest_batch
largest_batch-IsLargest ok zero = λ j a b. absurd (omega arith)
largest_batch-IsLargest ok (suc n) = by_test (ok (suc n)) refl (largest_batch-IsLargest ok n)
  where
    by_test :
        (b : Bool)
        → ok (suc n) ≡ b
        → IsLargest ok n (largest_batch ok n)
        → IsLargest ok (suc n) (if b then some (suc n) else largest_batch ok n)
    by_test true e h = (omega arith, omega arith, e, λ j a b. absurd (omega arith))
    by_test false e h = larger ok n (largest_batch ok n) e h

module _ {F : Type 0} ⦃R : Float F⦄ where
  open R use {lit, eq, le}

  -- The outcome of the search for a batch, as the result and the new store.
  abbrev pub IsAdjusted : Store F → List (ℕ × ℕ) → ℕ → Gpu → Exit × Store F → Type 0
  IsAdjusted s bytes t gpu (success, s') =
      (i : ℕ) × IsLargest (λ j. le (needs bytes (s.tasks t) j) (remain_bw s bytes gpu))
        (s.tasks t).batch_size (some i)
      × (s'
          ≡ set_task s t (record (s.tasks t) { batch_size = i; throughput = scaled (s.tasks t) i }))
  IsAdjusted s bytes t gpu (failure, s') =
      ((eq (remain_bw s bytes gpu) (lit 0 0) ≡ true)
        ⊎ IsLargest (λ j. le (needs bytes (s.tasks t) j) (remain_bw s bytes gpu))
            (s.tasks t).batch_size none)
      × (s' ≡ s)

  adjusted-IsAdjusted :
      (s : Store F) (bytes : List (ℕ × ℕ)) (t : ℕ) (gpu : Gpu) (found : Option ℕ)
      → IsLargest
          (λ j. le (needs bytes (s.tasks t) j) (remain_bw s bytes gpu))
          (s.tasks t).batch_size
          found
      → IsAdjusted s bytes t gpu (adjusted s t found)
  unfolding adjusted
  adjusted-IsAdjusted s bytes t gpu none h = (inr h, refl)
  adjusted-IsAdjusted s bytes t gpu (some i) h = (i, h, refl)

  -- Where `adjust_batch_size_to_net_bw` ends, it has either set the task to the largest batch, at most
  -- the old one, whose share of the throughput needs no more than the bandwidth that remains, or it fails
  -- with nothing changed, because no bandwidth remains or no batch needs that little.
  pub adjust_batch_size_to_net_bw-IsAdjusted :
      (s : Store F) (bytes : List (ℕ × ℕ)) (t : ℕ) (gpu : Gpu) (r : Exit × Store F)
      → adjust_batch_size_to_net_bw s bytes t gpu ≡ some r
      → IsAdjusted s bytes t gpu r
  unfolding adjust_batch_size_to_net_bw
  adjust_batch_size_to_net_bw-IsAdjusted s bytes t gpu r e =
      elim (Bool-cases (eq (remain_bw s bytes gpu) (lit 0 0))) [
        | inl f ↦
            (let same : (failure, s) ≡ r = ground arith in
              subst (IsAdjusted s bytes t gpu) same (inl f, refl))
        | inr f ↦
            elim (Bool-cases ((s.tasks t).batch_size == 0 || eq (s.tasks t).throughput (lit 0 0))) [
              | inl g ↦ absurd (ground arith)
              | inr g ↦
                  let same : adjusted s t (largest_batch ok (s.tasks t).batch_size) ≡ r =
                    ground arith in
                  subst (IsAdjusted s bytes t gpu) same (
                    adjusted-IsAdjusted s bytes t gpu (largest_batch ok (s.tasks t).batch_size)
                      (largest_batch-IsLargest ok (s.tasks t).batch_size))
            ]
      ]
    where
      ok : ℕ → Bool
      ok j = le (needs bytes (s.tasks t) j) (remain_bw s bytes gpu)
