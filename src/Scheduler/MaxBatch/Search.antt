-- ===== src/Scheduler/MaxBatch/Search.antt =====
-- What the binary search of `getMaxBatch` finds.
use glet.Common.{
  ℕ, zero, suc, ◌+◌, ◌-◌, ◌≤◌, ◌<◌, ◌≡◌, refl, ap, ◌⊎◌, inl, inr, Bool, true, false, Option, none,
  some, arith, ◌/◌,
}
use glet.Scheduler.MaxBatch.{Round, done, next, close_round, search_round, search}

-- The largest batch up to 31 at which the test passes, given that it passes up to some batch; 0 if it
-- fails at 1.
abbrev pub IsLast : (ℕ → Bool) → ℕ → Type 0
IsLast p r =
    ((r ≡ 0) × (p 1 ≡ false))
    ⊎ ((1 ≤ r) × (r ≤ 31) × (p r ≡ true) × ((r ≡ 31) ⊎ (p (suc r) ≡ false)))

-- Between two rounds the search is about to test batch 1 alone, or has a gap of two or more.
abbrev IsBracket : (ℕ → Bool) → ℕ → ℕ → Type 0
IsBracket p low high =
    ((low ≡ 1) × (high ≡ 1) × (p 2 ≡ false))
    ⊎ ((1 ≤ low)
        × (low + 2 ≤ high)
        × (high ≤ 32)
        × ((low ≡ 1) ⊎ (p low ≡ true))
        × ((high ≡ 32) ⊎ (p high ≡ false)))

-- After a round the search has ended well, or the gap is smaller.
abbrev IsProgress : (ℕ → Bool) → ℕ → Option Round → Type 0
IsProgress p gap none = ⊥
IsProgress p gap (some (done r)) = IsLast p r
IsProgress p gap (some (next low high last)) =
    IsBracket p low high × (last ≡ false) × (high - low < gap)

Progress-cases :
    (p : ℕ → Bool) (gap : ℕ) (o : Option Round)
    → IsProgress p gap o
    → ((r : ℕ) × (o ≡ some (done r)) × IsLast p r)
      ⊎ ((low high : ℕ) × (o ≡ some (next low high false))
          × IsBracket p low high
          × (high - low < gap))
Progress-cases p gap none i = absurd i
Progress-cases p gap (some (done r)) i = inl (r, refl, i)
Progress-cases p gap (some (next low high last)) (b, e, g) =
    inr (low, high, ap (λ l. some (next low high l)) e, b, g)

module _ (fits : ℕ → Option Bool) (p : ℕ → Bool)
    (total : (b : ℕ) → 1 ≤ b → b ≤ 32 → fits b ≡ some (p b)) where
  last_round : p 2 ≡ false → IsProgress p 0 (search_round fits 1 1 false)
  unfolding search_round close_round
  last_round h = ground (arith, total 1)

  inner_round :
      (low high : ℕ)
      → 1 ≤ low
      → low + 2 ≤ high
      → high ≤ 32
      → (low ≡ 1) ⊎ (p low ≡ true)
      → (high ≡ 32) ⊎ (p high ≡ false)
      → IsProgress p (high - low) (search_round fits low high false)
  unfolding search_round close_round
  inner_round low high a b c d e = ground (arith, total ((high + low) / 2))

  bracket_round :
      (low high : ℕ)
      → IsBracket p low high
      → IsProgress p (high - low) (search_round fits low high false)
  bracket_round low high (inl (a, c, d)) = rw (a, c) (last_round d)
  bracket_round low high (inr (a, c, d, e, f)) = inner_round low high a c d e f

  -- With more fuel than the gap the search ends.
  search-IsLast :
      (fuel low high : ℕ)
      → high - low < fuel
      → IsBracket p low high
      → (r : ℕ) × (search fuel fits low high false ≡ some r) × IsLast p r
  unfolding search
  search-IsLast zero low high h b = elim h [ ]
  search-IsLast (suc fuel) low high h b =
      elim (Progress-cases p (high - low) _ (bracket_round low high b)) [
        | inl (r, e, l) ↦ (r, rw (e, search) refl, l)
        | inr (low', high', e, b', g) ↦
            let (r, found, l) = search-IsLast fuel low' high' (omega arith) b' in
            (r, rw (e, search) found, l)
      ]

  pub search_from_start : (r : ℕ) × (search 33 fits 1 32 false ≡ some r) × IsLast p r
  search_from_start =
      search-IsLast 33 1 32 (omega arith)
        (inr (omega arith, omega arith, omega arith, inl refl, inl refl))
