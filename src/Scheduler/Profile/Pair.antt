-- ===== src/Scheduler/Profile/Pair.antt =====
-- The two profiled batches that `findBatchpair` interpolates between.
use glet.Common.{
  ℕ, zero, suc, ◌+◌, ◌≤◌, ◌<◌, ◌≡◌, inl, inr, Bool, true, false, some, List, [], ◌∷◌, arith, any,
  Bool-cases, ◌==◌, sum, ==→eq, ap,
}
use glet.Scheduler.Profile.{find_lower, find_upper, find_batch_pair}

-- Whether the batch was profiled.
abbrev pub is_profiled : List ℕ → ℕ → Bool
is_profiled batches n = any (λ b. b == n) batches

-- The largest profiled batch up to n.
abbrev pub IsLower : List ℕ → ℕ → ℕ → Type 0
IsLower batches n l =
    (l ≤ n)
    × (is_profiled batches l ≡ true)
    × ((j : ℕ) → l < j → j ≤ n → is_profiled batches j ≡ false)

-- The least profiled batch above n.
abbrev pub IsUpper : List ℕ → ℕ → ℕ → Type 0
IsUpper batches n u =
    (n < u)
    × (is_profiled batches u ≡ true)
    × ((j : ℕ) → n < j → j < u → is_profiled batches j ≡ false)

find_lower-IsLower :
    (batches : List ℕ) (n l : ℕ) → find_lower batches n ≡ some l → IsLower batches n l
unfolding find_lower
find_lower-IsLower batches zero l e = (ground arith, ground arith, λ j a b. absurd (ground arith))
find_lower-IsLower batches (suc n) l e = elim (Bool-cases (is_profiled batches (suc n))) [
  | inl f ↦ (ground arith, ground arith, λ j a b. absurd (ground arith))
  | inr f ↦
      let (le, here, above) = find_lower-IsLower batches n l (ground arith) in
      (
        omega arith,
        here,
        λ j a b. elim (Bool-cases (j == suc n)) [
          | inl same ↦ ground (arith, ap (is_profiled batches) (==→eq j (suc n) same))
          | inr other ↦ above j a (ground arith)
        ],
      )
]

find_upper-IsUpper :
    (fuel : ℕ) (batches : List ℕ) (n u : ℕ)
    → find_upper fuel batches n ≡ some u
    → IsUpper batches n u
unfolding find_upper
find_upper-IsUpper zero batches n u e = absurd (ground arith)
find_upper-IsUpper (suc fuel) batches n u e = elim (Bool-cases (is_profiled batches (suc n))) [
  | inl f ↦ (ground arith, ground arith, λ j a b. absurd (ground arith))
  | inr f ↦
      let (lt, here, below) = find_upper-IsUpper fuel batches (suc n) u (ground arith) in
      (
        omega arith,
        here,
        λ j a b. elim (Bool-cases (j == suc n)) [
          | inl same ↦ ground (arith, ap (is_profiled batches) (==→eq j (suc n) same))
          | inr other ↦ below j (ground arith) b
        ],
      )
]

find_lower-ends :
    (batches : List ℕ) (n m : ℕ)
    → m ≤ n
    → is_profiled batches m ≡ true
    → (l : ℕ) × (find_lower batches n ≡ some l)
unfolding find_lower
find_lower-ends batches zero m le e =
    let at : m ≡ 0 = omega arith in (0, ground (arith, ap (is_profiled batches) at))
find_lower-ends batches (suc n) m le e = elim (Bool-cases (is_profiled batches (suc n))) [
  | inl f ↦ (suc n, ground arith)
  | inr f ↦ elim (Bool-cases (m == suc n)) [
    | inl same ↦ absurd (ground (arith, ap (is_profiled batches) (==→eq m (suc n) same)))
    | inr other ↦ (let (l, g) = find_lower-ends batches n m (ground arith) e in (l, ground arith))
  ]
]

find_upper-ends :
    (fuel : ℕ) (batches : List ℕ) (n m : ℕ)
    → n < m
    → m ≤ n + fuel
    → is_profiled batches m ≡ true
    → (u : ℕ) × (find_upper fuel batches n ≡ some u)
unfolding find_upper
find_upper-ends zero batches n m lt le e = absurd (omega arith)
find_upper-ends (suc fuel) batches n m lt le e = elim (Bool-cases (is_profiled batches (suc n))) [
  | inl f ↦ (suc n, ground arith)
  | inr f ↦ elim (Bool-cases (m == suc n)) [
    | inl same ↦ absurd (ground (arith, ap (is_profiled batches) (==→eq m (suc n) same)))
    | inr other ↦
        (let (u, g) = find_upper-ends fuel batches (suc n) m (ground arith) (omega arith) e in
          (u, ground arith))
  ]
]

profiled-le : (batches : List ℕ) (m : ℕ) → is_profiled batches m ≡ true → m ≤ sum batches
unfolding any
profiled-le [] m e = absurd (ground arith)
profiled-le (b ∷ batches) m e = elim (Bool-cases (b == m)) [
  | inl same ↦ ground arith
  | inr other ↦ ground (arith, profiled-le batches m)
]

-- For a batch from 2 to 31 with a profiled batch at or below it and one above it, `find_batch_pair` ends,
-- with the largest profiled batch up to it and the least one above it.
pub find_batch_pair-IsPair :
    (batches : List ℕ) (batch m n : ℕ)
    → 1 < batch
    → batch < 32
    → m ≤ batch
    → is_profiled batches m ≡ true
    → batch < n
    → is_profiled batches n ≡ true
    → (l u : ℕ) × (find_batch_pair batches batch ≡ some (l, u))
      × IsLower batches batch l
      × IsUpper batches batch u
unfolding find_batch_pair
find_batch_pair-IsPair batches batch m n low high le e lt f =
    let (l, g) = find_lower-ends batches batch m le e in
    let (u, h) =
      find_upper-ends (sum batches) batches batch n lt (omega (arith, profiled-le batches n f)) f in
    (
      l,
      u,
      ground arith,
      find_lower-IsLower batches batch l g,
      find_upper-IsUpper (sum batches) batches batch u h,
    )
