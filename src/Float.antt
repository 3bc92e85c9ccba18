-- ===== src/Float.antt =====
-- `float` and `double`: all that the code does with them, as an interface. Both widths are one type
-- here, so a narrowing that the source makes between them is the identity.
pub mod Milli
use glet.Common.{ℕ, Bool, ◌≡◌, ◌≤◌, true, false, Bool-cases, inl, inr}
use glet.Common.Int.{ℤ, pos, ◌≤ℤ◌, ◌-ℤ◌}

pub record Float (F : Type 0) : Type 0 where
  -- The conversion from an `int`.
  pub of_int : ℤ → F
  -- The literal m / 10^k.
  pub lit : ℕ → ℕ → F
  pub add : F → F → F
  pub sub : F → F → F
  pub mul : F → F → F
  pub div : F → F → F
  pub eq : F → F → Bool
  pub le : F → F → Bool
  pub lt : F → F → Bool
  -- The conversion to an `int`, towards zero.
  pub trunc : F → ℤ

-- What `std::sort` and `std::max_element` need of `<`, and IEEE comparisons promise away from NaN.
pub record IsWeakOrder (F : Type 0) ⦃R : Float F⦄ : Type 0 where
  pub lt_asym : (x y : F) → R.lt x y ≡ true → R.lt y x ≡ false
  pub not_lt_trans : (x y z : F) → R.lt x y ≡ false → R.lt y z ≡ false → R.lt x z ≡ false

module _ {F : Type 0} ⦃R : Float F⦄ where
  pub not_lt_self : (weak : IsWeakOrder F) (x : F) → R.lt x x ≡ false
  not_lt_self weak x = elim (Bool-cases (R.lt x x)) [ inl h ↦ weak.lt_asym x x h | inr h ↦ h ]

-- What IEEE arithmetic promises of integers that a `float` holds exactly, up to 2^24 = 16777216:
-- rounding is monotone, and the difference of such integers is exact.
pub record IsRounded (F : Type 0) ⦃R : Float F⦄ : Type 0 where
  pub of_int_mono : (m n : ℤ) → m ≤ℤ n → R.lt (R.of_int n) (R.of_int m) ≡ false
  pub mul_ratio : (n : ℕ) → R.le (R.mul (R.of_int (pos n)) (R.lit 9 1)) (R.of_int (pos n)) ≡ true
  pub sub_mono : (x y z : F) → R.le x y ≡ true → R.le (R.sub x z) (R.sub y z) ≡ true
  pub sub_exact :
      (m n : ℕ)
      → m ≤ 16777216
      → n ≤ 16777216
      → R.sub (R.of_int (pos m)) (R.of_int (pos n)) ≡ R.of_int (pos m -ℤ pos n)
  pub lt_of_lt_le : (x y z : F) → R.lt x y ≡ true → R.le y z ≡ true → R.lt x z ≡ true
