-- ===== src/Common/Loops.antt =====
-- Loops whose rounds may abort: a round ends with a result or goes on with a new state. The outer
-- `none` says that the fuel ran out, the inner one that the program aborts.
use Prim.Native.Nat.{ℕ, zero, suc, ◌<◌}
use mathlib.Core.Path.{◌≡◌, refl, subst}
use mathlib.Core.Logic.{◌⊎◌, inl, inr}
use mathlib.Core.Bool.{Bool, true, false}
use mathlib.Core.Option.{Option, none, some}
use native.Mathlib.Omega.{arith}
use glet.Common.Tests.{Option-cases, ◌>>=◌, ◌>>◌, assert, if◌then◌else◌}

pub data Next (S A : Type 0) : Type 0 where
  ends : A → Next S A
  again : S → Next S A

-- The result of a loop with its fuel.
abbrev pub run : {A : Type 0} → Option (Option A) → Option A
run none = none
run (some r) = r

-- What holds of the result when it is no abort.
abbrev pub Ends {κ} : {A : Type 0} → (A → Type κ) → Option A → Type κ
Ends Q none = Unit
Ends Q (some a) = Q a

pub Ends-bind {κ} :
    {A B : Type 0} (Q : B → Type κ) (o : Option A) (f : A → Option B)
    → ((a : A) → o ≡ some a → Ends Q (f a))
    → Ends Q (o >>= f)
Ends-bind Q none f h = tt
Ends-bind Q (some a) f h = h a refl

pub Ends-then {κ} :
    {B : Type 0} (Q : B → Type κ) (b : Bool) (o : Option B) → Ends Q o → Ends Q (assert b >> o)
Ends-then Q true o h = h
Ends-then Q false o h = tt

-- A predicate of both branches.
pub if_both {ℓ κ} :
    {A : Type ℓ} (P : A → Type κ) (b : Bool) (x y : A) → P x → P y → P (if b then x else y)
if_both P true x y p q = p
if_both P false x y p q = q

pub Ends-imp {ℓ κ} :
    {A : Type 0} (P : A → Type ℓ) (Q : A → Type κ) (o : Option A)
    → ((a : A) → P a → Q a)
    → Ends P o
    → Ends Q o
Ends-imp P Q none h p = tt
Ends-imp P Q (some a) h p = h a p

-- What holds of the result, at a result that is known.
pub Ends-some {κ} :
    {A : Type 0} (Q : A → Type κ) (o : Option A) (a : A) → o ≡ some a → Ends Q o → Q a
Ends-some Q o a e h = subst (Ends Q) e h

module _ {S A : Type 0} where
  unfoldable pub loop : (S → Option (Next S A)) → ℕ → S → Option (Option A)
  loop round zero s = none
  loop round (suc fuel) s = elim (round s) [
    | none ↦ some none
    | some (ends a) ↦ some (some a)
    | some (again s') ↦ loop round fuel s'
  ]

  -- A measure that every further round lowers bounds the rounds; an invariant holds of each state, and
  -- gives what the result satisfies.
  pub loop_ends {ℓ κ} :
      (P : S → Type ℓ) (Q : A → Type κ) (measure : S → ℕ) (round : S → Option (Next S A))
      → ((s s' : S) → P s → round s ≡ some (again s') → P s' × (measure s' < measure s))
      → ((s : S) (a : A) → P s → round s ≡ some (ends a) → Q a)
      → (fuel : ℕ) (s : S) → measure s < fuel
      → P s
      → (r : Option A) × (loop round fuel s ≡ some r) × Ends Q r
  unfolding loop
  loop_ends P Q measure round keep done zero s m h = absurd (omega arith)
  loop_ends P Q measure round keep done (suc fuel) s m h =
      by_round (Option-cases (round s)) (λ s' e.
        let (h', less) = keep s s' h e in
        loop_ends P Q measure round keep done fuel s' (omega arith) h')
    where
      by_round :
          (round s ≡ none) ⊎ ((n : Next S A) × (round s ≡ some n))
          → ((s' : S)
              → round s ≡ some (again s')
              → (r : Option A) × (loop round fuel s' ≡ some r) × Ends Q r)
          → (r : Option A) × (loop round (suc fuel) s ≡ some r) × Ends Q r
      by_round (inl e) rest = (none, rw (e, loop) refl, tt)
      by_round (inr (ends a, e)) rest = (some a, rw (e, loop) refl, done s a h e)
      by_round (inr (again s', e)) rest = let (r, f, q) = rest s' e in (r, rw (e, loop) f, q)
