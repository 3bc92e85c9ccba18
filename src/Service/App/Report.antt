-- ===== src/Service/App/Report.antt =====
-- An application is reported once, when all that its outputs read is finished.
use glet.Common.{
  ℕ, suc, ◌≤◌, ◌≡◌, refl, Bool, true, false, not, ◌&&◌, List, [], ◌∷◌, arith, Bool-cases,
  if◌then◌else◌, lookup_or, insert, lookup_or-insert, nat_key, ==→eq, inl, inr, all, ap,
}
use glet.Service.App.Instance.{AppInstance, check_outputs, mark_finished, is_finished}

-- What threads do with an application: mark a model of it, or ask whether it is finished.
pub data Call : Type 0 where
  mark : ℕ → Call
  ask : Call

-- A mark that is written down again changes no mark.
lookup_or-rewrite :
    (id j : ℕ) (board : List (ℕ × Bool))
    → lookup_or false j (insert id (lookup_or false id board) board) ≡ lookup_or false j board
lookup_or-rewrite id j board = ground (
  arith,
  lookup_or-insert false (lookup_or false id board) id j board,
  ==→eq id j,
  ap (λ x. lookup_or false x board),
)

all-ext : (p q : ℕ → Bool) (ids : List ℕ) → ((id : ℕ) → p id ≡ q id) → all p ids ≡ all q ids
unfolding all
all-ext p q [] same = refl
all-ext p q (id ∷ ids) same = ground (arith, same id, all-ext p q ids same)

check_outputs-all :
    (ids : List ℕ) (board : List (ℕ × Bool)) (finished : Bool)
    → (check_outputs ids board finished).0 ≡ finished && all (λ id. lookup_or false id board) ids
unfolding check_outputs all
check_outputs-all [] board finished = ground arith
check_outputs-all (id ∷ ids) board finished =
    let mark = lookup_or false id board in
    let board' = insert id mark board in
    ground (
      arith,
      check_outputs-all ids board' (finished && mark),
      all-ext (λ j. lookup_or false j board') (λ j. lookup_or false j board) ids
          (λ j. lookup_or-rewrite id j board),
    )

module _ {T : Type 0} where
  -- How often `is_finished` answers true in a sequence of calls.
  unfoldable pub reports : AppInstance T → List Call → ℕ
  unfolding mark_finished is_finished
  reports app [] = 0
  reports app (mark id ∷ calls) = reports (mark_finished app id) calls
  reports app (ask ∷ calls) =
      let (finished, app') = is_finished app in
      let rest = reports app' calls in if finished then suc rest else rest

  reports-reported :
      (app : AppInstance T) (calls : List Call) → app.reported ≡ true → reports app calls ≡ 0
  unfolding reports mark_finished is_finished
  reports-reported app [] e = refl
  reports-reported app (mark id ∷ calls) e = reports-reported (mark_finished app id) calls e
  reports-reported app (ask ∷ calls) e = ground (arith, reports-reported app calls e)

  is_finished-reported :
      (app : AppInstance T) → (is_finished app).0 ≡ true → (is_finished app).1.reported ≡ true
  unfolding is_finished
  is_finished-reported app e = elim (Bool-cases app.reported) [
    | inl f ↦ ground arith
    | inr f ↦ ground arith
  ]

  -- However the threads mark models and ask, at most one question is answered with true.
  pub reports-le : (app : AppInstance T) (calls : List Call) → reports app calls ≤ 1
  unfolding reports
  reports-le app [] = omega arith
  reports-le app (mark id ∷ calls) = reports-le (mark_finished app id) calls
  reports-le app (ask ∷ calls) = elim (Bool-cases (is_finished app).0) [
    | inl e ↦
        ground (arith, reports-reported (is_finished app).1 calls (is_finished-reported app e))
    | inr e ↦ ground (arith, reports-le (is_finished app).1 calls)
  ]

  -- `is_finished` answers true exactly when the application is not reported yet and every model that an
  -- output reads is marked.
  pub is_finished-all :
      (app : AppInstance T)
      → (is_finished app).0
        ≡ not app.reported && all (λ id. lookup_or false id app.score_board) app.output_check
  unfolding is_finished
  is_finished-all app = ground (arith, check_outputs-all app.output_check app.score_board true)
