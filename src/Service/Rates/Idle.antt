-- ===== src/Service/Rates/Idle.antt =====
-- A model without a target, or with the target 0, is passed over by `setupTasks`, at whatever rate its
-- requests arrive.
use glet.Common.{
  ◌≡◌, refl, inl, inr, Bool, true, false, ◌&&◌, ◌||◌, Option, none, some, List, [], ◌∷◌, ◌++◌,
  String, arith, any, str_eq, Bool-cases, if◌then◌else◌, lookup, lookup_or, insert,
  lookup_or-insert, string_key,
}
use text.Mathlib.TextEquality.{eq_iff}
use glet.Common.Loops.{Ends, Ends-bind, Ends-some, if_both}
use glet.Float.{Float}
use glet.Service.Rates.{
  Targets, Models, rate_of, touch, retarget, setup_rate, setup_round, setup_names, is_unused,
  update_and_return_max_hist_rate, with_room, goes_up, goes_down,
}

-- What IEEE comparisons promise of 0: it equals itself, and what equals it is not above 1.
pub record HasZero (F : Type 0) ⦃R : Float F⦄ : Type 0 where
  pub eq_zero : R.eq (R.lit 0 0) (R.lit 0 0) ≡ true
  pub not_above_one : (x : F) → R.eq x (R.lit 0 0) ≡ true → R.lt (R.lit 1 0) x ≡ false

any-append : (p : String → Bool) (xs ys : List String) → any p (xs ++ ys) ≡ any p xs || any p ys
unfolding any
any-append p [] ys = refl
any-append p (x ∷ xs) ys = ground (arith, any-append p xs ys)

module _ {F : Type 0} ⦃R : Float F⦄ where
  -- The model has no target, or the target 0.
  abbrev pub IsIdle : String → Targets F → Type 0
  IsIdle name x = R.eq (rate_of x.tgt name) (R.lit 0 0) ≡ true

  -- It stays so, and is not among the names that get a task.
  abbrev pub IsPassedOver : String → Targets F × List String → Type 0
  IsPassedOver name (x, tasks) = IsIdle name x × (any (λ n. str_eq n name) tasks ≡ false)

  rate_of-insert :
      (tgt : List (String × F)) (k j : String) (r : F)
      → rate_of (insert k r tgt) j ≡ (if str_eq k j then r else rate_of tgt j)
  unfolding rate_of
  rate_of-insert tgt k j r = lookup_or-insert (R.lit 0 0) r k j tgt

  rate_of-touch : (tgt : List (String × F)) (k j : String) → rate_of (touch k tgt) j ≡ rate_of tgt j
  unfolding rate_of touch lookup_or
  rate_of-touch tgt k j = by_lookup (lookup k tgt) refl
    where
      by_lookup : (o : Option F) → lookup k tgt ≡ o → rate_of (touch k tgt) j ≡ rate_of tgt j
      by_lookup (some r) e = rw (e, touch) refl
      by_lookup none e =
          rw (e, touch)
            (rw (rate_of-insert tgt k j (R.lit 0 0)) (elim (Bool-cases (str_eq k j)) [
              | inl q ↦
                  let absent : lookup j tgt ≡ none = rw (← (eq_iff k j).0 q) e in
                  ground (arith, q, absent)
              | inr q ↦ rw q refl
            ]))

  idle-insert :
      (tgt : List (String × F)) (name k : String) (r : F)
      → str_eq k name ≡ false
      → R.eq (rate_of tgt name) (R.lit 0 0) ≡ true
      → R.eq (rate_of (insert k r tgt) name) (R.lit 0 0) ≡ true
  idle-insert tgt name k r apart idle = rw (rate_of-insert tgt k name r) (rw apart idle)

  idle-touch :
      (tgt : List (String × F)) (name k : String)
      → R.eq (rate_of tgt name) (R.lit 0 0) ≡ true
      → R.eq (rate_of (touch k tgt) name) (R.lit 0 0) ≡ true
  idle-touch tgt name k idle = rw (rate_of-touch tgt k name) idle

  retarget_other :
      (b : Bool) (name k : String) (old wanted : F) (x : Targets F)
      → str_eq k name ≡ false
      → IsIdle name x
      → IsPassedOver name (retarget b k old wanted x)
  unfolding retarget any
  retarget_other b name k old wanted x apart idle =
      by_tests (goes_up old wanted) (b && goes_down old wanted)
    where
      by_tests :
          (up down : Bool)
          → IsPassedOver name (
            record x {
              tgt = if up || down then insert k wanted x.tgt else x.tgt;
              flush = down || x.flush;
            },
            (if up then k ∷ [] else []) ++ (if down then k ∷ [] else []),
          )
      by_tests true true = (idle-insert x.tgt name k wanted apart idle, rw apart refl)
      by_tests true false = (idle-insert x.tgt name k wanted apart idle, rw apart refl)
      by_tests false true = (idle-insert x.tgt name k wanted apart idle, rw apart refl)
      by_tests false false = (idle, refl)

  -- The round of another model.
  setup_rate_other :
      (b : Bool) (name k : String) (curr wanted : F) (x : Targets F)
      → str_eq k name ≡ false
      → IsIdle name x
      → IsPassedOver name (setup_rate b k curr wanted x)
  unfolding setup_rate any
  setup_rate_other b name k curr wanted x apart idle =
      let touched = touch k x.tgt in
      let idle' = idle-touch x.tgt name k idle in
      if_both (IsPassedOver name) (R.lt curr (R.lit 1 0) && R.lt (R.lit 1 0) (rate_of touched k)) _
        _ (idle-insert touched name k (R.lit 0 0) apart idle', refl)
        (if_both (IsPassedOver name) (R.eq (rate_of touched k) (R.lit 0 0)) _ _ (idle', refl)
          (by_lookup (lookup k touched)))
    where
      by_lookup :
          (o : Option F)
          → IsPassedOver name (elim o [
            | none ↦ (record x { tgt = insert k wanted (touch k x.tgt) }, k ∷ [])
            | some r ↦
                retarget b k (rate_of (touch k x.tgt) k) wanted (record x { tgt = touch k x.tgt })
          ])
      by_lookup none = (
        idle-insert (touch k x.tgt) name k wanted apart (idle-touch x.tgt name k idle),
        rw apart refl,
      )
      by_lookup (some r) =
          retarget_other b name k (rate_of (touch k x.tgt) k) wanted
            (record x { tgt = touch k x.tgt }) apart (idle-touch x.tgt name k idle)

  -- Its own round.
  setup_rate_same :
      (z : HasZero F) (b : Bool) (name : String) (curr wanted : F) (x : Targets F)
      → IsIdle name x
      → IsPassedOver name (setup_rate b name curr wanted x)
  unfolding setup_rate any
  setup_rate_same z b name curr wanted x idle =
      let touched = touch name x.tgt in
      let idle' = idle-touch x.tgt name name idle in
      let small = z.not_above_one (rate_of touched name) idle' in
      elim (Bool-cases (R.lt curr (R.lit 1 0))) [
        | inl slow ↦ rw slow (rw small (rw idle' (idle', refl)))
        | inr fast ↦ rw fast (rw idle' (idle', refl))
      ]

  setup_round-IsPassedOver :
      (z : HasZero F) (m : Models F) (b : Bool) (name k : String) (x : Targets F)
      → IsIdle name x
      → Ends (IsPassedOver name) (setup_round m b k x)
  unfolding setup_round any
  setup_round-IsPassedOver z m b name k x idle =
      if_both (Ends (IsPassedOver name)) (is_unused m k x) _ _ (idle, refl)
        (Ends-bind (IsPassedOver name)
          (update_and_return_max_hist_rate m.hist_len k (m.ariv_rate k) x.hist) _
          (λ (r : F × List (String × List F)) _.
            by_name (m.ariv_rate k) (with_room r.0) (record x { hist = r.1 }) idle))
    where
      by_name :
          (curr wanted : F) (x' : Targets F)
          → IsIdle name x'
          → IsPassedOver name (setup_rate b k curr wanted x')
      by_name curr wanted x' idle' = elim (Bool-cases (str_eq k name)) [
        | inl e ↦
            let same : k ≡ name = (eq_iff k name).0 e in
            rw same (setup_rate_same z b name curr wanted x' idle')
        | inr e ↦ setup_rate_other b name k curr wanted x' e idle'
      ]

  -- Whatever the rate at which its requests arrive, a model whose target rate is 0 or has never been
  -- set gets no task from the loop of `setupTasks`, if it does not abort, and its target is 0 or not set
  -- afterwards.
  pub setup_names-IsPassedOver :
      (z : HasZero F) (m : Models F) (include_downsize : Bool) (name : String)
      (net_names : List String) (x : Targets F)
      → IsIdle name x
      → Ends (IsPassedOver name) (setup_names m include_downsize net_names x)
  unfolding setup_names any
  setup_names-IsPassedOver z m b name [] x idle = (idle, refl)
  setup_names-IsPassedOver z m b name (k ∷ ks) x idle =
      Ends-bind (IsPassedOver name) (setup_round m b k x) _ (λ (r : Targets F × List String) e.
        let (idle1, out1) =
          Ends-some (IsPassedOver name) _ r e (setup_round-IsPassedOver z m b name k x idle) in
        Ends-bind (IsPassedOver name) (setup_names m b ks r.0) _
          (λ (r' : Targets F × List String) e'.
            let (idle2, out2) =
              Ends-some (IsPassedOver name) _ r' e'
                (setup_names-IsPassedOver z m b name ks r.0 idle1) in
            (idle2, rw (any-append (λ n. str_eq n name) r.1 r'.1) (rw out1 out2))))
