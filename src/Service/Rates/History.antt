-- ===== src/Service/Rates/History.antt =====
-- The history of rates that `updateAndReturnMaxHistRate` keeps is a window on all rates so far.
use glet.Common.{
  ◌>>=◌, ℕ, zero, suc, ◌≤◌, ◌<◌, ◌≡◌, refl, ap, sym, subst, inl, inr, All, Among, true, false,
  Option, some, List, [], ◌∷◌, String, arith, ltb, length, Bool-cases, lookup_or, lookup_or-insert,
  insert, string_key, same_refl, ◌∙◌,
}
use glet.Common.Int.{pos}
use glet.Float.{Float, IsWeakOrder, not_lt_self}
use glet.Service.Rates.{pop_back, push_rate, max_element, update_and_return_max_hist_rate}

-- The first elements of a list.
unfoldable pub take {ℓ} : {A : Type ℓ} → ℕ → List A → List A
take zero xs = []
take (suc n) [] = []
take (suc n) (x ∷ xs) = x ∷ take n xs

module _ {ℓ} {A : Type ℓ} where
  length-take : (n : ℕ) (xs : List A) → length (take n xs) ≤ n
  unfolding take
  length-take zero xs = omega arith
  length-take (suc n) [] = omega arith
  length-take (suc n) (x ∷ xs) = omega (arith, length-take n xs)

  -- A full window loses its oldest element to the new one.
  pop_back-take :
      (n : ℕ) (x : A) (xs : List A)
      → length (take n xs) ≡ n
      → pop_back (x ∷ take n xs) ≡ take n (x ∷ xs)
  unfolding take pop_back
  pop_back-take zero x xs e = refl
  pop_back-take (suc n) x [] e = absurd (omega (arith, e))
  pop_back-take (suc n) x (y ∷ ys) e = ap (λ l. x ∷ l) (pop_back-take n y ys (omega (arith, e)))

  -- A window with room keeps all.
  cons-take :
      (n : ℕ) (x : A) (xs : List A) → length (take n xs) < n → x ∷ take n xs ≡ take n (x ∷ xs)
  unfolding take
  cons-take zero x xs h = elim h [ ]
  cons-take (suc zero) x [] h = refl
  cons-take (suc (suc n)) x [] h = refl
  cons-take (suc n) x (y ∷ ys) h = ap (λ l. x ∷ l) (cons-take n y ys (omega (arith, h)))

-- `HIST_LEN` lets a history of at most `room` rates pass.
abbrev pub Holds : {F : Type 0} ⦃R : Float F⦄ → F → ℕ → Type 0
Holds ⦃R⦄ hist_len room = (n : ℕ) → R.lt hist_len (R.of_int (pos n)) ≡ ltb room n

module _ {F : Type 0} ⦃R : Float F⦄ where
  -- One of the list that no other is above.
  abbrev pub IsLargest : F → List F → Type 0
  IsLargest best xs = Among best xs × All (λ x. R.lt best x ≡ false) xs

  max_element_above :
      (best x : F) (xs : List F) → R.lt best x ≡ true → max_element best (x ∷ xs) ≡ max_element x xs
  unfolding max_element
  max_element_above best x xs h = rw h refl

  max_element_kept :
      (best x : F) (xs : List F)
      → R.lt best x ≡ false
      → max_element best (x ∷ xs) ≡ max_element best xs
  unfolding max_element
  max_element_kept best x xs h = rw h refl

  max_element_nil : (best : F) → max_element best [] ≡ best
  unfolding max_element
  max_element_nil best = refl

  max_element-IsLargest :
      (weak : IsWeakOrder F) (best : F) (xs : List F) → IsLargest (max_element best xs) (best ∷ xs)
  max_element-IsLargest weak best [] =
      rw (max_element_nil best) (inl refl, (not_lt_self weak best, tt))
  max_element-IsLargest weak best (x ∷ xs) = elim (Bool-cases (R.lt best x)) [
    | inl above ↦
        subst (λ m. IsLargest m (best ∷ x ∷ xs)) (sym (max_element_above best x xs above))
          (let (found, (below, all)) = max_element-IsLargest weak x xs in
            let first =
              weak.not_lt_trans (max_element x xs) x best below (weak.lt_asym best x above) in
            (inr found, (first, (below, all))))
    | inr kept ↦
        subst (λ m. IsLargest m (best ∷ x ∷ xs)) (sym (max_element_kept best x xs kept))
          (let (found, (below, all)) = max_element-IsLargest weak best xs in
            let next = weak.not_lt_trans (max_element best xs) best x below kept in
            (elim found [ inl e ↦ inl e | inr i ↦ inr (inr i) ], (below, (next, all))))
  ]

  -- The rates so far of one model, the newest first, given to `updateAndReturnMaxHistRate` in turn.
  unfoldable pub fed :
      F → String → List F → List (String × List F) → Option (List (String × List F))
  fed hist_len name [] hist = some hist
  fed hist_len name (rate ∷ rates) hist = do
    hist' ← fed hist_len name rates hist
    (best, hist'') ← update_and_return_max_hist_rate hist_len name rate hist'
    some hist''

  push_rate-take :
      (hist_len : F) (room : ℕ) (rate : F) (rates : List F)
      → Holds hist_len (suc room)
      → push_rate hist_len rate (take (suc room) rates) ≡ take (suc room) (rate ∷ rates)
  unfolding push_rate
  push_rate-take hist_len room rate rates holds =
      let n = length (take (suc room) rates) in
      elim (Bool-cases (ltb (suc room) (suc n))) [
        | inl full ↦ rw (holds (suc n) ∙ full) (
            pop_back-take (suc room) rate rates
              (ground (arith, full, length-take (suc room) rates)))
        | inr left ↦
            rw (holds (suc n) ∙ left) (cons-take (suc room) rate rates (ground (arith, left)))
      ]

  -- The outcome of an update: the rates that are kept, and the largest of them.
  abbrev pub IsWindow : String → List F → F × List (String × List F) → Type 0
  IsWindow name window (best, hist) = (lookup_or [] name hist ≡ window) × IsLargest best window

  update-IsWindow :
      (weak : IsWeakOrder F) (hist_len : F) (room : ℕ) (name : String) (rate : F) (rates : List F)
      (hist : List (String × List F))
      → Holds hist_len (suc room)
      → lookup_or [] name hist ≡ take (suc room) rates
      → (r : F × List (String × List F)) × (update_and_return_max_hist_rate hist_len name rate hist
          ≡ some r)
        × IsWindow name (take (suc room) (rate ∷ rates)) r
  unfolding update_and_return_max_hist_rate take
  update-IsWindow weak hist_len room name rate rates hist holds e = (
    (max_element rate (take room rates), insert name (rate ∷ take room rates) hist),
    rw (e, update_and_return_max_hist_rate)
        (rw (push_rate-take hist_len room rate rates holds) refl),
    (
      ground (arith, lookup_or-insert [] (rate ∷ take room rates) name name hist, same_refl name),
      max_element-IsLargest weak rate (take room rates),
    ),
  )

  fed-take :
      (weak : IsWeakOrder F) (hist_len : F) (room : ℕ) (name : String) (rates : List F)
      (hist : List (String × List F))
      → Holds hist_len (suc room)
      → lookup_or [] name hist ≡ []
      → (hist' : List (String × List F)) × (fed hist_len name rates hist ≡ some hist')
        × (lookup_or [] name hist' ≡ take (suc room) rates)
  unfolding fed take
  fed-take weak hist_len room name [] hist holds empty = (hist, refl, empty)
  fed-take weak hist_len room name (rate ∷ rates) hist holds empty =
      let (hist1, e, kept) = fed-take weak hist_len room name rates hist holds empty in
      let (r, e', (kept', _)) =
        update-IsWindow weak hist_len room name rate rates hist1 holds kept in
      (r.1, rw e (rw e' refl), kept')

  -- If `<` is a weak order, `HIST_LEN` lets up to `suc room` rates pass and a model starts with an empty
  -- history, then after any rates the next call of `updateAndReturnMaxHistRate` ends, keeps the newest
  -- `suc room` of all rates so far, the newest first, and returns one of these that none of them is above.
  pub fed-IsWindow :
      (weak : IsWeakOrder F) (hist_len : F) (room : ℕ) (name : String) (rate : F) (rates : List F)
      (hist : List (String × List F))
      → Holds hist_len (suc room)
      → lookup_or [] name hist ≡ []
      → (r : F × List (String × List F)) × ((fed hist_len name rates hist
            >>= update_and_return_max_hist_rate hist_len name rate)
          ≡ some r)
        × IsWindow name (take (suc room) (rate ∷ rates)) r
  fed-IsWindow weak hist_len room name rate rates hist holds empty =
      let (hist1, e, kept) = fed-take weak hist_len room name rates hist holds empty in
      let (r, e', window) = update-IsWindow weak hist_len room name rate rates hist1 holds kept in
      (r, rw e e', window)
