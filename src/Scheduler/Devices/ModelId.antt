-- ===== src/Scheduler/Devices/ModelId.antt =====
-- The number that `getModelID` gives to a name.
use glet.Common.{
  ℕ, suc, ◌+◌, ◌≡◌, refl, true, false, some, List, [], ◌∷◌, String, str_eq, arith, any, get_elem?,
  length, Bool-cases, inl, inr,
}
use glet.Scheduler.Devices.{model_id_from, get_model_id}

model_id_from_known :
    (id : ℕ) (name : String) (names : List String)
    → any (λ n. str_eq n name) names ≡ true
    → (k : ℕ) × (n : String) × (model_id_from id name names ≡ id + k)
      × (get_elem? names k ≡ some n)
      × (str_eq n name ≡ true)
unfolding model_id_from any
model_id_from_known id name [] known = absurd (ground arith)
model_id_from_known id name (m ∷ names) known = elim (Bool-cases (str_eq m name)) [
  | inl here ↦ (0, m, ground arith, refl, here)
  | inr later ↦
      further names (ground arith) (model_id_from_known (suc id) name names (ground arith)) later
]
  where
    further :
        (ms : List String)
        → any (λ n. str_eq n name) ms ≡ true
        → ((k : ℕ) × (n : String) × (model_id_from (suc id) name ms ≡ suc id + k)
            × (get_elem? ms k ≡ some n)
            × (str_eq n name ≡ true))
        → str_eq m name ≡ false
        → (k : ℕ) × (n : String) × (model_id_from id name (m ∷ ms) ≡ id + k)
          × (get_elem? (m ∷ ms) k ≡ some n)
          × (str_eq n name ≡ true)
    further [] none_left found later = absurd (ground arith)
    further (x ∷ ms) more (k, n, e, f, g) later = (suc k, n, ground (arith, e), f, g)

model_id_from_unknown :
    (id : ℕ) (name last : String) (names : List String)
    → any (λ n. str_eq n name) (last ∷ names) ≡ false
    → model_id_from id name (last ∷ names) ≡ id + length names
unfolding model_id_from any
model_id_from_unknown id name m [] unknown = ground arith
model_id_from_unknown id name m (x ∷ names) unknown =
    ground (arith, model_id_from_unknown (suc id) name x names (ground arith))

-- A name that stands in the list gets the number of a place where it stands.
get_model_id-get_elem? :
    (names : List String) (name : String)
    → any (λ n. str_eq n name) names ≡ true
    → (id : ℕ) × (n : String) × (get_model_id names name ≡ some id)
      × (get_elem? names id ≡ some n)
      × (str_eq n name ≡ true)
unfolding get_model_id any
get_model_id-get_elem? [] name known = absurd (ground arith)
get_model_id-get_elem? (m ∷ names) name known =
    let (k, n, e, f, g) = model_id_from_known 0 name (m ∷ names) known in
    (k, n, ground (arith, e), f, g)

-- A name that does not stand in the list of names gets the number of the last one.
pub get_model_id_unknown :
    (first : String) (names : List String) (name : String)
    → any (λ n. str_eq n name) (first ∷ names) ≡ false
    → get_model_id (first ∷ names) name ≡ some (length names)
unfolding get_model_id
get_model_id_unknown first names name unknown =
    ground (arith, model_id_from_unknown 0 name first names unknown)
