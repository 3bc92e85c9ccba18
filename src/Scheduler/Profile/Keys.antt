-- ===== src/Scheduler/Profile/Keys.antt =====
-- What was profiled is what `getLatency` reads, although the table goes by keys.
use glet.Common.{
  ℕ, ◌+◌, ◌*◌, ◌<◌, ◌≡◌, ◌⊎◌, refl, ap, ◌∙◌, inl, inr, some, List, [], ◌∷◌, ◌++◌, String, arith,
  Option-cases, Bool-cases, lookup, insert, lookup_or, lookup-insert, lookup-insert_self,
  some-injective, subst, nat_key, string_key, All, str_eq, leb, true, false, ◌&&◌, ◌||◌, ◌==◌,
  ==→eq,
}
use glet.Float.{Float}
use glet.Scheduler.Profile.{
  Entry, LatencyModel, make_key, add_entry, setup_table, read_entry, model_alias,
  get_batch_interpolated_latency, get_profiled_latency,
}

-- Parts below 1000 keep the keys apart.
make_key_injective :
    (batch part batch' part' key : ℕ)
    → part < 1000
    → part' < 1000
    → make_key batch part ≡ some key
    → make_key batch' part' ≡ some key
    → (batch ≡ batch') × (part ≡ part')
unfolding make_key
make_key_injective batch part batch' part' key lt lt' e e' =
    let k : batch * 1000 + part ≡ key = ground arith in
    let k' : batch' * 1000 + part' ≡ key = ground arith in (omega arith, omega arith)

-- The batches that are not interpolated.
is_edge :
    (batch : ℕ)
    → (batch ≡ 1) ⊎ (batch ≡ 32)
    → ((batch == 1 || batch == 32) ≡ true) × ((leb 1 batch && leb batch 32) ≡ true)
is_edge batch (inl e) = (ground arith, ground arith)
is_edge batch (inr e) = (ground arith, ground arith)

module _ {F : Type 0} ⦃R : Float F⦄ where
  -- Another model, batch or part.
  abbrev pub Differs : Entry F → Entry F → Type 0
  Differs e f = ¬ ((f.model ≡ e.model) × (f.batch ≡ e.batch) × (f.part ≡ e.part))

  -- A line that leaves what the line `e` says.
  abbrev pub Spares : Entry F → Entry F → Type 0
  Spares e f = (f.part < 1000) × Differs e f

  -- The table holds the latency of the line under its key.
  abbrev IsStored : Entry F → ℕ → LatencyModel F → Type 0
  IsStored e key m =
      (table : List (ℕ × F)) × (lookup e.model m.latency_table ≡ some table)
      × (lookup key table ≡ some e.latency)

  add_entry-latency_table :
      (m m' : LatencyModel F) (f : Entry F) (key : ℕ)
      → make_key f.batch f.part ≡ some key
      → add_entry m f ≡ some m'
      → m'.latency_table
        ≡ insert f.model
            (insert key f.latency (lookup_or [] f.model m.latency_table))
            m.latency_table
  unfolding add_entry
  add_entry-latency_table m m' f key k e = ground arith

  add_entry-makes :
      (m m' : LatencyModel F) (e : Entry F) (key : ℕ)
      → make_key e.batch e.part ≡ some key
      → add_entry m e ≡ some m'
      → IsStored e key m'
  add_entry-makes m m' e key k added =
      let table = insert key e.latency (lookup_or [] e.model m.latency_table) in
      (
        table,
        ap (lookup e.model) (add_entry-latency_table m m' e key k added)
            ∙ lookup-insert_self e.model table m.latency_table,
        lookup-insert_self key e.latency (lookup_or [] e.model m.latency_table),
      )

  add_entry-key :
      (m m' : LatencyModel F) (f : Entry F)
      → add_entry m f ≡ some m'
      → (key : ℕ) × (make_key f.batch f.part ≡ some key)
  unfolding add_entry
  add_entry-key m m' f added = elim (Option-cases (make_key f.batch f.part)) [
    | inl g ↦ absurd (ground arith)
    | inr known ↦ known
  ]

  read_table :
      (m : LatencyModel F) (e f : Entry F) (table : List (ℕ × F))
      → f.model ≡ e.model
      → lookup e.model m.latency_table ≡ some table
      → lookup_or [] f.model m.latency_table ≡ table
  unfolding lookup_or
  read_table m e f table same at = rw same (rw (at, lookup_or) refl)

  keys_apart :
      (e f : Entry F) (kf key : ℕ)
      → f.part < 1000
      → e.part < 1000
      → make_key f.batch f.part ≡ some kf
      → make_key e.batch e.part ≡ some key
      → f.model ≡ e.model
      → Differs e f
      → (kf == key) ≡ false
  keys_apart e f kf key small' small g k model apart = elim (Bool-cases (kf == key)) [
    | inr other ↦ other
    | inl same ↦
        let g' : make_key f.batch f.part ≡ some key = g ∙ ap some (==→eq kf key same) in
        let (batch, part) =
          make_key_injective f.batch f.part e.batch e.part key small' small g' k in
        absurd (apart (model, batch, part))
  ]

  add_entry-IsStored :
      (m m' : LatencyModel F) (e f : Entry F) (key : ℕ)
      → e.part < 1000
      → make_key e.batch e.part ≡ some key
      → Spares e f
      → add_entry m f ≡ some m'
      → IsStored e key m
      → IsStored e key m'
  add_entry-IsStored m m' e f key small k (small', apart) added (table, at, here) =
      let (kf, g) = add_entry-key m m' f added in
      let old = lookup_or [] f.model m.latency_table in
      let table' = insert kf f.latency old in
      let new = ap (lookup e.model) (add_entry-latency_table m m' f kf g added) in
      let found = lookup-insert f.model e.model table' m.latency_table in
      elim (Bool-cases (str_eq f.model e.model)) [
        | inr other ↦ (table, new ∙ ground (arith, found, at), here)
        | inl same ↦
            let model = (string_key.same_iff f.model e.model).0 same in
            let is_table : old ≡ table = read_table m e f table model at in
            let other_key : (kf == key) ≡ false =
              keys_apart e f kf key small' small g k model apart in
            (
              table',
              new ∙ ground (arith, found),
              ground (arith, lookup-insert kf key f.latency old, ap (lookup key) is_table),
            )
      ]

  setup_table-IsStored :
      (m m' : LatencyModel F) (e : Entry F) (rest : List (Entry F)) (key : ℕ)
      → e.part < 1000
      → make_key e.batch e.part ≡ some key
      → All (Spares e) rest
      → setup_table m rest ≡ some m'
      → IsStored e key m
      → IsStored e key m'
  unfolding setup_table
  setup_table-IsStored m m' e [] key small k spared ends stored =
      subst (IsStored e key) (some-injective _ _ ends) stored
  setup_table-IsStored m m' e (f ∷ rest) key small k (spares, spared) ends stored =
      elim (Option-cases (add_entry m f)) [
        | inl g ↦ absurd (ground arith)
        | inr (m1, g) ↦
            setup_table-IsStored m1 m' e rest key small k spared (ground arith)
              (add_entry-IsStored m m1 e f key small k spares g stored)
      ]

  -- The state of the table before and after a line.
  setup_table-append :
      (m m' : LatencyModel F) (lines : List (Entry F)) (e : Entry F) (rest : List (Entry F))
      → setup_table m (lines ++ e ∷ rest) ≡ some m'
      → (m0 : LatencyModel F) × (m1 : LatencyModel F) × (add_entry m0 e ≡ some m1)
        × (setup_table m1 rest ≡ some m')
  unfolding setup_table
  setup_table-append m m' [] e rest ends = elim (Option-cases (add_entry m e)) [
    | inl g ↦ absurd (ground arith)
    | inr (m1, g) ↦ (m, m1, g, ground arith)
  ]
  setup_table-append m m' (f ∷ lines) e rest ends = elim (Option-cases (add_entry m f)) [
    | inl g ↦ absurd (ground arith)
    | inr (m1, g) ↦ setup_table-append m1 m' lines e rest (ground arith)
  ]

  read_entry-stored :
      (m : LatencyModel F) (e : Entry F) (key : ℕ)
      → IsStored e key m
      → (m'' : LatencyModel F) × (read_entry m e.model key ≡ (e.latency, m''))
  unfolding read_entry lookup_or
  read_entry-stored m e key (table, at, here) =
      ((read_entry m e.model key).1, ground (arith, at, here))

  get_profiled_latency-stored :
      (m : LatencyModel F) (e : Entry F) (name : String) (key : ℕ)
      → (e.batch ≡ 1) ⊎ (e.batch ≡ 32)
      → model_alias name ≡ e.model
      → make_key e.batch e.part ≡ some key
      → IsStored e key m
      → (m'' : LatencyModel F) × (get_profiled_latency m name e.batch e.part
          ≡ some (e.latency, m''))
  unfolding get_profiled_latency get_batch_interpolated_latency
  get_profiled_latency-stored m e name key edge alias k (table, at, here) =
      let (exact, in_range) = is_edge e.batch edge in
      let (m'', read) = read_entry-stored m e key (table, at, here) in
      (m'', ground (arith, alias, in_range, at, k, here, exact, ap some read))

  -- After `setupTable` has read its lines without an abort, `getLatency` gives for the batches 1 and 32 the
  -- latency of the last line with this model, batch and part, if the parts of it and of the later lines
  -- are below 1000, for every name that stands for the model.
  pub setup_table-get_profiled_latency :
      (m m' : LatencyModel F) (lines : List (Entry F)) (e : Entry F) (rest : List (Entry F))
      (name : String)
      → e.part < 1000
      → (e.batch ≡ 1) ⊎ (e.batch ≡ 32)
      → All (Spares e) rest
      → model_alias name ≡ e.model
      → setup_table m (lines ++ e ∷ rest) ≡ some m'
      → (m'' : LatencyModel F) × (get_profiled_latency m' name e.batch e.part
          ≡ some (e.latency, m''))
  setup_table-get_profiled_latency m m' lines e rest name small edge spared alias ends =
      let (m0, m1, added, after) = setup_table-append m m' lines e rest ends in
      let (key, k) = add_entry-key m0 m1 e added in
      get_profiled_latency-stored m' e name key edge alias k (
        setup_table-IsStored m1 m' e rest key small k spared after
          (add_entry-makes m0 m1 e key k added))
