-- ===== src/Scheduler/Profile.antt =====
-- The profiled latencies of a type of GPU: `LatencyModel` of src/scheduler/latency_model.cpp. The table
-- changes when it is read: `operator[]` makes an entry of 0 for a key that is not there.
pub mod Pair
pub mod Keys
use glet.Common.{
  ◌>>=◌, ◌>>◌, ℕ, zero, suc, ◌+◌, ◌*◌, ◌/◌, ◌%◌, ◌-◌, Bool, true, false, not, ◌&&◌, ◌||◌, Option,
  none, some, List, [], ◌∷◌, ◌++◌, String, str_eq, ltb, leb, ◌==◌, if◌then◌else◌, any, assert,
  lookup, insert, lookup_or, nat_key, string_key, length, sum,
}
use glet.Common.Int.{pos}
use glet.Float.{Float}

-- A line of the file that `setupTable` reads.
pub record Entry (F : Type 0) : Type 0 where
  pub model : String
  pub part : ℕ
  pub batch : ℕ
  pub latency : F

-- `_perModelLatnecyTable` and `_perModelBatchVec`.
pub record LatencyModel (F : Type 0) : Type 0 where
  pub latency_table : List (String × List (ℕ × F))
  pub batch_vec : List (String × List (ℕ × List ℕ))

-- The key is an `int`; `none` is its overflow.
unfoldable pub make_key : (batch part : ℕ) → Option ℕ
make_key batch part = let key = batch * 1000 + part in if ltb key 2147483648 then some key else none

-- The batch and the part.
unfoldable pub parse_key : ℕ → ℕ × ℕ
parse_key key = (key / 1000, key % 1000)

-- The loop of `findBatchpair` that goes down; below 0 it never ends.
unfoldable pub find_lower : List ℕ → ℕ → Option ℕ
unfolding any
find_lower batches zero = if any (λ b. b == 0) batches then some 0 else none
find_lower batches (suc n) =
    let rest = find_lower batches n in if any (λ b. b == suc n) batches then some (suc n) else rest

-- The loop that goes up. It ends within the sum of the batches if it ends at all.
unfoldable pub find_upper : ℕ → List ℕ → ℕ → Option ℕ
unfolding any
find_upper zero batches n = none
find_upper (suc fuel) batches n =
    let rest = find_upper fuel batches (suc n) in
    if any (λ b. b == suc n) batches then some (suc n) else rest

unfoldable pub find_batch_pair : List ℕ → ℕ → Option (ℕ × ℕ)
unfolding find_lower find_upper
find_batch_pair batches batch = do
  assert (ltb 1 batch && ltb batch 32)
  lower ← find_lower batches batch
  upper ← find_upper (sum batches) batches batch
  some (lower, upper)

-- The least and the largest key, where the source sorts all keys.
unfoldable pub min_key : {F : Type 0} → ℕ → List (ℕ × F) → ℕ
min_key best [] = best
min_key best ((k, v) ∷ m) = min_key (if ltb k best then k else best) m

unfoldable pub max_key : {F : Type 0} → ℕ → List (ℕ × F) → ℕ
max_key best [] = best
max_key best ((k, v) ∷ m) = max_key (if ltb best k then k else best) m

unfoldable pub model_alias : String → String
unfolding any
model_alias model =
    if any (str_eq model) ("lenet1" ∷ "lenet2" ∷ "lenet3" ∷ "lenet4" ∷ "lenet5" ∷ "lenet6" ∷ [])
    then "lenet1"
    else model

module _ {F : Type 0} ⦃R : Float F⦄ where
  open R use {of_int, lit, add, sub, mul, div, eq}

  -- One line of `setupTable`.
  unfoldable pub add_entry : LatencyModel F → Entry F → Option (LatencyModel F)
  unfolding insert lookup_or make_key
  add_entry m e = do
    key ← make_key e.batch e.part
    let batches = lookup_or [] e.model m.batch_vec
    some (record {
      latency_table =
          insert e.model (insert key e.latency (lookup_or [] e.model m.latency_table))
            m.latency_table;
      batch_vec =
          insert e.model (insert e.part (lookup_or [] e.part batches ++ e.batch ∷ []) batches)
            m.batch_vec;
    })

  unfoldable pub setup_table : LatencyModel F → List (Entry F) → Option (LatencyModel F)
  unfolding add_entry
  setup_table m [] = some m
  setup_table m (e ∷ es) = elim (add_entry m e) [ none ↦ none | some m' ↦ setup_table m' es ]

  -- `_perModelLatnecyTable[model]->operator[](key)`.
  unfoldable pub read_entry : LatencyModel F → String → ℕ → F × LatencyModel F
  unfolding lookup_or insert
  read_entry m model key =
      let table = lookup_or [] model m.latency_table in
      let v = lookup_or (lit 0 0) key table in
      (v, record m { latency_table = insert model (insert key v table) m.latency_table })

  -- `getBatchInterpolatedLatency`.
  unfoldable pub interpolate : (b1 b2 batch : ℕ) → (l1 l2 : F) → F
  interpolate b1 b2 batch l1 l2 =
      add (mul (div (sub l2 l1) (of_int (pos (b2 - b1)))) (of_int (pos (batch - b1)))) l1

  unfoldable pub get_batch_interpolated_latency :
      LatencyModel F → String → (batch part : ℕ) → Option (F × LatencyModel F)
  unfolding read_entry make_key find_batch_pair interpolate lookup_or
  get_batch_interpolated_latency m model batch part =
      if batch == 1 || batch == 32
      then (do key ← make_key batch part; some (read_entry m model key))
      else do
        (b1, b2) ← find_batch_pair (lookup_or [] part (lookup_or [] model m.batch_vec)) batch
        key1 ← make_key b1 part
        let (l1, m1) = read_entry m model key1
        key2 ← make_key b2 part
        let (l2, m2) = read_entry m1 model key2
        assert (not (eq l1 (lit 0 0)) && not (eq l2 (lit 0 0)))
        some (interpolate b1 b2 batch l1 l2, m2)

  -- `getBatchPartInterpolatedLatency`.
  unfoldable pub get_batch_part_interpolated_latency :
      LatencyModel F → String → (batch part : ℕ) → Option (F × LatencyModel F)
  unfolding get_batch_interpolated_latency min_key max_key parse_key lookup_or
  get_batch_part_interpolated_latency m model batch part =
      elim (lookup_or [] model m.latency_table) [
        | [] ↦ none
        | (k, v) ∷ table ↦ do
          assert (leb 1 (length table))
          let min_part = (parse_key (min_key k table)).1
          let max_part = (parse_key (max_key k table)).1
          (y1, m1) ← get_batch_interpolated_latency m model 32 min_part
          (y, m2) ← get_batch_interpolated_latency m1 model 32 part
          (y2, m3) ← get_batch_interpolated_latency m2 model 32 max_part
          let b = div (sub y y2) (sub y1 y2)
          (z1, m4) ← get_batch_interpolated_latency m3 model batch min_part
          (z2, m5) ← get_batch_interpolated_latency m4 model batch max_part
          some (add (mul (sub z1 z2) b) z2, m5)
      ]

  -- `getLatency`; an unknown model has latency 0.
  unfoldable pub get_profiled_latency :
      LatencyModel F → String → (batch part : ℕ) → Option (F × LatencyModel F)
  unfolding model_alias lookup make_key get_batch_part_interpolated_latency
      get_batch_interpolated_latency
  get_profiled_latency m name batch part =
      let model = model_alias name in
      if leb 1 batch && leb batch 32
      then elim (lookup model m.latency_table) [
        | none ↦ some (lit 0 0, m)
        | some table ↦ do
          key ← make_key batch part
          elim (lookup key table) [
            | none ↦ get_batch_part_interpolated_latency m model batch part
            | some l ↦ get_batch_interpolated_latency m model batch part
          ]
      ]
      else none
