-- ===== src/Service/Tuning.antt =====
-- Moving averages and self-tuning: src/service/EWMA.cpp and src/common/self_tuning.cpp. `none` is a
-- failed assert, a read of a value that is not set, or a loop that does not end.
pub mod Cut
use glet.Common.{
  ◌>>=◌, ◌>>◌, ℕ, zero, suc, ◌*◌, Bool, true, false, not, ◌&&◌, ◌||◌, Option, none, some, List, [],
  ◌∷◌, leb, ltb, ◌==◌, if◌then◌else◌, assert, length, lookup, insert, lookup_or, nat_key, sum,
  is_empty,
}
use glet.Common.Int.{ℤ, pos, negsuc, pos_part, ◌+ℤ◌, ◌-ℤ◌, ◌/ℤ◌, ltb_ℤ, leb_ℤ}
use glet.Float.{Float}
use glet.Scheduler.Choose.{sort_asc}

-- The class `EWMA`; `_last_timestamp` is never read.
pub record Ewma (F : Type 0) : Type 0 where
  pub alpha : F
  pub rate : F
  pub interval_ms : ℕ

module _ {F : Type 0} ⦃R : Float F⦄ where
  open R use {of_int, lit, add, sub, mul, div, eq, le, lt, trunc}

  -- `std::max` and `abs_float`.
  unfoldable pub max_float : F → F → F
  max_float a b = if lt a b then b else a

  unfoldable pub abs_float : F → F
  abs_float x = if le (lit 0 0) x then x else sub (lit 0 0) x

  -- The constructor of `EWMA`.
  unfoldable pub make_ewma : (monitor_interval_ms query_interval_ms : ℕ) → Option (Ewma F)
  unfolding max_float
  make_ewma monitor query = do
    let n = max_float (div (of_int (pos query)) (of_int (pos monitor))) (lit 1 0)
    let alpha = div (lit 2 0) (add n (lit 1 0))
    assert (le (lit 0 0) alpha && le alpha (lit 1 0))
    some (record { alpha = alpha; rate = lit 0 0; interval_ms = monitor })

  -- `UpdateValue`, whose missing return no caller reads.
  unfoldable pub update_value : Ewma F → F → Ewma F
  update_value e value = record e {
    rate = add (mul e.alpha value) (mul (sub (lit 1 0) e.alpha) e.rate);
  }

  unfoldable pub update_rate : Ewma F → (cnt : ℕ) → Ewma F
  unfolding update_value
  update_rate e cnt =
      update_value e (div (mul (of_int (pos cnt)) (lit 1000 0)) (of_int (pos e.interval_ms)))

  unfoldable pub setup_alpha : Ewma F → F → Option (Ewma F)
  setup_alpha e alpha = do
    assert (le (lit 0 0) alpha && le alpha (lit 1 0))
    some (record e { alpha = alpha })

  unfoldable pub init_rate : Ewma F → F → Ewma F
  init_rate e rate = record e { rate = rate }

  -- `GetNewGPUPart`. The part is not set where neither residual is above 0 nor one at most 0, as with NaN.
  unfoldable pub get_new_gpu_part :
      (curr_gpu_part : ℤ) → (rate : F) → (slo : ℤ) → (avg_trpt avg_latency : F) → Option ℤ
  unfolding max_float abs_float
  get_new_gpu_part curr rate slo avg_trpt avg_latency =
      let res_lat = sub (of_int slo) avg_latency in
      let res_trpt = sub avg_trpt rate in
      let diff_lat = mul (div res_lat (of_int slo)) (lit 100 0) in
      let diff_trpt = mul (div res_trpt rate) (lit 100 0) in
      let factor = div (max_float (abs_float diff_lat) (abs_float diff_trpt)) (lit 100 0) in
      let change = trunc (mul factor (of_int curr)) in
      if lt (lit 0 0) diff_lat
        && lt diff_lat (lit 5 0)
        && (lt (lit 0 0) diff_trpt && lt diff_trpt (lit 5 0))
      then some curr
      else if lt (lit 0 0) res_lat && lt (lit 0 0) res_trpt
      then some (curr -ℤ change)
      else if le res_lat (lit 0 0) || le res_trpt (lit 0 0)
      then some (curr +ℤ change)
      else none

  -- `GetNextBatchSize`, between 1 and `_MAX_BATCH`.
  unfoldable pub get_next_batch_size : (curr_batch slo : ℤ) → (avg_latency : F) → ℤ
  unfolding max_float
  get_next_batch_size curr slo avg_latency =
      let res_lat =
        max_float (div (sub (of_int slo) avg_latency) (of_int slo)) (sub (lit 0 0) (lit 1 0)) in
      let new_batch = trunc (add (of_int curr) (mul res_lat (of_int curr))) in
      let capped = if ltb_ℤ new_batch (pos 32) then new_batch else pos 32 in
      if eq avg_latency (lit 0 0) then curr else if ltb_ℤ (pos 1) capped then capped else pos 1

-- `getNextLargestPart`: the first part that is large enough, or the last part.
unfoldable pub next_from : (part last : ℕ) → List ℕ → ℕ
next_from part last [] = last
next_from part last (p ∷ ps) = let rest = next_from part p ps in if leb part p then p else rest

unfoldable pub get_next_largest_part : ℕ → List ℕ → Option ℕ
unfolding next_from
get_next_largest_part part [] = none
get_next_largest_part part (p ∷ ps) = some (next_from part p (p ∷ ps))

-- The loop that cuts a demand into available parts.
unfoldable pub cut : (fuel : ℕ) → (avail_parts : List ℕ) → (original_part : ℤ) → Option (List ℕ)
unfolding get_next_largest_part
cut fuel avail (negsuc n) = some []
cut fuel avail (pos zero) = some []
cut zero avail (pos (suc n)) = none
cut (suc fuel) avail (pos (suc n)) = elim (get_next_largest_part (suc n) avail) [
  | none ↦ none
  | some part ↦ elim (cut fuel avail (pos (suc n) -ℤ pos part)) [
    | none ↦ none
    | some parts ↦ some (part ∷ parts)
  ]
]

-- A demand, capped at the average; each part takes at least 1, so its size is fuel enough.
unfoldable pub cut_fairly : (avail_parts : List ℕ) → (avg_part : ℤ) → ℕ → Option (List ℕ)
unfolding cut
cut_fairly avail avg original =
    let demand = if ltb_ℤ avg (pos original) then avg else pos original in
    cut (pos_part demand) avail demand

-- The loop of `AllocateMinMaxFair` over the models in ascending order of demand: the parts of each, and
-- the new demands, which are written back to the argument. `remaining` counts the models that are left.
unfoldable pub allocate_fairly :
    (avail_parts : List ℕ) (avail_sum avg_part : ℤ)
    → List (ℕ × ℕ)
    → List (ℕ × List ℕ)
    → List (ℕ × ℕ)
    → Option (List (ℕ × List ℕ) × List (ℕ × ℕ))
unfolding cut_fairly insert
allocate_fairly avail avail_sum avg [] result demands = some (result, demands)
allocate_fairly avail avail_sum avg ((id, original) ∷ models) result demands =
    elim (cut_fairly avail avg original) [
      | none ↦ none
      | some parts ↦
          let left = avail_sum -ℤ pos (sum parts) in
          allocate_fairly avail left (if is_empty models then avg else left /ℤ pos (length models))
            models (insert id parts result) (insert id (sum parts) demands)
    ]

-- `AllocateMinMaxFair`: the models come in the order in which `std::sort` with `cmp_pair` leaves them; no
-- model divides by zero.
unfoldable pub allocate_min_max_fair :
    (num_of_gpu : ℕ) (sort : List (ℕ × ℕ) → List (ℕ × ℕ)) (per_model_new_parts : List (ℕ × ℕ))
    (avail_parts : List ℕ)
    → Option (List (ℕ × List ℕ) × List (ℕ × ℕ))
unfolding allocate_fairly sort_asc
allocate_min_max_fair num_of_gpu sort demands avail = do
  assert (not (is_empty demands))
  let total = pos (num_of_gpu * 100)
  allocate_fairly (sort_asc avail) total (total /ℤ pos (length demands)) (sort demands) [] demands
