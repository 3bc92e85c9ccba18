-- ===== src/Scheduler/MaxBatch.antt =====
-- `getMaxBatch` of src/scheduler/scheduler_base.cpp: a binary search for the largest batch that meets
-- the SLO.
pub mod Search
pub mod Largest
use glet.Common.{
  ◌>>=◌, ◌>>◌, ℕ, zero, suc, ◌+◌, ◌/◌, Bool, true, false, not, ◌&&◌, ◌||◌, Option, none, some, leb,
  ◌==◌, if◌then◌else◌,
}
use glet.Common.Int.{ℤ, pos}
use glet.Float.{Float}
use glet.Scheduler.State.{Task, Node, SimState, Store, Config, max_batch}
use glet.Scheduler.Latency.{get_latency, get_latency_in}

-- A round of the loop returns a batch or goes on with `low_batch`, `high_batch` and `check_last`.
pub data Round : Type 0 where
  done : ℕ → Round
  next : (low_batch high_batch : ℕ) → (check_last : Bool) → Round

-- The end of a round. `high_batch - low_batch <= 1` is an order between numbers that never cross.
unfoldable pub close_round : ℕ → ℕ → Bool → Round
close_round low high check_last =
    let high' = if leb high (low + 1) then low else high in
    if high' == low
    then (if not (low == 1)
        then done low
        else if check_last
        then done low
        else next low high' check_last)
    else next low high' check_last

-- One round, given whether a batch meets the SLO.
unfoldable pub search_round : (ℕ → Option Bool) → ℕ → ℕ → Bool → Option Round
unfolding close_round
search_round fits low high check_last =
    let last = check_last || (low == 1 && high == 1) in
    let mid = (high + low) / 2 in
    elim (fits mid) [
      | none ↦ none
      | some true ↦ some (close_round mid high last)
      | some false ↦ if last then some (done 0) else some (close_round low mid last)
    ]

unfoldable pub search : ℕ → (ℕ → Option Bool) → ℕ → ℕ → Bool → Option ℕ
unfolding search_round
search zero fits low high check_last = none
search (suc fuel) fits low high check_last = elim (search_round fits low high check_last) [
  | none ↦ none
  | some (done batch) ↦ some batch
  | some (next low' high' last) ↦ search fuel fits low' high' last
]

module _ {F : Type 0} ⦃R : Float F⦄ where
  open R use {of_int, lit, add, sub, mul, div, le, lt, trunc}

  -- The two forms of the latency of a batch that the loop chooses between.
  unfoldable pub batch_latency :
      Config F → Store F → Task F → Node F → SimState → Bool → ℕ → Option F
  unfolding get_latency get_latency_in
  batch_latency c s task node sim interference batch =
      if interference
      then get_latency_in c s node.type task.id batch node sim
      else get_latency c node.type task.id batch node.resource_pntg

  -- The test of the loop: a residue node must gather the batch and run it, a saturated one must run it
  -- twice, within the SLO.
  unfoldable pub meets_slo : Task F → ℤ → Bool → ℕ → F → Bool
  meets_slo task req is_residue batch latency =
      if is_residue
      then le (add latency (div (mul (lit 1000 0) (of_int (pos batch))) (of_int req)))
          (of_int task.slo)
      else le (mul (lit 2 0) latency) (of_int task.slo)

  unfoldable pub fits :
      Config F → Store F → Task F → Node F → SimState → ℤ → Bool → Bool → ℕ → Option Bool
  unfolding batch_latency meets_slo
  fits c s task node sim req is_residue interference batch = do
    latency ← batch_latency c s task node sim interference batch
    some (meets_slo task req is_residue batch latency)

  -- The special case of a residue whose rate is too low to gather a batch: batch 1, at a rate for
  -- which it does. The result is the batch and the new value of `req`.
  unfoldable pub small_rate : Config F → Store F → Task F → Node F → SimState → ℤ → Option (ℕ × ℤ)
  unfolding get_latency_in
  small_rate c s task node sim req = do
    b1_latency ← get_latency_in c s node.type task.id 1 node sim
    some (
        if lt b1_latency (div (lit 1000 0) (of_int req)) && lt b1_latency (of_int task.slo)
        then (1, trunc (mul (div (lit 1000 0) (sub (of_int task.slo) b1_latency)) c.latency_ratio))
        else (0, req))

  unfoldable pub get_max_batch :
      Config F → Store F → Task F → Node F → SimState → ℤ → Bool → Bool → Option (ℕ × ℤ)
  unfolding search fits small_rate
  get_max_batch c s task node sim req is_residue interference = do
    batch ←
        search (max_batch + 1) (fits c s task node sim req is_residue interference) 1 max_batch
          false
    if batch == 0 && is_residue then small_rate c s task node sim req else some (batch, req)
