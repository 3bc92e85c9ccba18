-- ===== src/Scheduler/Estimate.antt =====
-- How much of a GPU a task needs: `getMaxSaturateTrp`, `initSaturateTrp`, `getMaxReturnPart`,
-- `getMinPart` and `estimateTrp` of src/scheduler/scheduler_incremental.cpp. `none` is an abort.
pub mod ReturnPart
use glet.Common.{
  ◌>>=◌, ◌>>◌, ℕ, zero, suc, ◌+◌, ◌-◌, ◌*◌, Bool, true, false, not, ◌&&◌, ◌||◌, Option, none, some,
  List, [], ◌∷◌, ◌++◌, String, str_eq, ltb, leb, ◌==◌, if◌then◌else◌, assert, lookup, insert,
  lookup_or, nat_key, is_empty, length,
}
use glet.Common.Int.{ℤ, pos, ◌-ℤ◌, leb_ℤ}
use glet.Float.{Float}
use glet.Scheduler.State.{Task, Node, SimState, Store, Config, max_batch, trp_slack}
use glet.Scheduler.Latency.{get_latency}
use glet.Scheduler.Nodes.{new_node, new_task, make_empty_node}
use glet.Scheduler.MaxBatch.{get_max_batch}

-- `SatTrpEntry`: what one part of one type of GPU serves when it is saturated.
pub record SatTrpEntry (F : Type 0) : Type 0 where
  pub type : String
  pub part : ℕ
  pub sat_trp : F
  pub max_batch : ℕ

abbrev dummy_sim : SimState
dummy_sim = record { gpu_list = []; parts = []; next_dummy_id = 0 }

module _ {F : Type 0} ⦃R : Float F⦄ where
  open R use {of_int, lit, add, sub, mul, div, lt, trunc}

  -- `getMaxSaturateTrp` over the table of the task: the last entry that matches.
  unfoldable pub get_max_saturate_trp : List (SatTrpEntry F) → ℕ → String → Option (F × ℕ)
  get_max_saturate_trp [] part type = none
  get_max_saturate_trp (e ∷ table) part type = elim (get_max_saturate_trp table part type) [
    | some found ↦ some found
    | none ↦ if part == e.part && str_eq type e.type then some (e.sat_trp, e.max_batch) else none
  ]

  -- One part of `initSaturateTrp`; `none` inside is its return without a table.
  unfoldable pub saturate_entry :
      Config F → Store F → Task F → String → ℕ → Option (Option (SatTrpEntry F × ℤ))
  unfolding make_empty_node get_max_batch get_latency
  saturate_entry c s task type part = do
    let node : Node F = make_empty_node 0 part type
    (found, rate) ← get_max_batch c s task node dummy_sim task.request_rate false false
    single ← if found == 0 then get_latency c type task.id 1 part else some (lit 0 0)
    if found == 0 && not (lt (of_int task.slo) (mul (lit 2 0) single)) then some none else do
      let batch = if found == 0 then 1 else found
      latency ← get_latency c type task.id batch part
      let trp = div (mul (of_int (pos batch)) (lit 1000 0)) latency
      some (some (record { type = type; part = part; sat_trp = trp; max_batch = batch }, rate))

  unfoldable pub saturate_parts :
      Config F → Store F → Task F → String → List ℕ → Option (Option (List (SatTrpEntry F)))
  unfolding saturate_entry
  saturate_parts c s task type [] = some (some [])
  saturate_parts c s task type (part ∷ parts) = elim (saturate_entry c s task type part) [
    | none ↦ none
    | some none ↦ some none
    | some (some (entry, rate)) ↦
        elim (saturate_parts c s (record task { request_rate = rate }) type parts) [
          | none ↦ none
          | some none ↦ some none
          | some (some entries) ↦ some (some (entry ∷ entries))
        ]
  ]

  -- The loops over the types and the parts. A saturated search leaves the rate as it is.
  unfoldable pub init_saturate_trp :
      Config F → Store F → Task F → List (String × ℕ) → Option (Option (List (SatTrpEntry F)))
  unfolding saturate_parts
  init_saturate_trp c s task [] = some (some [])
  init_saturate_trp c s task ((type, num) ∷ types) =
      elim (saturate_parts c s task type c.avail_parts) [
        | none ↦ none
        | some none ↦ some none
        | some (some entries) ↦ elim (init_saturate_trp c s task types) [
          | none ↦ none
          | some none ↦ some none
          | some (some more) ↦ some (some (entries ++ more))
        ]
      ]

  -- `per_part_trp`.
  unfoldable pub per_part_trp :
      List (SatTrpEntry F) → String → List ℕ → List (ℕ × F) → Option (List (ℕ × F))
  unfolding get_max_saturate_trp insert
  per_part_trp table device [] trps = some trps
  per_part_trp table device (part ∷ parts) trps = elim (get_max_saturate_trp table part device) [
    | none ↦ none
    | some (trp, batch) ↦ per_part_trp table device parts (insert part trp trps)
  ]

  -- A round of the loop of `getMaxReturnPart`: `max_ret` and `max_part`.
  unfoldable pub return_round : List (ℕ × F) → (high_part low_part : ℕ) → F × ℕ → F × ℕ
  unfolding lookup_or
  return_round trps high_part low_part (max_ret, max_part) =
      let low_trp = lookup_or (lit 0 0) low_part trps in
      let high_trp = lookup_or (lit 0 0) high_part trps in
      let ret = div (sub high_trp low_trp) (of_int (pos high_part -ℤ pos low_part)) in
      if lt (div high_trp low_trp) (lit 105 2)
      then (max_ret, max_part)
      else if lt max_ret ret
      then (ret, high_part)
      else (max_ret, max_part)

  -- The loop runs from the last part down to index 2, so over the parts without the first one: the later
  -- pairs come first, and `max_part` starts as the last part.
  unfoldable pub return_loop : List (ℕ × F) → ℕ → List ℕ → F × ℕ
  unfolding return_round
  return_loop trps part [] = (lit 0 0, part)
  return_loop trps part (low ∷ parts) = return_round trps part low (return_loop trps low parts)

  unfoldable pub get_max_return_part : Config F → List (SatTrpEntry F) → String → Option ℕ
  unfolding per_part_trp return_loop
  get_max_return_part c table device = elim c.avail_parts [
    | [] ↦ none
    | first ∷ parts ↦ elim parts [
      | [] ↦ some first
      | second ∷ rest ↦ do
        trps ← per_part_trp table device (first ∷ second ∷ rest) []
        some (return_loop trps second rest).1
    ]
  ]

  -- The loop of `getMinPart`; `first` is the first of the available parts.
  unfoldable pub min_part_loop :
      Config F → Task F → String → (local_max_part batch first : ℕ) → ℤ → ℕ → List ℕ → Option ℕ
  unfolding get_latency
  min_part_loop c task device local_max_part batch first rate prev_part [] = some prev_part
  min_part_loop c task device local_max_part batch first rate prev_part (part ∷ parts) =
      let more =
        λ (prev : ℕ). min_part_loop c task device local_max_part batch first rate prev parts in
      if ltb local_max_part part
      then more prev_part
      else elim (get_latency c device task.id batch part) [
        | none ↦ none
        | some latency ↦
            let duty_cycle = div (mul (of_int (pos batch)) (lit 1000 0)) (of_int rate) in
            if lt duty_cycle latency
            then some (if part == first then part else prev_part)
            else if lt (of_int task.slo) (add latency duty_cycle)
            then some prev_part
            else more part
      ]

  -- The part, the rate and the batch; `none` inside is the return of 0, with no batch.
  unfoldable pub get_min_part :
      Config F → Store F → String → Task F → Node F → ℤ → Option (Option (ℕ × ℤ × ℕ))
  unfolding make_empty_node get_max_batch min_part_loop
  get_min_part c s device task node residue_rate = elim c.avail_parts [
    | [] ↦ none
    | first ∷ parts ↦ do
      let local_max_part = if leb first node.resource_pntg then first else node.resource_pntg
      let temp_node : Node F = make_empty_node node.id local_max_part node.type
      (batch, rate) ← get_max_batch c s task temp_node dummy_sim residue_rate true false
      if batch == 0 then some none else do
        assert (leb 1 batch && leb batch max_batch)
        part ←
            min_part_loop c task device local_max_part batch first rate local_max_part
              (first ∷ parts)
        some (some (part, rate, batch))
  ]

  -- `createNewTaskPtr` of src/common/scheduler_utils.cpp.
  unfoldable pub create_new_task : (id : ℕ) → (request_rate slo : ℤ) → (batch_size : ℕ) → F → Task F
  create_new_task id request_rate slo batch_size throughput = record {
    id = id;
    request_rate = request_rate;
    org_rate = pos 0;
    additional_rate = pos 0;
    slo = slo;
    batch_size = batch_size;
    throughput = throughput;
  }

  -- The node of `estimateTrp` with its only task, under fresh pointers.
  unfoldable pub make_estimate : Store F → Task F → Node F → ℕ × Store F
  unfolding new_task new_node
  make_estimate s task node =
      let (t, s') = new_task s task in new_node s' (record node { task_list = t ∷ [] })

  -- The saturated node, and what is left of the rate.
  unfoldable pub estimate_saturated :
      Config F
      → Store F
      → List (SatTrpEntry F)
      → String
      → Task F
      → ℤ
      → (len max_part : ℕ) → Option (ℕ × ℤ × Store F)
  unfolding get_max_saturate_trp make_empty_node create_new_task get_latency make_estimate
  estimate_saturated c s table device task rate len max_part = do
    (sat_trp, sat_batch) ← get_max_saturate_trp table max_part device
    duty_cycle ← get_latency c device task.id sat_batch max_part
    let (n, s') =
        make_estimate s (create_new_task task.id rate task.slo sat_batch sat_trp)
          (record (make_empty_node len max_part device) {
            occupancy = lit 1 0;
            duty_cycle = duty_cycle;
          })
    some (n, trunc (sub (of_int rate) sat_trp), s')

  -- The residue node.
  unfoldable pub estimate_residue :
      Config F → Store F → String → Task F → ℤ → (len max_part : ℕ) → Option (ℕ × Store F)
  unfolding get_min_part make_empty_node create_new_task get_latency make_estimate
  estimate_residue c s device task rate len max_part = do
    let node : Node F = make_empty_node len max_part device
    found ← get_min_part c s device task node rate
    (min_part, rate', batch) ← found
    latency ← get_latency c device task.id batch min_part
    let gather = mul (of_int (pos batch)) (div (lit 1000 0) (of_int rate'))
    let duty_cycle = if lt gather latency then latency else gather
    let trp = div (mul (of_int (pos batch)) (lit 1000 0)) duty_cycle
    some (
        make_estimate s (create_new_task task.id rate' task.slo batch trp) (record node {
          resource_pntg = min_part;
          occupancy = div latency duty_cycle;
          duty_cycle = duty_cycle;
        }))

  -- `estimateTrp` without self-tuning; the fuel bounds the recursive calls.
  unfoldable pub estimate_trp :
      ℕ
      → Config F
      → Store F
      → List (SatTrpEntry F)
      → String
      → Task F
      → ℤ
      → List ℕ
      → Option (List ℕ × Store F)
  unfolding get_max_return_part get_max_saturate_trp estimate_saturated estimate_residue
  estimate_trp zero c s table device task rate output = none
  estimate_trp (suc fuel) c s table device task rate output =
      if leb_ℤ rate (pos trp_slack)
      then some (output, s)
      else elim (get_max_return_part c table device) [
        | none ↦ none
        | some max_part ↦ elim (get_max_saturate_trp table max_part device) [
          | none ↦ none
          | some (limit, batch) ↦ elim (lt limit (of_int rate)) [
            | true ↦ elim (estimate_saturated c s table device task rate (length output) max_part) [
              | none ↦ none
              | some (n, left, s') ↦
                  estimate_trp fuel c s' table device task left (output ++ n ∷ [])
            ]
            | false ↦ elim (estimate_residue c s device task rate (length output) max_part) [
              | none ↦ none
              | some (n, s') ↦ some (output ++ n ∷ [], s')
            ]
          ]
        ]
      ]
