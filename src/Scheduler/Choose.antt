-- ===== src/Scheduler/Choose.antt =====
-- Which type of GPU a task gets, and its estimate: `getEstimateTrpST`, `getMinPartSum`, `getEstimate`,
-- `checkTypePriority` and `getNodewithPriorityType` of src/scheduler/scheduler_incremental.cpp. `none` is
-- an abort. The parameter `MAX_PART`, which none of them reads, is left out.
use glet.Common.{
  ◌>>=◌, ◌>>◌, ℕ, suc, ◌+◌, ◌-◌, Bool, true, false, not, ◌&&◌, Option, none, some, List, [], ◌∷◌,
  ◌++◌, String, str_eq, ltb, leb, ◌==◌, if◌then◌else◌, assert, lookup_or, nat_key, length,
}
use glet.Common.Int.{ℤ, pos, pos_part, ◌-ℤ◌, leb_ℤ, ltb_ℤ}
use glet.Common.Loops.{Next, ends, again, loop, run}
use glet.Float.{Float}
use glet.Scheduler.State.{Task, Store, Config, trp_slack}
use glet.Scheduler.Latency.{get_latency}
use glet.Scheduler.Nodes.{make_empty_node}
use glet.Scheduler.Estimate.{
  SatTrpEntry, get_max_saturate_trp, get_max_return_part, create_new_task, make_estimate,
  estimate_trp,
}

-- The fields of `IncrementalScheduler` that are not in `Config`: the tables of saturated throughput,
-- by model, and the type that is preferred. `networks` are the bytes of an input of each model in the
-- network checker, and `checks_network` is `_isNLCInitated`.
pub record Planner (F : Type 0) : Type 0 where
  pub sat_tables : List (ℕ × List (SatTrpEntry F))
  pub priority_check : Bool
  pub priority_type : String
  pub checks_network : Bool
  pub networks : List (ℕ × ℕ)

-- The table of a model; where it has none, the source has a null pointer, and an empty table stands for
-- it here, in which a search aborts as well.
unfoldable pub table_of : {F : Type 0} → Planner F → ℕ → List (SatTrpEntry F)
unfolding lookup_or
table_of p model_id = lookup_or [] model_id p.sat_tables

-- The sort of `getEstimateTrpST`, in ascending order.
unfoldable pub insert_asc : ℕ → List ℕ → List ℕ
insert_asc p [] = p ∷ []
insert_asc p (q ∷ qs) = let rest = insert_asc p qs in if leb p q then p ∷ q ∷ qs else q ∷ rest

unfoldable pub sort_asc : List ℕ → List ℕ
unfolding insert_asc
sort_asc [] = []
sort_asc (p ∷ ps) = insert_asc p (sort_asc ps)

-- `_min_parts`, `same_min` and `output` of `getMinPartSum`.
pub record Least : Type 0 where
  pub min_parts : ℕ
  pub same_min : Bool
  pub output : String

unfoldable pub least_sum : Least → List (String × ℕ) → Least
least_sum l [] = l
least_sum l ((type, total) ∷ sums) =
    let same = if l.min_parts == total then true else l.same_min in
    least_sum
      (if ltb total l.min_parts
        then record { min_parts = total; same_min = same; output = type }
        else record l { same_min = same })
      sums

module _ {F : Type 0} ⦃R : Float F⦄ where
  open R use {of_int, lit, add, mul, div, lt, trunc}

  -- `max_trp`, `max_batch` and `max_part` of one search through the parts.
  unfoldable pub find_part :
      List (SatTrpEntry F) → String → ℤ → ℤ × ℕ × ℕ → List ℕ → Option (ℤ × ℕ × ℕ)
  unfolding get_max_saturate_trp
  find_part table device rate best [] = some best
  find_part table device rate best (part ∷ parts) = elim (get_max_saturate_trp table part device) [
    | none ↦ none
    | some (trp, batch) ↦
        let rest = find_part table device rate (trunc trp, batch, part) parts in
        if ltb_ℤ rate (trunc trp) then some (trunc trp, batch, part) else rest
  ]

  unfoldable pub estimate_st_round :
      Config F
      → List (SatTrpEntry F)
      → String
      → Task F
      → ℤ × List ℕ × Store F
      → Option (Next (ℤ × List ℕ × Store F) (List ℕ × Store F))
  unfolding sort_asc find_part make_empty_node get_latency create_new_task make_estimate
  estimate_st_round c table device task (rate, output, s) =
      if leb_ℤ rate (pos 0) then some (ends (output, s)) else do
        (trp, batch, part) ← find_part table device rate (pos 0, 0, 0) (sort_asc c.avail_parts)
        assert (not (leb_ℤ trp (pos 0) && leb_ℤ (pos 0) trp) && not (part == 0))
        latency ← get_latency c device task.id batch part
        let duty = mul (of_int (pos batch)) (div (lit 1000 0) (of_int rate))
        let (n, s') =
            make_estimate s (create_new_task task.id rate task.slo batch (of_int trp))
              (record (make_empty_node (length output) part device) {
                duty_cycle = duty;
                occupancy = div latency duty;
              })
        some (again (rate -ℤ trp, output ++ n ∷ [], s'))

  -- `getEstimateTrpST`: each round takes at least 1 from the rate where no throughput is negative.
  unfoldable pub estimate_trp_st :
      Config F
      → Store F
      → List (SatTrpEntry F)
      → String
      → Task F
      → ℤ
      → List ℕ
      → Option (List ℕ × Store F)
  unfolding estimate_st_round loop
  estimate_trp_st c s table device task rate output =
      run (loop (estimate_st_round c table device task) (suc (pos_part rate)) (rate, output, s))

  -- `estimateTrp`, with its branch for self-tuning.
  unfoldable pub estimate :
      ℕ
      → Config F
      → Store F
      → List (SatTrpEntry F)
      → String
      → Task F
      → ℤ
      → List ℕ
      → Option (List ℕ × Store F)
  unfolding estimate_trp_st estimate_trp
  estimate fuel c s table device task rate output =
      if leb_ℤ rate (pos trp_slack)
      then some (output, s)
      else if c.use_self_tuning
      then estimate_trp_st c s table device task rate output
      else estimate_trp fuel c s table device task rate output

  unfoldable pub part_sum : Store F → List ℕ → ℕ
  part_sum s [] = 0
  part_sum s (n ∷ ns) = (s.nodes n).resource_pntg + part_sum s ns

  -- `part_sum_per_type`; the estimates are thrown away.
  unfoldable pub part_sums :
      ℕ
      → Config F
      → Store F
      → List (SatTrpEntry F)
      → Task F
      → List (String × ℕ)
      → Option (List (String × ℕ) × Store F)
  unfolding estimate part_sum
  part_sums fuel c s table task [] = some ([], s)
  part_sums fuel c s table task ((type, num) ∷ types) =
      elim (estimate fuel c s table type task task.request_rate []) [
        | none ↦ none
        | some (nodes, s') ↦ elim (part_sums fuel c s' table task types) [
          | none ↦ none
          | some (sums, s'') ↦ some ((type, part_sum s' nodes) ∷ sums, s'')
        ]
      ]

  -- How much of a GPU of the type the task would use, cut into the ideal part and the rest.
  unfoldable pub utilization : Config F → List (SatTrpEntry F) → Task F → String → Option F
  unfolding get_max_return_part get_max_saturate_trp
  utilization c table task type = do
    ideal ← get_max_return_part c table type
    (ideal_trp, batch) ← get_max_saturate_trp table ideal type
    (other_trp, batch') ← get_max_saturate_trp table (100 - ideal) type
    some (div (of_int task.request_rate) (add ideal_trp other_trp))

  -- The loop over the types with the least sum: the least utilization wins.
  unfoldable pub best_utilization :
      Config F
      → List (SatTrpEntry F)
      → Task F
      → (min_parts : ℕ) → F × String
      → List (String × ℕ)
      → Option (F × String)
  unfolding utilization
  best_utilization c table task min_parts best [] = some best
  best_utilization c table task min_parts (fit, output) ((type, total) ∷ sums) =
      elim (total == min_parts) [
        | false ↦ best_utilization c table task min_parts (fit, output) sums
        | true ↦ elim (utilization c table task type) [
          | none ↦ none
          | some u ↦
              best_utilization c table task min_parts
                (if lt u fit then (u, type) else (fit, output)) sums
        ]
      ]

  unfoldable pub get_min_part_sum :
      ℕ → Config F → Store F → List (SatTrpEntry F) → Task F → Option (String × Store F)
  unfolding part_sums least_sum best_utilization
  get_min_part_sum fuel c s table task = do
    (sums, s') ← part_sums fuel c s table task c.type_to_num
    let least = least_sum (record { min_parts = 100000; same_min = false; output = "" }) sums
    if least.same_min
        then (do
          (fit, output) ←
              best_utilization c table task least.min_parts (lit 10 0, least.output) sums
          some (output, s'))
        else some (least.output, s')

  unfoldable pub get_estimate :
      ℕ → Config F → Store F → List (SatTrpEntry F) → Task F → Option (List ℕ × Store F)
  unfolding get_min_part_sum estimate
  get_estimate fuel c s table task = do
    (type, s') ← get_min_part_sum fuel c s table task
    estimate fuel c s' table type task task.request_rate []

  unfoldable pub find_type : Store F → String → List ℕ → Option ℕ
  find_type s type [] = none
  find_type s type (n ∷ ns) =
      let rest = find_type s type ns in if str_eq (s.nodes n).type type then some n else rest

  -- `getNodewithPriorityType` and, on its failure, the first of the given nodes.
  unfoldable pub get_node_with_priority_type :
      Config F → Store F → List (SatTrpEntry F) → String → List ℕ → Option ℕ
  unfolding get_max_return_part find_type
  get_node_with_priority_type c s table type given = elim given [
    | [] ↦ none
    | front ∷ rest ↦ do
      ideal_size ← get_max_return_part c table type
      some (elim (find_type s type (front ∷ rest)) [ none ↦ front | some n ↦ n ])
  ]

  -- `checkTypePriority`, or the type with the least sum of parts, and a node of that type.
  unfoldable pub choose_node :
      ℕ → Config F → Planner F → Store F → Task F → List ℕ → Option (ℕ × Store F)
  unfolding table_of get_min_part_sum get_node_with_priority_type
  choose_node fuel c p s task given = do
    let table = table_of p task.id
    (type, s') ←
        if p.priority_check then some (p.priority_type, s) else get_min_part_sum fuel c s table task
    n ← get_node_with_priority_type c s' table type given
    some (n, s')
