-- ===== src/Scheduler/Adjust.antt =====
-- Shrinking batches after a neighbour was added: `adjustResNode`, `adjustSatNode` and
-- `postAdjustInterference` of src/scheduler/scheduler_base.cpp. `none` is an abort.
pub mod Shrink
pub mod Written
use glet.Common.{
  ℕ, zero, suc, ◌+◌, ◌*◌, Bool, true, false, not, ◌&&◌, Option, none, some, List, [], ◌∷◌, ◌==◌,
  if◌then◌else◌, all, assert, ◌>>=◌, ◌>>◌, length,
}
use glet.Common.Int.{ℤ, pos, ◌+ℤ◌, ltb_ℤ}
use glet.Float.{Float}
use glet.Scheduler.State.{Task, Node, SimState, Store, Config, Exit, success, failure}
use glet.Scheduler.Latency.{get_latency, get_latency_in}
use glet.Scheduler.Nodes.{set_node, set_task}

module _ {F : Type 0} ⦃R : Float F⦄ where
  open R use {of_int, lit, add, sub, mul, div, eq, le, lt, trunc}

  -- `latency_sum` over the tasks of a node, at their batch sizes.
  unfoldable pub latency_sum : Config F → Store F → Node F → SimState → F → List ℕ → Option F
  unfolding get_latency_in
  latency_sum c s node sim acc [] = some acc
  latency_sum c s node sim acc (t ∷ ts) =
      elim (get_latency_in c s node.type (s.tasks t).id (s.tasks t).batch_size node sim) [
        | none ↦ none
        | some l ↦ latency_sum c s node sim (add acc l) ts
      ]

  -- The `while` loop of `adjustResNode` for one task, over `new_batch_size`: the batch and the duty cycle,
  -- or `none` inside when the batch reached 0 (`EXIT_FAILURE`).
  unfoldable pub shrink_res :
      (ℕ → Option F)
      → (slo other_latency : F) → (batch_size : ℕ) → ℕ
      → (latency duty_cycle : F) → Option (Option (ℕ × F))
  shrink_res latency_of slo other batch_size zero latency duty_cycle =
      if lt slo (add (add other latency) duty_cycle) then none else some (some (0, duty_cycle))
  shrink_res latency_of slo other batch_size (suc new_batch) latency duty_cycle =
      if lt slo (add (add other latency) duty_cycle)
      then (if new_batch == 0 then some none else elim (latency_of new_batch) [
        | none ↦ none
        | some latency' ↦
            shrink_res latency_of slo other batch_size new_batch latency'
              (mul duty_cycle (div (of_int (pos new_batch)) (of_int (pos batch_size))))
      ])
      else some (some (suc new_batch, duty_cycle))

  -- The loop over the tasks that gathers `new_batches` and `min_duty_cycles`.
  unfoldable pub shrink_tasks :
      Config F → Store F → Node F → SimState → F → List ℕ → Option (Option (List (ℕ × F)))
  unfolding shrink_res
  shrink_tasks c s node sim sum [] = some (some [])
  shrink_tasks c s node sim sum (t ∷ ts) =
      let task = s.tasks t in
      let latency_of = λ (b : ℕ). get_latency_in c s node.type task.id b node sim in
      let rest = shrink_tasks c s node sim sum ts in
      do
        latency ← latency_of task.batch_size
        found ←
            shrink_res latency_of (of_int task.slo) (sub sum latency) task.batch_size
              task.batch_size latency node.duty_cycle
        elim found [
          | none ↦ some none
          | some x ↦ elim rest [
            | none ↦ none
            | some none ↦ some none
            | some (some xs) ↦ some (some (x ∷ xs))
          ]
        ]

  -- The first of the sorted duty cycles.
  unfoldable pub min_duty : F → List (ℕ × F) → F
  min_duty best [] = best
  min_duty best ((b, d) ∷ xs) = min_duty (if lt d best then d else best) xs

  -- The loop that writes the new batches, and the sum of the new latencies.
  unfoldable pub write_batches :
      Config F → Store F → ℕ → SimState → F → F → List ℕ → List (ℕ × F) → Option (F × Store F)
  unfolding get_latency_in set_task
  write_batches c s n sim duty sum [] xs = some (sum, s)
  write_batches c s n sim duty sum (t ∷ ts) [] = none
  write_batches c s n sim duty sum (t ∷ ts) ((b, d) ∷ xs) =
      let s' =
        set_task s t (record (s.tasks t) {
          batch_size = b;
          throughput = div (of_int (pos (1000 * b))) duty;
        }) in
      elim (get_latency_in c s' (s'.nodes n).type (s'.tasks t).id b (s'.nodes n) sim) [
        | none ↦ none
        | some l ↦ write_batches c s' n sim duty (add sum l) ts xs
      ]

  -- Whether every task keeps its SLO with five percent of slack.
  unfoldable pub good_to_go : Store F → Node F → F → Bool
  unfolding all
  good_to_go s node sum =
      all (λ t. not (lt (mul (of_int (s.tasks t).slo) (lit 105 2)) (add sum node.duty_cycle)))
        node.task_list

  unfoldable pub adjust_res_node : Config F → Store F → ℕ → SimState → Option (Exit × Store F)
  unfolding set_node
  adjust_res_node c s n sim = do
    let node = s.nodes n
    sum ← latency_sum c s node sim (lit 0 0) node.task_list
    if good_to_go s node sum
        then some (success, s)
        else elim (shrink_tasks c s node sim sum node.task_list) [
          | none ↦ none
          | some none ↦ some (failure, s)
          | some (some []) ↦ none
          | some (some ((b, d) ∷ xs)) ↦ do
            let duty = min_duty d xs
            (sum', s') ← write_batches c s n sim duty (lit 0 0) node.task_list ((b, d) ∷ xs)
            some (
              success,
              set_node s' n (record (s'.nodes n) { duty_cycle = duty; occupancy = div sum' duty }),
            )
        ]

  -- The `while` loop of `adjustSatNode`.
  unfoldable pub shrink_sat :
      (ℕ → Option F) → F → ℕ → (latency duty_cycle : F) → Option (Option (ℕ × F))
  shrink_sat latency_of slo zero latency duty_cycle =
      if lt slo (mul (lit 2 0) latency) then none else some (some (0, duty_cycle))
  shrink_sat latency_of slo (suc new_batch) latency duty_cycle =
      if lt slo (mul (lit 2 0) latency)
      then (if new_batch == 0 then some none else elim (latency_of new_batch) [
        | none ↦ none
        | some latency' ↦ shrink_sat latency_of slo new_batch latency' latency'
      ])
      else some (some (suc new_batch, duty_cycle))

  -- `task_to_update.additional_rate += ...`, on the task behind a pointer.
  unfoldable pub add_rate : Store F → ℕ → ℤ → Store F
  unfolding set_task
  add_rate s t rate =
      set_task s t (record (s.tasks t) { additional_rate = (s.tasks t).additional_rate +ℤ rate })

  -- The branch of `adjustSatNode` that keeps the batch.
  unfoldable pub keep_sat : Store F → ℕ → ℕ → F → Store F
  unfolding set_task add_rate
  keep_sat s t update latency =
      let org = (s.tasks t).throughput in
      let new = div (mul (of_int (pos (s.tasks t).batch_size)) (lit 1000 0)) latency in
      let s' = set_task s t (record (s.tasks t) { throughput = new }) in
      let diff = trunc (sub org new) in
      add_rate s' update (if ltb_ℤ (pos 0) diff then diff else pos 0)

  -- The end of `adjustSatNode`, with the batch and the duty cycle that the loop found.
  unfoldable pub write_sat : Store F → ℕ → ℕ → ℕ → ℕ → F → Store F
  unfolding set_node set_task add_rate
  write_sat s n t update batch duty =
      let org = (s.tasks t).throughput in
      let new = mul (of_int (pos batch)) (div (lit 1000 0) duty) in
      let s1 = set_task s t (record (s.tasks t) { batch_size = batch; throughput = new }) in
      let s2 = set_node s1 n (record (s1.nodes n) { duty_cycle = duty }) in
      add_rate s2 update (if lt new org then trunc (sub org new) else pos 0)

  -- The only task of a node; any other number of tasks fails an `assert`.
  unfoldable pub only_task : Node F → Option ℕ
  only_task node = elim node.task_list [
    | [] ↦ none
    | t ∷ ts ↦ elim ts [ [] ↦ some t | u ∷ us ↦ none ]
  ]

  unfoldable pub adjust_sat_node : Config F → Store F → ℕ → SimState → ℕ → Option (Exit × Store F)
  unfolding get_latency get_latency_in only_task keep_sat shrink_sat write_sat
  adjust_sat_node c s n sim update = do
    let node = s.nodes n
    assert (le (lit 1 0) node.occupancy)
    t ← only_task node
    let task = s.tasks t
    let latency_of = λ (b : ℕ). get_latency_in c s node.type task.id b node sim
    latency ← latency_of task.batch_size
    if lt (mul (lit 2 0) latency) (of_int task.slo)
        then some (success, keep_sat s t update latency)
        else do
          original ← get_latency c node.type task.id task.batch_size node.resource_pntg
          found ← shrink_sat latency_of (of_int task.slo) task.batch_size latency node.duty_cycle
          elim found [
            | none ↦ some (failure, s)
            | some (batch, duty) ↦ do
              assert (not (eq duty (lit 0 0)))
              assert (not (batch == 0))
              some (success, write_sat s n t update batch duty)
          ]

  -- The overload without `task_to_update`, which updates the node's own task.
  unfoldable pub adjust_sat_node_self : Config F → Store F → ℕ → SimState → Option (Exit × Store F)
  unfolding adjust_sat_node only_task
  adjust_sat_node_self c s n sim = do t ← only_task (s.nodes n); adjust_sat_node c s n sim t

  -- `postAdjustInterference`: the first failure ends both loops.
  unfoldable pub post_adjust_nodes :
      Config F → Store F → SimState → List ℕ → Option (Exit × Store F)
  unfolding adjust_res_node
  post_adjust_nodes c s sim [] = some (success, s)
  post_adjust_nodes c s sim (n ∷ ns) = elim (adjust_res_node c s n sim) [
    | none ↦ none
    | some (failure, s') ↦ some (failure, s')
    | some (success, s') ↦ post_adjust_nodes c s' sim ns
  ]

  unfoldable pub post_adjust_interference :
      Config F → Store F → SimState → List ℕ → Option (Exit × Store F)
  unfolding post_adjust_nodes
  post_adjust_interference c s sim [] = some (success, s)
  post_adjust_interference c s sim (g ∷ gs) =
      elim (post_adjust_nodes c s sim (s.gpus g).node_list) [
        | none ↦ none
        | some (failure, s') ↦ some (failure, s')
        | some (success, s') ↦ post_adjust_interference c s' sim gs
      ]
