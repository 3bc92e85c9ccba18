-- ===== src/Scheduler/TimeShare.antt =====
-- Sharing a node between tasks over time: `allocateTimeShare` of
-- src/scheduler/scheduler_incremental.cpp. `none` is an abort.
pub mod Takes
pub mod Ends
use glet.Common.{
  ◌>>=◌, ◌>>◌, ℕ, zero, suc, ◌+◌, Bool, true, false, not, ◌&&◌, ◌||◌, Option, none, some, List, [],
  ◌∷◌, ◌++◌, ltb, leb, ◌==◌, if◌then◌else◌, any, is_empty, length, get_elem?,
}
use glet.Common.Int.{ℤ, pos, negsuc, ◌+ℤ◌, leb_ℤ, ltb_ℤ}
use glet.Common.Loops.{Next, ends, again, loop, run}
use glet.Float.{Float}
use glet.Scheduler.State.{
  Task, Node, SimState, Store, Config, max_batch, trp_slack, is_same_node, Exit, success, failure,
}
use glet.Scheduler.Latency.{get_latency_in}
use glet.Scheduler.Nodes.{set_node, set_task, new_task, push_task}
use glet.Scheduler.Memory.{does_fit_mem_limit, add_gpu_mem_usage}
use glet.Scheduler.Estimate.{create_new_task}

-- `std::sort` on pointers to nodes, with the comparison of the call; ties may come in any order.
abbrev pub SortNodes : Type 0
SortNodes = (ℕ → ℕ → Bool) → List ℕ → List ℕ

-- The batch that a task gathers in the duty cycle, at least 1; a negative one fails an `assert`.
unfoldable pub gathered : (F : Type 0) ⦃R : Float F⦄ → (duty rate : ℤ) → Option ℕ
gathered F ⦃R⦄ duty rate =
    elim (R.trunc (R.div (R.of_int duty) (R.div (R.lit 1000 0) (R.of_int rate)))) [
      | pos n ↦ some (if n == 0 then 1 else n)
      | negsuc n ↦ none
    ]

module _ {F : Type 0} where
  -- `checkContain`.
  unfoldable pub check_contain : Store F → ℕ → Node F → Bool
  unfolding any
  check_contain s model_num node = any (λ t. (s.tasks t).id == model_num) node.task_list

module _ {F : Type 0} ⦃R : Float F⦄ where
  open R use {of_int, lit, add, sub, mul, div, le, lt, trunc}

  -- Whether a node with enough memory becomes a candidate.
  unfoldable pub is_candidate : Config F → Store F → List ℕ → Node F → Bool
  unfolding any is_same_node
  is_candidate c s ts_nodes node =
      if is_empty ts_nodes
      then lt node.occupancy (lit 1 0) && ltb (length node.task_list) c.num_max_model
      else any (λ m. is_same_node node (s.nodes m)) ts_nodes

  unfoldable pub candidates_of_nodes :
      Config F → Store F → ℕ → List ℕ → ℕ → List ℕ → Option (List ℕ)
  unfolding does_fit_mem_limit is_candidate
  candidates_of_nodes c s model_id ts_nodes g [] = some []
  candidates_of_nodes c s model_id ts_nodes g (n ∷ ns) =
      elim (does_fit_mem_limit c s (s.gpus g) model_id (s.nodes n)) [
        | none ↦ none
        | some fits ↦ elim (candidates_of_nodes c s model_id ts_nodes g ns) [
          | none ↦ none
          | some rest ↦
              some (if fits && is_candidate c s ts_nodes (s.nodes n) then n ∷ rest else rest)
        ]
      ]

  unfoldable pub candidates : Config F → Store F → ℕ → List ℕ → List ℕ → Option (List ℕ)
  unfolding candidates_of_nodes
  candidates c s model_id ts_nodes [] = some []
  candidates c s model_id ts_nodes (g ∷ gs) =
      elim (candidates_of_nodes c s model_id ts_nodes g (s.gpus g).node_list) [
        | none ↦ none
        | some here ↦ elim (candidates c s model_id ts_nodes gs) [
          | none ↦ none
          | some rest ↦ some (here ++ rest)
        ]
      ]

  -- The loop that lowers the batch: the batch, or 0, with the last duty cycle and latency.
  unfoldable pub share_batch :
      (ℕ → Option F) → Task F → (occupancy : F) → ℕ → ℤ → F → Option (ℕ × ℤ × F)
  share_batch latency_of task occupancy zero duty latency = some (0, duty, latency)
  share_batch latency_of task occupancy (suc batch) duty latency = elim (latency_of (suc batch)) [
    | none ↦ none
    | some latency' ↦
        let duty' =
          trunc (div (mul (of_int (pos (suc batch))) (lit 1000 0)) (of_int task.request_rate)) in
        let rest = share_batch latency_of task occupancy batch duty' latency' in
        if lt (add (of_int duty') latency') (of_int task.slo)
          && lt (div latency' (of_int duty')) (sub (lit 1 0) occupancy)
        then some (suc batch, duty', latency')
        else rest
  ]

  -- The latencies of the tasks that the node has, added to `sum`.
  unfoldable pub sum_shared : Config F → Store F → SimState → Node F → ℤ → F → List ℕ → Option F
  unfolding gathered get_latency_in
  sum_shared c s sim node duty sum [] = some sum
  sum_shared c s sim node duty sum (t ∷ ts) = elim (gathered F duty (s.tasks t).request_rate) [
    | none ↦ none
    | some batch ↦ elim (get_latency_in c s node.type (s.tasks t).id batch node sim) [
      | none ↦ none
      | some latency ↦ sum_shared c s sim node duty (add sum latency) ts
    ]
  ]

  -- The rounds of a duty cycle exceed the SLO of a task.
  unfoldable pub exceeds : Store F → F → Task F → List ℕ → Bool
  unfolding any
  exceeds s sum task ts = lt (of_int task.slo) sum || any (λ t. lt (of_int (s.tasks t).slo) sum) ts

  -- The new batch of a task that the node had before.
  unfoldable pub rebatched : ℤ → ℕ → Task F → Task F
  rebatched duty batch task =
      let batch' = if ltb max_batch batch then max_batch else batch in
      record task {
        batch_size = batch';
        throughput = div (mul (of_int (pos batch')) (lit 1000 0)) (of_int duty);
      }

  -- A task of the model keeps its batch.
  unfoldable pub rebatched_at : ℕ → ℤ → Task F → Option (Task F)
  unfolding gathered rebatched
  rebatched_at model_id duty task =
      if task.id == model_id
      then some task
      else do batch ← gathered F duty task.request_rate; some (rebatched duty batch task)

  -- The loop that sets the batches of the other tasks and adds up `new_occupancy`.
  unfoldable pub rebatch :
      Config F → Store F → SimState → ℕ → ℕ → ℤ → F → List ℕ → Option (F × Store F)
  unfolding rebatched_at get_latency_in set_task
  rebatch c s sim model_id n duty occupancy [] = some (occupancy, s)
  rebatch c s sim model_id n duty occupancy (t ∷ ts) = do
    task ← rebatched_at model_id duty (s.tasks t)
    let s' = set_task s t task
    latency ← get_latency_in c s' (s'.nodes n).type task.id task.batch_size (s'.nodes n) sim
    rebatch c s' sim model_id n duty (add occupancy (div latency (of_int duty))) ts

  -- The new task on the node `n`, and what is left of the rate of the task `t`.
  unfoldable pub push_share : Store F → ℕ → ℕ → ℕ → ℤ → Store F
  unfolding create_new_task new_task push_task set_task
  push_share s t n batch duty =
      let task = s.tasks t in
      let throughput = mul (of_int (pos batch)) (div (lit 1000 0) (of_int duty)) in
      let (u, s1) =
        new_task s (create_new_task task.id task.request_rate task.slo batch throughput) in
      let s2 = push_task s1 n u in
      let left = sub (of_int task.request_rate) throughput in
      set_task s2 t
        (record (s2.tasks t) { request_rate = if lt (lit 0 0) left then trunc left else pos 0 })

  -- The update of the node `n` and of the task `t`, once the batch is found.
  unfoldable pub share : Config F → Store F → SimState → ℕ → ℕ → ℕ → ℤ → Option (Store F)
  unfolding set_node
  share c s sim t n batch duty = do
    let model_id = (s.tasks t).id
    let s1 = push_share s t n batch duty
    g ← get_elem? sim.gpu_list (s1.nodes n).id
    (charged, s2) ← add_gpu_mem_usage c s1 g model_id n
    (occupancy, s3) ← rebatch c s2 sim model_id n duty (lit 0 0) (s2.nodes n).task_list
    some (set_node s3 n (record (s3.nodes n) { duty_cycle = of_int duty; occupancy = occupancy }))

  -- The batch and the duty cycle with which the candidate can take the task; `none` inside means that the
  -- loop goes on to the next candidate. A negative `max_batch` leaves the duty cycle unset.
  unfoldable pub shared_batch : Config F → Store F → SimState → ℕ → ℕ → Option (Option (ℕ × ℤ))
  unfolding check_contain share_batch sum_shared exceeds get_latency_in
  shared_batch c s sim t n =
      let task = s.tasks t in
      let node = s.nodes n in
      if check_contain s task.id node || le (lit 1 0) node.occupancy
      then some none
      else elim (trunc (mul node.duty_cycle (div (of_int task.request_rate) (lit 1000 0)))) [
        | negsuc m ↦ none
        | pos m ↦ if m == 0 then some none else do
          (batch, duty, latency) ←
              share_batch (λ b. get_latency_in c s node.type task.id b node sim) task node.occupancy
                (if ltb max_batch m then max_batch else m) (pos 0) (lit 0 0)
          if lt node.duty_cycle (of_int duty) || batch == 0 then some none else do
            sum ← sum_shared c s sim node duty latency node.task_list
            some (
                if lt (lit 1 0) (div sum (of_int duty))
                  || exceeds s (add sum (of_int duty)) task node.task_list
                then none
                else some (batch, duty))
      ]

  -- The loop over the candidates; `none` inside is a round that found none.
  unfoldable pub share_first :
      Config F → Store F → SimState → ℕ → List ℕ → Option (Option (Store F))
  unfolding shared_batch share
  share_first c s sim t [] = some none
  share_first c s sim t (n ∷ ns) = elim (shared_batch c s sim t n) [
    | none ↦ none
    | some none ↦ share_first c s sim t ns
    | some (some (batch, duty)) ↦ do s' ← share c s sim t n batch duty; some (some s')
  ]

  unfoldable pub wants_more : Task F → Bool
  wants_more task = ltb_ℤ (pos trp_slack) (task.request_rate +ℤ task.additional_rate)

  unfoldable pub time_share_round :
      Config F → SimState → ℕ → List ℕ → Store F → Option (Next (Store F) (Exit × Store F))
  unfolding wants_more share_first
  time_share_round c sim t nodes s =
      if not (wants_more (s.tasks t))
      then some (ends (success, s))
      else elim (share_first c s sim t nodes) [
        | none ↦ none
        | some none ↦ some (ends (failure, s))
        | some (some s') ↦ some (again s')
      ]

  -- Each round gives the task to one more of the candidates.
  unfoldable pub allocate_time_share :
      SortNodes → Config F → Store F → SimState → ℕ → List ℕ → Option (Exit × Store F)
  unfolding candidates loop time_share_round
  allocate_time_share sort c s sim t ts_nodes = do
    found ← candidates c s (s.tasks t).id ts_nodes sim.gpu_list
    let nodes = sort (λ a b. lt (s.nodes b).occupancy (s.nodes a).occupancy) found
    run (loop (time_share_round c sim t nodes) (suc (length nodes)) s)
