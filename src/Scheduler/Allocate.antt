-- ===== src/Scheduler/Allocate.antt =====
-- Placing an estimated node on a GPU: `allocateFit` of src/scheduler/scheduler_incremental.cpp. `none` is
-- an abort.
pub mod Partition
use glet.Common.{
  ℕ, ◌+◌, ◌-◌, ◌*◌, Bool, true, false, not, ◌&&◌, Option, none, some, List, [], ◌∷◌, ltb, ◌==◌,
  if◌then◌else◌, assert, ◌>>=◌, ◌>>◌, get_elem?,
}
use glet.Common.Int.{ℤ, pos, ◌+ℤ◌, ltb_ℤ}
use glet.Float.{Float}
use glet.Scheduler.State.{Task, Node, SimState, Store, Config, trp_slack, Exit, success, failure}
use glet.Scheduler.Latency.{get_latency_in}
use glet.Scheduler.MaxBatch.{get_max_batch}
use glet.Scheduler.Nodes.{set_node, set_task, new_node, push_node, make_empty_node, copy_to_node}
use glet.Scheduler.Memory.{add_gpu_mem_usage}
use glet.Scheduler.Adjust.{adjust_res_node, adjust_sat_node, only_task}
use glet.Scheduler.BestFit.{find_best_fit}

module _ {F : Type 0} ⦃R : Float F⦄ where
  open R use {of_int, lit, add, sub, mul, div, eq, lt, trunc}

  -- The duty cycle of a refitted node; `std::max` of the time to gather the batch and the latency.
  unfoldable pub refit_duty : Bool → ℕ → ℤ → F → F
  refit_duty is_residue batch rate latency =
      let gather = div (mul (of_int (pos batch)) (lit 1000 0)) (of_int rate) in
      if not is_residue then latency else if lt gather latency then latency else gather

  -- The change of the input node for a larger gpu-let; `failure` if no batch fits.
  unfoldable pub refit : Config F → Store F → SimState → ℕ → ℕ → Bool → Option (Exit × Store F)
  unfolding set_node set_task only_task get_max_batch get_latency_in refit_duty
  refit c s sim i best_pntg is_residue = do
    let s1 = set_node s i (record (s.nodes i) { resource_pntg = best_pntg })
    let input = s1.nodes i
    t ← only_task input
    (batch, rate) ←
        get_max_batch c s1 (s1.tasks t) input sim (s1.tasks t).request_rate is_residue true
    let s2 = set_task s1 t (record (s1.tasks t) { batch_size = batch; request_rate = rate })
    if batch == 0 then some (failure, s2) else do
      latency ← get_latency_in c s2 input.type (s2.tasks t).id batch input sim
      let duty = refit_duty is_residue batch rate latency
      let s3 =
          set_task s2 t
            (record (s2.tasks t) { throughput = div (mul (of_int (pos batch)) (lit 1000 0)) duty })
      some (
        success,
        set_node s3 i (record (s3.nodes i) { duty_cycle = duty; occupancy = div latency duty }),
      )

  -- The split of a 100% node: the rest becomes a node of its own on the GPU.
  unfoldable pub rest_node : Node F → ℕ → Node F
  unfolding make_empty_node
  rest_node best input_pntg = record (make_empty_node best.id (100 - input_pntg) best.type) {
    dedup_num = if input_pntg == 50 then 1 else 0;
  }

  unfoldable pub split_node : Store F → (gpu best input_pntg : ℕ) → Store F
  unfolding set_node new_node push_node rest_node
  split_node s g b input_pntg =
      let s1 = set_node s b (record (s.nodes b) { resource_pntg = input_pntg }) in
      let (n, s2) = new_node s1 (rest_node (s.nodes b) input_pntg) in push_node s2 g n

  -- The split, where it is due, and `copyToNode`.
  unfoldable pub split_when : Bool → Store F → (gpu best input_pntg : ℕ) → Store F
  unfolding split_node
  split_when true s g b input_pntg = split_node s g b input_pntg
  split_when false s g b input_pntg = s

  unfoldable pub place : Config F → Store F → (gpu input best best_pntg input_pntg : ℕ) → Store F
  unfolding split_when copy_to_node
  place c s g i b best_pntg input_pntg =
      let due = best_pntg == 100 && ltb input_pntg 100 && c.use_repartition in
      copy_to_node (split_when due s g b input_pntg) i b c.use_repartition

  -- The loop over the nodes of the GPU. A failure of `adjustResNode` is ignored.
  unfoldable pub adjust_neighbours :
      Config F → Store F → SimState → ℕ → List ℕ → Option (Exit × Store F)
  unfolding adjust_sat_node adjust_res_node
  adjust_neighbours c s sim t [] = some (success, s)
  adjust_neighbours c s sim t (n ∷ ns) =
      if eq (s.nodes n).occupancy (lit 1 0)
      then elim (adjust_sat_node c s n sim t) [
        | none ↦ none
        | some (failure, s') ↦ some (failure, s')
        | some (success, s') ↦ adjust_neighbours c s' sim t ns
      ]
      else elim (adjust_res_node c s n sim) [
        | none ↦ none
        | some (r, s') ↦ adjust_neighbours c s' sim t ns
      ]

  -- `task.request_rate -= ...->throughput`.
  unfoldable pub serve : Store F → ℕ → ℕ → Store F
  unfolding set_task
  serve s t served = set_task s t (record (s.tasks t) {
    request_rate = trunc (sub (of_int (s.tasks t).request_rate) (s.tasks served).throughput);
  })

  -- The body of the loop, once the best node `b` is known. The result of `addGPUMemUsage` is ignored.
  unfoldable pub allocate_at : Config F → Store F → SimState → ℕ → ℕ → ℕ → Option (Exit × Store F)
  unfolding refit place add_gpu_mem_usage adjust_neighbours only_task serve
  allocate_at c s sim t i b = do
    let is_residue = not (eq (s.nodes i).occupancy (lit 1 0))
    let best_pntg = (s.nodes b).resource_pntg
    let input_pntg = (s.nodes i).resource_pntg
    (fitted, s1) ←
        if not (best_pntg == 100) && ltb input_pntg best_pntg
        then refit c s sim i best_pntg is_residue
        else some (success, s)
    elim fitted [
      | failure ↦ some (failure, s1)
      | success ↦ do
        g ← get_elem? sim.gpu_list (s1.nodes b).id
        let s2 = place c s1 g i b best_pntg input_pntg
        (charged, s3) ← add_gpu_mem_usage c s2 g (s2.tasks t).id b
        (adjusted, s4) ←
            if c.use_interference
            then adjust_neighbours c s3 sim t (s3.gpus g).node_list
            else some (success, s3)
        elim adjusted [
          | failure ↦ some (failure, s4)
          | success ↦ do served ← only_task (s4.nodes b); some (success, serve s4 t served)
        ]
    ]

  -- The loop; no node is ever flagged.
  unfoldable pub allocate_nodes :
      Config F → Store F → SimState → ℕ → List ℕ → Option (Exit × Store F)
  unfolding find_best_fit allocate_at
  allocate_nodes c s sim t [] = some (success, s)
  allocate_nodes c s sim t (i ∷ estimate) = elim (find_best_fit c s sim (s.nodes i) []) [
    | none ↦ none
    | some none ↦ some (failure, s)
    | some (some b) ↦ elim (allocate_at c s sim t i b) [
      | none ↦ none
      | some (failure, s') ↦ some (failure, s')
      | some (success, s') ↦ allocate_nodes c s' sim t estimate
    ]
  ]

  unfoldable pub allocate_fit : Config F → Store F → SimState → List ℕ → ℕ → Option (Exit × Store F)
  unfolding allocate_nodes set_task
  allocate_fit c s sim estimate t = elim (allocate_nodes c s sim t estimate) [
    | none ↦ none
    | some (failure, s') ↦ some (failure, s')
    | some (success, s') ↦
        if ltb_ℤ (pos trp_slack) ((s'.tasks t).request_rate +ℤ (s'.tasks t).additional_rate)
        then some (failure, s')
        else some (success, set_task s' t (record (s'.tasks t) { request_rate = pos 0 }))
  ]
