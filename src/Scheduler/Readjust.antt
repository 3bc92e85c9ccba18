-- ===== src/Scheduler/Readjust.antt =====
-- Placing what is left of a task on given nodes: `readjust`, of src/scheduler/scheduler_incremental.cpp. `none` is an abort.
pub mod Revert
use glet.Common.{
  ◌>>=◌, ℕ, Bool, true, false, not, ◌&&◌, ◌||◌, Option, none, some, List, [], ◌∷◌, ◌++◌, ltb, ◌==◌,
  if◌then◌else◌, is_empty, get_elem?,
}
use glet.Common.Int.{ℤ, pos, ◌+ℤ◌, leb_ℤ}
use glet.Common.Loops.{Next, ends, again, loop, run}
use glet.Float.{Float}
use glet.Scheduler.State.{Node, SimState, Store, Config, trp_slack, Exit, success, failure}
use glet.Scheduler.Latency.{get_latency_in}
use glet.Scheduler.MaxBatch.{get_max_batch}
use glet.Scheduler.Nodes.{set_node, set_task, new_task, push_task, revert_node}
use glet.Scheduler.Memory.{does_fit_mem_limit, add_gpu_mem_usage}
use glet.Scheduler.Network.{is_bandwidth_ok, adjust_batch_size_to_net_bw}
use glet.Scheduler.Adjust.{adjust_res_node, adjust_sat_node_self, only_task}
use glet.Scheduler.Estimate.{create_new_task}
use glet.Scheduler.Allocate.{split_node, serve}
use glet.Scheduler.Choose.{Planner, table_of, choose_node, estimate}
use glet.Scheduler.Residue.{over_slack}
use glet.Scheduler.TimeShare.{SortNodes}
use glet.Scheduler.Readjust.Revert.{set_rate, take_additional, check_need_to_revert}

-- `given.erase(find(...))`, of the first place where the node stands.
unfoldable pub erase : ℕ → List ℕ → List ℕ
erase n [] = []
erase n (m ∷ ms) = let rest = erase n ms in if m == n then ms else m ∷ rest

-- How the saturated loop ends: with `EXIT_FAILURE`, or with `proceed_to_residue` and the nodes left.
pub data Saturated (F : Type 0) : Type 0 where
  gave_up : Store F → Saturated F
  stopped : Bool → List ℕ → Store F → Saturated F

module _ {F : Type 0} where
  -- `cmp_nodeptr_dsc`.
  unfoldable pub cmp_nodeptr_dsc : Store F → ℕ → ℕ → Bool
  cmp_nodeptr_dsc s a b = ltb (s.nodes b).resource_pntg (s.nodes a).resource_pntg

  -- `sort(given.begin()+1, given.end(), cmp_nodeptr_dsc)`.
  unfoldable pub sort_rest : SortNodes → Store F → List ℕ → List ℕ
  unfolding cmp_nodeptr_dsc
  sort_rest sort s [] = []
  sort_rest sort s (n ∷ ns) = n ∷ sort (cmp_nodeptr_dsc s) ns

module _ {F : Type 0} ⦃R : Float F⦄ where
  open R use {of_int, lit, add, sub, mul, div, le, lt, trunc}

  -- The split of a 100% node by the first estimate: its batch, and the given nodes with the new one.
  unfoldable pub split_given :
      ℕ
      → SortNodes
      → Config F
      → Planner F
      → Store F
      → SimState
      → (t n : ℕ) → (given : List ℕ) → Option (ℕ × List ℕ × Store F)
  unfolding table_of estimate only_task split_node sort_rest
  split_given fuel sort c p s sim t n given = do
    let task = s.tasks t
    (found, s1) ← estimate fuel c s (table_of p task.id) (s.nodes n).type task task.request_rate []
    first ← get_elem? found 0
    u ← only_task (s1.nodes first)
    let part = (s1.nodes first).resource_pntg
    let batch = (s1.tasks u).batch_size
    if not (ltb part 100) then some (batch, given, s1) else do
      g ← get_elem? sim.gpu_list (s1.nodes n).id
      let s2 = split_node s1 g n part
      some (batch, sort_rest sort s2 (given ++ s1.next ∷ []), s2)

  unfoldable pub splits : Config F → Node F → Bool
  splits c node = node.resource_pntg == 100 && c.use_part && c.use_repartition

  -- The batch of the saturated loop: of the split, or the largest one, or 1.
  unfoldable pub saturated_batch :
      ℕ
      → SortNodes
      → Config F
      → Planner F
      → Store F
      → SimState
      → (t n : ℕ) → (given : List ℕ) → Option (ℕ × List ℕ × Store F)
  unfolding splits split_given get_max_batch set_rate
  saturated_batch fuel sort c p s sim t n given =
      if splits c (s.nodes n) then split_given fuel sort c p s sim t n given else do
        (batch, rate) ←
            get_max_batch c s (s.tasks t) (s.nodes n) sim (s.tasks t).request_rate false true
        some (if batch == 0 then 1 else batch, given, set_rate s t rate)

  -- What both loops do with a node that has taken the task `u`: check, and revert or go on.
  unfoldable pub settle :
      Config F → Planner F → Store F → SimState → (Store F → Store F) → (t n : ℕ) → Option (Store F)
  unfolding check_need_to_revert revert_node add_gpu_mem_usage
  settle c p s sim served t n = do
    (revert, s1) ← check_need_to_revert c p s sim t n
    if revert then revert_node s1 n else do
      let s2 = served s1
      g ← get_elem? sim.gpu_list (s2.nodes n).id
      (charged, s3) ← add_gpu_mem_usage c s2 g (s2.tasks t).id n
      some s3

  -- The new task `u` on the node `n`, saturated, where the memory allows it.
  unfoldable pub put_saturated :
      Config F → Planner F → Store F → SimState → ℕ → ℕ → ℕ → ℕ → Option (Store F)
  unfolding does_fit_mem_limit set_node push_task get_latency_in settle serve
  put_saturated c p s sim t u n batch = do
    g ← get_elem? sim.gpu_list (s.nodes n).id
    fits ← does_fit_mem_limit c s (s.gpus g) (s.tasks t).id (s.nodes n)
    if not fits then some s else do
      let s1 = push_task (set_node s n (record (s.nodes n) { occupancy = lit 1 0 })) n u
      duty ← get_latency_in c s1 (s1.nodes n).type (s1.tasks t).id batch (s1.nodes n) sim
      let s2 = set_node s1 n (record (s1.nodes n) { duty_cycle = duty })
      settle c p s2 sim (λ s'. serve s' t u) t n

  unfoldable pub saturated_round :
      ℕ
      → SortNodes
      → Config F
      → Planner F
      → SimState
      → ℕ
      → List ℕ × Store F
      → Option (Next (List ℕ × Store F) (Saturated F))
  unfolding choose_node saturated_batch get_latency_in create_new_task new_task put_saturated erase
      adjust_batch_size_to_net_bw
  saturated_round fuel sort c p sim t (given, s) =
      if leb_ℤ ((s.tasks t).request_rate +ℤ (s.tasks t).additional_rate) (pos trp_slack)
        || is_empty given
      then some (ends (stopped false given s))
      else do
        (n, s1) ← choose_node fuel c p s (s.tasks t) given
        (batch, given', s2) ← saturated_batch fuel sort c p s1 sim t n given
        let task = s2.tasks t
        latency ← get_latency_in c s2 (s2.nodes n).type task.id batch (s2.nodes n) sim
        let trp = mul (of_int (pos batch)) (div (lit 1000 0) latency)
        if lt (of_int task.request_rate) trp then some (ends (stopped true given' s2)) else do
          let (u, s3) = new_task s2 (create_new_task task.id task.request_rate task.slo batch trp)
          g ← get_elem? sim.gpu_list (s3.nodes n).id
          (narrowed, s4) ← adjust_batch_size_to_net_bw s3 p.networks u (s3.gpus g)
          elim narrowed [
            | failure ↦ some (ends (gave_up s4))
            | success ↦ do
              s5 ← put_saturated c p s4 sim t u n batch
              some (again (erase n given', s5))
          ]

  -- `task.request_rate` less what the new task serves, or 0.
  unfoldable pub serve_residue : Store F → ℕ → ℕ → Store F
  unfolding set_rate
  serve_residue s t u =
      let rate = of_int (s.tasks t).request_rate in
      set_rate s t
        (if le (s.tasks u).throughput rate then trunc (sub rate (s.tasks u).throughput) else pos 0)

  -- The new task `u` on the node `n` as a residue, where the memory allows it; the occupancy of the
  -- node is set in any case.
  unfoldable pub put_residue :
      Config F → Planner F → Store F → SimState → (t u n : ℕ) → Option (Store F)
  unfolding does_fit_mem_limit set_node push_task get_latency_in settle serve_residue
  put_residue c p s sim t u n = do
    let node = s.nodes n
    latency ← get_latency_in c s node.type (s.tasks t).id (s.tasks u).batch_size node sim
    let s1 = set_node s n (record node { occupancy = div latency node.duty_cycle })
    g ← get_elem? sim.gpu_list node.id
    fits ← does_fit_mem_limit c s1 (s1.gpus g) (s1.tasks t).id (s1.nodes n)
    if not fits then some s1 else settle c p (push_task s1 n u) sim (λ s'. serve_residue s' t u) t n

  unfoldable pub verdict : Store F → ℕ → Exit × Store F
  unfolding over_slack
  verdict s t = (if over_slack (s.tasks t) then failure else success, s)

  -- The nodes and the store after the split of the residue loop.
  unfoldable pub split_residue :
      ℕ
      → SortNodes
      → Config F
      → Planner F
      → Store F
      → SimState
      → (t n : ℕ) → (given : List ℕ) → Option (List ℕ × Store F)
  unfolding splits split_given
  split_residue fuel sort c p s sim t n given =
      if splits c (s.nodes n)
      then (do (batch, given', s') ← split_given fuel sort c p s sim t n given; some (given', s'))
      else some (given, s)

  unfoldable pub residue_round :
      ℕ
      → SortNodes
      → Config F
      → Planner F
      → SimState
      → ℕ
      → List ℕ × Store F
      → Option (Next (List ℕ × Store F) (Exit × Store F))
  unfolding over_slack verdict choose_node split_residue get_max_batch set_rate set_node
      create_new_task new_task adjust_batch_size_to_net_bw put_residue erase
  residue_round fuel sort c p sim t (given, s) =
      if not (over_slack (s.tasks t)) || is_empty given then some (ends (verdict s t)) else do
        (n, s1) ← choose_node fuel c p s (s.tasks t) given
        (given', s2) ← split_residue fuel sort c p s1 sim t n given
        (batch, rate) ←
            get_max_batch c s2 (s2.tasks t) (s2.nodes n) sim (s2.tasks t).request_rate true true
        let s3 = set_rate s2 t rate
        if batch == 0 then some (ends (failure, s3)) else do
          let task = s3.tasks t
          let duty = mul (of_int (pos batch)) (div (lit 1000 0) (of_int rate))
          let s4 = set_node s3 n (record (s3.nodes n) { duty_cycle = duty })
          let trp = div (mul (lit 1000 0) (of_int (pos batch))) duty
          let (u, s5) = new_task s4 (create_new_task task.id rate task.slo batch trp)
          g ← get_elem? sim.gpu_list (s5.nodes n).id
          (narrowed, s6) ← adjust_batch_size_to_net_bw s5 p.networks u (s5.gpus g)
          elim narrowed [
            | failure ↦ some (ends (failure, s6))
            | success ↦ do s7 ← put_residue c p s6 sim t u n; some (again (erase n given', s7))
          ]

  -- `readjust`; the fuel bounds the rounds of each of its loops.
  unfoldable pub readjust :
      ℕ
      → SortNodes
      → Config F
      → Planner F
      → Store F
      → SimState
      → ℕ
      → List ℕ
      → Option (Exit × Store F)
  unfolding cmp_nodeptr_dsc take_additional loop saturated_round residue_round verdict
  readjust fuel sort c p s sim t given = do
    let s1 = if c.use_interference then take_additional s t else s
    first ←
        run (loop (saturated_round fuel sort c p sim t) fuel (sort (cmp_nodeptr_dsc s1) given, s1))
    elim first [
      | gave_up s2 ↦ some (failure, s2)
      | stopped false rest s2 ↦ some (verdict s2 t)
      | stopped true rest s2 ↦ run (loop (residue_round fuel sort c p sim t) fuel (rest, s2))
    ]
