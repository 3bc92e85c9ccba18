-- ===== src/Scheduler/Incremental.antt =====
-- Adding one task to a decision: `addModeltoSchedule` of src/scheduler/scheduler_incremental.cpp. `none`
-- is an abort.
use glet.Common.{
  ◌>>=◌, ℕ, Bool, true, false, Option, none, some, List, [], ◌∷◌, ◌++◌, ◌==◌, if◌then◌else◌,
  is_empty, nat_key,
}
use glet.Common.Int.{pos}
use glet.Float.{Float}
use glet.Scheduler.State.{Node, SimState, Store, Config, Exit, success, failure}
use glet.Scheduler.Latency.{get_latency_in}
use glet.Scheduler.Nodes.{set_node, set_task}
use glet.Scheduler.BestFit.{check_fit}
use glet.Scheduler.Allocate.{allocate_fit}
use glet.Scheduler.Devices.{is_model_scheduled}
use glet.Scheduler.Choose.{Planner, table_of, get_estimate}
use glet.Scheduler.TimeShare.{SortNodes, allocate_time_share}
use glet.Scheduler.Residue.{merge_residue}
use glet.Scheduler.Readjust.{cmp_nodeptr_dsc, readjust}

module _ {F : Type 0} where
  -- The list without the first task of the model; `none` if there is no such task.
  unfoldable pub without : Store F → ℕ → List ℕ → Option (List ℕ)
  without s model_id [] = none
  without s model_id (t ∷ ts) = elim ((s.tasks t).id == model_id) [
    | true ↦ some ts
    | false ↦ elim (without s model_id ts) [ none ↦ none | some us ↦ some (t ∷ us) ]
  ]

  -- The nodes without tasks, of all GPUs.
  unfoldable pub empty_of_nodes : Store F → List ℕ → List ℕ
  empty_of_nodes s [] = []
  empty_of_nodes s (n ∷ ns) =
      let rest = empty_of_nodes s ns in if is_empty (s.nodes n).task_list then n ∷ rest else rest

  unfoldable pub empty_nodes : Store F → List ℕ → List ℕ
  unfolding empty_of_nodes
  empty_nodes s [] = []
  empty_nodes s (g ∷ gs) = empty_of_nodes s (s.gpus g).node_list ++ empty_nodes s gs

module _ {F : Type 0} ⦃R : Float F⦄ where
  open R use {of_int, lit, add, mul, div, lt}

  -- `latency_sum` of the tasks that are left on a node.
  unfoldable pub latencies : Config F → Store F → SimState → Node F → F → List ℕ → Option F
  unfolding get_latency_in
  latencies c s sim node total [] = some total
  latencies c s sim node total (t ∷ ts) =
      elim (get_latency_in c s node.type (s.tasks t).id (s.tasks t).batch_size node sim) [
        | none ↦ none
        | some latency ↦ latencies c s sim node (add total latency) ts
      ]

  -- The node without the task of the model, with its new occupancy, and whether it had such a task.
  unfoldable pub clear_node : Config F → Store F → SimState → ℕ → ℕ → Option (Bool × Store F)
  unfolding without latencies set_node
  clear_node c s sim model_id n = do
    let rest = without s model_id (s.nodes n).task_list
    let s1 : Store F = elim rest [
      | none ↦ s
      | some ts ↦ set_node s n (record (s.nodes n) { task_list = ts })
    ]
    total ← latencies c s1 sim (s1.nodes n) (lit 0 0) (s1.nodes n).task_list
    some (
      elim rest [ none ↦ false | some ts ↦ true ],
      set_node s1 n (record (s1.nodes n) { occupancy = div total (s1.nodes n).duty_cycle }),
    )

  -- `target_nodes`, the free nodes, and `ts_target_nodes`, those that had the task.
  unfoldable pub clear_nodes :
      Config F
      → Store F
      → SimState
      → ℕ
      → (targets ts_targets : List ℕ) → List ℕ
      → Option (List ℕ × List ℕ × Store F)
  unfolding clear_node
  clear_nodes c s sim model_id targets ts_targets [] = some (targets, ts_targets, s)
  clear_nodes c s sim model_id targets ts_targets (n ∷ ns) = elim (is_empty (s.nodes n).task_list) [
    | true ↦ clear_nodes c s sim model_id (targets ++ n ∷ []) ts_targets ns
    | false ↦ elim (clear_node c s sim model_id n) [
      | none ↦ none
      | some (found, s') ↦
          clear_nodes c s' sim model_id
            (if is_empty (s'.nodes n).task_list then targets ++ n ∷ [] else targets)
            (if found then ts_targets ++ n ∷ [] else ts_targets) ns
    ]
  ]

  unfoldable pub clear_gpus :
      Config F
      → Store F
      → SimState
      → ℕ
      → (targets ts_targets : List ℕ) → List ℕ
      → Option (List ℕ × List ℕ × Store F)
  unfolding clear_nodes
  clear_gpus c s sim model_id targets ts_targets [] = some (targets, ts_targets, s)
  clear_gpus c s sim model_id targets ts_targets (g ∷ gs) =
      elim (clear_nodes c s sim model_id targets ts_targets (s.gpus g).node_list) [
        | none ↦ none
        | some (targets', ts_targets', s') ↦ clear_gpus c s' sim model_id targets' ts_targets' gs
      ]

  -- What both branches of `addModeltoSchedule` end with: `readjust`, whose result is ignored,
  -- `mergeResidue`, and time sharing if that fails.
  unfoldable pub squeeze :
      ℕ
      → SortNodes
      → Config F
      → Planner F
      → Store F
      → SimState
      → ℕ
      → (given ts_nodes : List ℕ) → Option (Exit × Store F)
  unfolding cmp_nodeptr_dsc readjust merge_residue allocate_time_share
  squeeze fuel sort c p s sim t given ts_nodes = do
    (adjusted, s1) ← readjust fuel sort c p s sim t (sort (cmp_nodeptr_dsc s) given)
    (merged, s2) ← merge_residue c p.sat_tables s1 sim t
    elim merged [
      | success ↦ some (success, s2)
      | failure ↦
          if c.use_self_tuning
          then some (failure, s2)
          else allocate_time_share sort c s2 sim t ts_nodes
    ]

  -- The greedy placement: `checkFit`, and `allocateFit` if it succeeds.
  unfoldable pub place_greedily :
      ℕ → SortNodes → Config F → Planner F → Store F → SimState → ℕ → Option (Exit × Store F)
  unfolding table_of get_estimate cmp_nodeptr_dsc check_fit allocate_fit
  place_greedily fuel sort c p s sim t = do
    let task = s.tasks t
    (found, s1) ← get_estimate fuel c s (table_of p task.id) task
    let nodes = sort (cmp_nodeptr_dsc s1) found
    fits ← check_fit fuel c s1 sim [] [] nodes
    elim fits [ failure ↦ some (failure, s1) | success ↦ allocate_fit c s1 sim nodes t ]

  unfoldable pub add_model_to_schedule :
      ℕ → SortNodes → Config F → Planner F → Store F → SimState → ℕ → Option (Exit × Store F)
  unfolding set_task is_model_scheduled place_greedily empty_nodes squeeze clear_gpus
  add_model_to_schedule fuel sort c p s0 sim t =
      let s = set_task s0 t (record (s0.tasks t) { additional_rate = pos 0 }) in
      if is_model_scheduled s (s.tasks t) sim
      then (do
        (targets, ts_targets, s1) ← clear_gpus c s sim (s.tasks t).id [] [] sim.gpu_list
        squeeze fuel sort c p s1 sim t targets ts_targets)
      else (do
        (placed, s1) ← place_greedily fuel sort c p s sim t
        elim placed [
          | success ↦ some (success, s1)
          | failure ↦ squeeze fuel sort c p s1 sim t (empty_nodes s1 sim.gpu_list) []
        ])
