-- ===== src/Scheduler/BestFit.antt =====
-- Choosing a node for an estimated one: `checkForInterference`, `findBestFit` and `checkFit` of
-- src/scheduler/scheduler_incremental.cpp. `none` is an abort.
pub mod Chosen
pub mod Closest
pub mod Neighbours
pub mod Rounds
use glet.Common.{
  ℕ, zero, suc, ◌+◌, ◌-◌, Bool, true, false, not, ◌&&◌, ◌||◌, Option, none, some, List, [], ◌∷◌,
  ◌++◌, String, str_eq, ltb, leb, ◌==◌, if◌then◌else◌, any, assert, is_empty, lookup, insert,
  lookup_or, nat_key, ◌>>=◌, ◌>>◌, length,
}
use glet.Float.{Float}
use glet.Scheduler.State.{Task, Node, Gpu, SimState, Store, Config, Exit, success, failure}
use glet.Scheduler.Latency.{
  device_model, get_model_name, get_batch_latency, get_latency_in, get_gpu_interference,
}
use glet.Scheduler.Nodes.{make_empty_node, get_other_node, new_node}
use glet.Scheduler.Memory.{does_fit_mem_limit}
use glet.Scheduler.Adjust.{only_task}

module _ {F : Type 0} where
  -- `remain_pntg` with an entry for the node.
  unfoldable pub with_remain : Store F → ℕ → List (ℕ × ℕ) → List (ℕ × ℕ)
  unfolding lookup insert
  with_remain s n remain = elim (lookup n remain) [
    | none ↦ insert n (s.nodes n).resource_pntg remain
    | some r ↦ remain
  ]

module _ {F : Type 0} ⦃R : Float F⦄ where
  open R use {of_int, lit, add, sub, mul, lt}

  -- One task of the neighbour in `checkForInterference`. The temporary GPU holds the neighbour, and the
  -- temporary node with the tasks of `the_node` is on no list.
  unfoldable pub neighbour_misses_slo :
      Config F
      → Store F
      → String
      → (the_node the_real_node : Node F) → (neighbour : ℕ) → ℕ
      → Option Bool
  unfolding device_model get_model_name get_batch_latency get_gpu_interference make_empty_node
  neighbour_misses_slo c s device the_node real neighbour t = do
    let task = s.tasks t
    let node = s.nodes neighbour
    let temp_gpu : Gpu = record {
      gpu_id = 0;
      total_memory = 0;
      used_memory = 0;
      type = "";
      loaded_parts = [];
      node_list = neighbour ∷ [];
    }
    let temp_node : Node F = record (make_empty_node node.id real.resource_pntg real.type) {
      task_list = the_node.task_list;
    }
    dev ← device_model c device
    name ← get_model_name c task.id
    pure_latency ← dev.get_latency name task.batch_size node.resource_pntg
    interference ← get_gpu_interference c s device task.id task.batch_size node temp_gpu
    batch_latency ← get_batch_latency c name task.batch_size
    let latency =
        add (add (mul pure_latency (sub interference (lit 1 0))) batch_latency) node.duty_cycle
    some (lt (of_int task.slo) (add latency node.duty_cycle))

  unfoldable pub any_misses_slo :
      Config F → Store F → String → Node F → Node F → ℕ → List ℕ → Option Bool
  unfolding neighbour_misses_slo
  any_misses_slo c s device the_node real neighbour [] = some false
  any_misses_slo c s device the_node real neighbour (t ∷ ts) =
      elim (neighbour_misses_slo c s device the_node real neighbour t) [
        | none ↦ none
        | some true ↦ some true
        | some false ↦ any_misses_slo c s device the_node real neighbour ts
      ]

  unfoldable pub check_for_interference :
      Config F → Store F → String → Node F → Node F → SimState → Option Bool
  unfolding get_other_node any_misses_slo
  check_for_interference c s device the_node real sim =
      if real.resource_pntg == 100 then some false else elim (get_other_node s real sim.gpu_list) [
        | none ↦ some false
        | some neighbour ↦
            any_misses_slo c s device the_node real neighbour (s.nodes neighbour).task_list
      ]

  -- Whether the loop of `findBestFit` skips a node of a GPU of the right type: too small, in use,
  -- excluded, without the memory, too slow, or with a neighbour that would suffer.
  unfoldable pub skips : Config F → Store F → SimState → Node F → List ℕ → Gpu → ℕ → Option Bool
  unfolding any
  skips c s sim input exclude gpu n =
      let node = s.nodes n in
      if ltb node.resource_pntg input.resource_pntg || not (is_empty node.task_list)
      then some true
      else if any (λ m. m == n) exclude
      then some true
      else do
        t ← only_task input
        let task = s.tasks t
        fits ← does_fit_mem_limit c s gpu task.id node
        latency ← get_latency_in c s input.type task.id task.batch_size node sim
        if not fits || lt (of_int task.slo) (add latency input.duty_cycle)
            then some true
            else check_for_interference c s input.type input node sim

  -- `min_diff` and `min_ptr`, where 200 stands for no node yet.
  unfoldable pub closer : Config F → Store F → ℕ → ℕ → ℕ × ℕ → ℕ × ℕ
  closer c s input_pntg n (min_diff, min_ptr) =
      let node = s.nodes n in
      let (diff, ptr) =
        if node.resource_pntg == 100 && c.use_part then (0, n) else (min_diff, min_ptr) in
      if leb (node.resource_pntg - input_pntg) diff
      then (node.resource_pntg - input_pntg, n)
      else (diff, ptr)

  unfoldable pub best_of_nodes :
      Config F → Store F → SimState → Node F → List ℕ → Gpu → ℕ × ℕ → List ℕ → Option (ℕ × ℕ)
  unfolding skips closer
  best_of_nodes c s sim input exclude gpu best [] = some best
  best_of_nodes c s sim input exclude gpu best (n ∷ ns) = elim (skips c s sim input exclude gpu n) [
    | none ↦ none
    | some skip ↦
        best_of_nodes c s sim input exclude gpu
          (if skip then best else closer c s input.resource_pntg n best) ns
  ]

  unfoldable pub best_of_gpus :
      Config F → Store F → SimState → Node F → List ℕ → ℕ × ℕ → List ℕ → Option (ℕ × ℕ)
  unfolding best_of_nodes
  best_of_gpus c s sim input exclude best [] = some best
  best_of_gpus c s sim input exclude best (g ∷ gs) =
      elim (if not (str_eq (s.gpus g).type input.type)
        then some best
        else best_of_nodes c s sim input exclude (s.gpus g) best (s.gpus g).node_list) [
          | none ↦ none
          | some best' ↦ best_of_gpus c s sim input exclude best' gs
        ]

  -- `none` inside is `EXIT_FAILURE`.
  unfoldable pub find_best_fit : Config F → Store F → SimState → Node F → List ℕ → Option (Option ℕ)
  unfolding best_of_gpus
  find_best_fit c s sim input exclude =
      elim (best_of_gpus c s sim input exclude (200, 0) sim.gpu_list) [
        | none ↦ none
        | some (min_diff, min_ptr) ↦ some (if min_diff == 200 then none else some min_ptr)
      ]

  -- The inner loop of `checkFit`: the flagged nodes, the remaining percentages and the node that was
  -- found; each round flags one more node.
  unfoldable pub fit_one :
      ℕ
      → Config F
      → Store F
      → SimState
      → Node F
      → List ℕ
      → List (ℕ × ℕ)
      → Option (Option (ℕ × List ℕ × List (ℕ × ℕ)))
  unfolding find_best_fit with_remain lookup_or
  fit_one zero c s sim input flagged remain = none
  fit_one (suc fuel) c s sim input flagged remain = elim (find_best_fit c s sim input flagged) [
    | none ↦ none
    | some none ↦ some none
    | some (some n) ↦
        let remain' = with_remain s n remain in
        elim (ltb (lookup_or 0 n remain') input.resource_pntg) [
          | true ↦ fit_one fuel c s sim input (flagged ++ n ∷ []) remain'
          | false ↦ some (some (n, flagged, remain'))
        ]
  ]

  -- `checkFit` over the candidates; the fuel bounds the rounds for one candidate.
  unfoldable pub check_fit :
      ℕ → Config F → Store F → SimState → List ℕ → List (ℕ × ℕ) → List ℕ → Option Exit
  unfolding fit_one insert lookup_or
  check_fit fuel c s sim flagged remain [] = some success
  check_fit fuel c s sim flagged remain (i ∷ candidates) =
      elim (fit_one fuel c s sim (s.nodes i) flagged remain) [
        | none ↦ none
        | some none ↦ some failure
        | some (some (n, flagged', remain')) ↦
            let left =
              if c.use_repartition && lookup_or 0 n remain' == 100
              then 100 - (s.nodes i).resource_pntg
              else 0 in
            check_fit fuel c s sim (if left == 0 then flagged' ++ n ∷ [] else flagged')
              (insert n left remain') candidates
      ]
