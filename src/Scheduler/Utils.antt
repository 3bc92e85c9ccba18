-- ===== src/Scheduler/Utils.antt =====
-- Questions about a whole decision: `getNumofUsedGPUs`, `getMaxPartSize`, `getMinPartSize`
-- and `recoverScheduler` of src/common/scheduler_utils.cpp.
pub mod Parts
use glet.Common.{ℕ, zero, suc, Bool, not, ◌||◌, List, [], ◌∷◌, ltb, if◌then◌else◌, any, is_empty}
use glet.Common.Int.{ℤ, pos, negsuc, ltb_ℤ}
use glet.Scheduler.State.{SimState, Store}

-- `recoverScheduler`: the GPUs of the backup, by pointer; the rest of the output stays.
unfoldable pub recover_scheduler : SimState → SimState → SimState
recover_scheduler backup output = record output { gpu_list = backup.gpu_list }

module _ {F : Type 0} where
  unfoldable pub is_used : Store F → List ℕ → Bool
  unfolding any
  is_used s ns = any (λ n. not (is_empty (s.nodes n).task_list)) ns

  unfoldable pub count_used : Store F → List ℕ → ℕ
  unfolding is_used
  count_used s [] = 0
  count_used s (g ∷ gs) =
      let rest = count_used s gs in if is_used s (s.gpus g).node_list then suc rest else rest

  unfoldable pub get_num_of_used_gpus : Store F → SimState → ℕ
  unfolding count_used
  get_num_of_used_gpus s input = count_used s input.gpu_list

  -- `max_part`, which starts at -1, over the nodes of one GPU and over the GPUs.
  unfoldable pub max_of_nodes : Store F → ℤ → List ℕ → ℤ
  max_of_nodes s best [] = best
  max_of_nodes s best (n ∷ ns) =
      max_of_nodes s
        (if ltb_ℤ best (pos (s.nodes n).resource_pntg) then pos (s.nodes n).resource_pntg else best)
        ns

  unfoldable pub max_of_gpus : Store F → ℤ → List ℕ → ℤ
  unfolding max_of_nodes
  max_of_gpus s best [] = best
  max_of_gpus s best (g ∷ gs) = max_of_gpus s (max_of_nodes s best (s.gpus g).node_list) gs

  unfoldable pub get_max_part_size : Store F → SimState → ℤ
  unfolding max_of_gpus
  get_max_part_size s input =
      if is_empty input.gpu_list then pos 100 else max_of_gpus s (negsuc 0) input.gpu_list

  unfoldable pub min_of_nodes : Store F → ℕ → List ℕ → ℕ
  min_of_nodes s best [] = best
  min_of_nodes s best (n ∷ ns) =
      min_of_nodes s
        (if ltb (s.nodes n).resource_pntg best then (s.nodes n).resource_pntg else best) ns

  unfoldable pub min_of_gpus : Store F → ℕ → List ℕ → ℕ
  unfolding min_of_nodes
  min_of_gpus s best [] = best
  min_of_gpus s best (g ∷ gs) = min_of_gpus s (min_of_nodes s best (s.gpus g).node_list) gs

  unfoldable pub get_min_part_size : Store F → SimState → ℕ
  unfolding min_of_gpus
  get_min_part_size s input =
      if is_empty input.gpu_list then 0 else min_of_gpus s 100 input.gpu_list
