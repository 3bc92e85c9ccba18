-- ===== src/Scheduler/BestFit/Neighbours.antt =====
-- What the test of the neighbours in `checkForInterference` depends on.
use glet.Common.{ℕ, ◌≡◌, refl, List, [], ◌∷◌, String, arith, Option-cases, inl, inr}
use glet.Float.{Float}
use glet.Scheduler.State.{Node, SimState, Store, Config}
use glet.Scheduler.BestFit.{neighbour_misses_slo, any_misses_slo, check_for_interference}
use glet.Scheduler.Nodes.{get_other_node}

module _ {F : Type 0} ⦃R : Float F⦄ (c : Config F) (s : Store F) where
  neighbour_misses_slo_irrelevant :
      (device : String) (a b real : Node F) (neighbour t : ℕ)
      → neighbour_misses_slo c s device a real neighbour t
        ≡ neighbour_misses_slo c s device b real neighbour t
  unfolding neighbour_misses_slo
  neighbour_misses_slo_irrelevant device a b real neighbour t = refl

  any_misses_slo_irrelevant :
      (device : String) (a b real : Node F) (neighbour : ℕ) (ts : List ℕ)
      → any_misses_slo c s device a real neighbour ts
        ≡ any_misses_slo c s device b real neighbour ts
  unfolding any_misses_slo
  any_misses_slo_irrelevant device a b real neighbour [] = refl
  any_misses_slo_irrelevant device a b real neighbour (t ∷ ts) = ground (
    arith,
    neighbour_misses_slo_irrelevant device a b real neighbour t,
    any_misses_slo_irrelevant device a b real neighbour ts,
  )

  -- Whatever tasks the node to be placed has, `checkForInterference` gives the same answer: the test of
  -- the neighbours does not depend on the node whose interference it is meant to foresee.
  pub check_for_interference_irrelevant :
      (device : String) (a b real : Node F) (sim : SimState)
      → check_for_interference c s device a real sim ≡ check_for_interference c s device b real sim
  unfolding check_for_interference
  check_for_interference_irrelevant device a b real sim =
      elim (Option-cases (get_other_node s real sim.gpu_list)) [
        | inl alone ↦ ground arith
        | inr (n, other) ↦
            ground (arith, any_misses_slo_irrelevant device a b real n (s.nodes n).task_list)
      ]
