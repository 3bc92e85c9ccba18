-- ===== src/Scheduler/Readjust/Revert.antt =====
-- Whether a placement has to be reverted: `checkNeedtoRevert` of
-- src/scheduler/scheduler_incremental.cpp. `none` is an abort.
use glet.Common.{
  ◌>>=◌, ℕ, Bool, true, false, not, ◌&&◌, Option, none, some, List, [], ◌∷◌, ◌==◌, if◌then◌else◌,
  get_elem?,
}
use glet.Common.Int.{ℤ, pos, ◌+ℤ◌}
use glet.Float.{Float}
use glet.Scheduler.State.{Node, SimState, Store, Config, success, failure}
use glet.Scheduler.Nodes.{set_task}
use glet.Scheduler.Network.{is_bandwidth_ok}
use glet.Scheduler.Adjust.{adjust_res_node, adjust_sat_node_self}
use glet.Scheduler.Choose.{Planner}

module _ {F : Type 0} where
  unfoldable pub set_rate : Store F → ℕ → ℤ → Store F
  unfolding set_task
  set_rate s t rate = set_task s t (record (s.tasks t) { request_rate = rate })

  -- `task.request_rate += task.additional_rate`, which is set back to 0.
  unfoldable pub take_additional : Store F → ℕ → Store F
  unfolding set_task
  take_additional s t = set_task s t (record (s.tasks t) {
    request_rate = (s.tasks t).request_rate +ℤ (s.tasks t).additional_rate;
    additional_rate = pos 0;
  })

module _ {F : Type 0} ⦃R : Float F⦄ where
  open R use {of_int, lit, add, sub, mul, div, le, lt, trunc}

  -- The loop over the other nodes of the GPU: whether to revert. A saturated node that cannot be
  -- adjusted ends the loop.
  unfoldable pub revert_for :
      Config F → Store F → SimState → Node F → Bool → List ℕ → Option (Bool × Store F)
  unfolding adjust_sat_node_self adjust_res_node
  revert_for c s sim new_node revert [] = some (revert, s)
  revert_for c s sim new_node revert (n ∷ ns) =
      let node = s.nodes n in
      elim (node.dedup_num == new_node.dedup_num && node.resource_pntg == new_node.resource_pntg) [
        | true ↦ revert_for c s sim new_node revert ns
        | false ↦ elim (le (lit 1 0) node.occupancy) [
          | true ↦ elim (adjust_sat_node_self c s n sim) [
            | none ↦ none
            | some (failure, s') ↦ some (true, s')
            | some (success, s') ↦ revert_for c s' sim new_node revert ns
          ]
          | false ↦ elim (adjust_res_node c s n sim) [
            | none ↦ none
            | some (failure, s') ↦ revert_for c s' sim new_node true ns
            | some (success, s') ↦ revert_for c s' sim new_node revert ns
          ]
        ]
      ]

  unfoldable pub check_need_to_revert :
      Config F → Planner F → Store F → SimState → ℕ → ℕ → Option (Bool × Store F)
  unfolding is_bandwidth_ok revert_for take_additional
  check_need_to_revert c p s sim t n = do
    g ← get_elem? sim.gpu_list (s.nodes n).id
    let over = p.checks_network && not (is_bandwidth_ok s p.networks (s.gpus g))
    if not c.use_interference then some (over, s) else do
      (revert, s') ← revert_for c s sim (s.nodes n) over (s.gpus g).node_list
      some (revert, if revert then s' else take_additional s' t)
