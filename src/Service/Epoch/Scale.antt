-- ===== src/Service/Epoch/Scale.antt =====
-- How the loop of `OracleScheduler` that asks for more GPUs can end. `getMaxGPUs` adds up the table of
-- types, which `setMaxGPUs` does not change, so every round asks the same question of it.
use glet.Common.{
  ℕ, zero, suc, ◌≡◌, refl, Bool, true, false, Option, none, some, List, [], ltb, arith,
  if◌then◌else◌,
}
use glet.Common.Loops.{Next, ends, again, loop, Ends, Ends-bind}
use glet.Float.{Float}
use glet.Scheduler.State.{Task, SimState, Exit, success, failure}
use glet.Scheduler.Output.{copy_to_output}
use glet.Scheduler.Devices.{get_max_gpus}
use glet.Service.Epoch.{Site, Global, do_scheduling, scale_round}

module _ {F : Type 0} ⦃R : Float F⦄ (site : Site F) (session : List (Task F)) where
  -- The table of types has fewer GPUs than the service.
  abbrev pub lacks_gpus : Bool
  lacks_gpus = ltb (get_max_gpus site.config.type_to_num) site.ngpus

  -- What the loop may leave: with GPUs lacking, no failure; with none lacking, an end.
  abbrev pub IsScaled : Bool → Option (Option (Exit × SimState × Global F)) → Type 0
  IsScaled true none = Unit
  IsScaled true (some o) = Ends (λ r. r.0 ≡ success) o
  IsScaled false none = ⊥
  IsScaled false (some o) = Unit

  -- A round ends with success, or with GPUs lacking goes on, or ends with none lacking.
  abbrev IsRound : Bool → Next (Global F) (Exit × SimState × Global F) → Type 0
  IsRound lacks (again x) = lacks ≡ true
  IsRound true (ends r) = r.0 ≡ success
  IsRound false (ends r) = Unit

  -- What follows a run of the scheduler is as it should be.
  verdict-IsRound :
      (lacks : Bool) (result : Exit) (output : SimState) (x next : Global F)
      → IsRound lacks (elim result [
        | success ↦ ends (success, output, x)
        | failure ↦ if lacks then again next else ends (failure, output, x)
      ])
  verdict-IsRound true success output x next = refl
  verdict-IsRound false success output x next = tt
  verdict-IsRound true failure output x next = refl
  verdict-IsRound false failure output x next = tt

  scale_round-IsRound : (x : Global F) → Ends (IsRound lacks_gpus) (scale_round site session x)
  unfolding scale_round
  scale_round-IsRound x =
      Ends-bind (IsRound lacks_gpus)
        (do_scheduling site (record x { store = (copy_to_output x.store x.curr_state none_yet).1 })
          session (copy_to_output x.store x.curr_state none_yet).0 none_yet)
        _ (λ (r : Exit × SimState × Global F) _. verdict-IsRound lacks_gpus r.0 r.1 r.2 _)
    where
      none_yet : SimState
      none_yet = record { gpu_list = []; parts = []; next_dummy_id = 0 }

  -- A loop of such rounds, with GPUs lacking.
  failing_loop :
      (round : Global F → Option (Next (Global F) (Exit × SimState × Global F)))
      → ((x : Global F) → Ends (IsRound true) (round x))
      → (fuel : ℕ) (x : Global F) → IsScaled true (loop round fuel x)
  unfolding loop
  failing_loop round h zero x = tt
  failing_loop round h (suc fuel) x = by_round (round x) (h x) (failing_loop round h fuel)
    where
      by_round :
          (o : Option (Next (Global F) (Exit × SimState × Global F)))
          → Ends (IsRound true) o
          → ((x' : Global F) → IsScaled true (loop round fuel x'))
          → IsScaled true (elim o [
            | none ↦ some none
            | some (ends a) ↦ some (some a)
            | some (again x') ↦ loop round fuel x'
          ])
      by_round none q rest = tt
      by_round (some (ends r)) q rest = q
      by_round (some (again x')) q rest = rest x'

  -- A loop of such rounds.
  loop-IsScaled :
      (lacks : Bool) (round : Global F → Option (Next (Global F) (Exit × SimState × Global F)))
      → ((x : Global F) → Ends (IsRound lacks) (round x))
      → (fuel : ℕ) (x : Global F) → IsScaled lacks (loop round (suc fuel) x)
  unfolding loop
  loop-IsScaled true round h fuel x = failing_loop round h (suc fuel) x
  loop-IsScaled false round h fuel x = by_round (round x) (h x)
    where
      by_round :
          (o : Option (Next (Global F) (Exit × SimState × Global F)))
          → Ends (IsRound false) o
          → IsScaled false (elim o [
            | none ↦ some none
            | some (ends a) ↦ some (some a)
            | some (again x') ↦ loop round fuel x'
          ])
      by_round none q = tt
      by_round (some (ends r)) q = tt
      by_round (some (again x')) q = absurd (ground (arith, q))

  -- Where the table of types has fewer GPUs than the service, the loop never ends with a failure, however
  -- many rounds it is given; where it has not, the loop ends in its first round, by a result or an abort.
  pub scale_loop-IsScaled :
      (fuel : ℕ) (x : Global F) → IsScaled lacks_gpus (loop (scale_round site session) (suc fuel) x)
  scale_loop-IsScaled fuel x =
      loop-IsScaled lacks_gpus (scale_round site session) scale_round-IsRound fuel x
