-- ===== src/Service/Epoch/Oneshot.antt =====
-- The first decision of the service: `flushandUpdateDevs` and `oneshotScheduling` of
-- src/service/global_scheduler.cpp, up to the decision. `none` is an abort.
use glet.Common.{
  ◌>>=◌, ◌>>◌, ℕ, suc, true, not, Option, some, List, [], leb, ◌==◌, if◌then◌else◌, assert,
}
use glet.Common.Loops.{Next, ends, again, loop, run}
use glet.Float.{Float}
use glet.Scheduler.State.{Task, SimState, Store, Config, Exit, success, failure}
use glet.Scheduler.Devices.{initiate_devs, init_dev_mems}
use glet.Scheduler.Session.{run_scheduling}
use glet.Service.Rates.{setup_all_tasks}
use glet.Service.Epoch.{Site, Global, no_gpus}

-- What changes from round to round: `init_ngpus`, `tasks`, `mPrevState` and the members.
pub record Attempt (F : Type 0) : Type 0 where
  pub init_ngpus : ℕ
  pub tasks : List (Task F)
  pub prev_state : SimState
  pub global : Global F

module _ {F : Type 0} ⦃R : Float F⦄ where
  -- `flushandUpdateDevs`; the memory that it collects is not used.
  unfoldable pub flush_and_update_devs :
      Config F → Store F → SimState → (num_of_gpus : ℕ) → Option (SimState × Store F)
  unfolding initiate_devs init_dev_mems
  flush_and_update_devs c s input num = do
    assert (not (num == 0))
    let (sim, s1) = initiate_devs c s (no_gpus input) num
    s2 ← init_dev_mems c s1 sim
    some (sim, s2)

  -- A round with one GPU more than the last. The scheduler changes the vector of tasks that it is given.
  unfoldable pub oneshot_round : Site F → Attempt F → Option (Next (Attempt F) (Exit × Attempt F))
  unfolding flush_and_update_devs run_scheduling
  oneshot_round site a = do
    let x = a.global
    (sim, s1) ← flush_and_update_devs site.config x.store a.prev_state a.init_ngpus
    (result, prev, curr, r) ←
        run_scheduling site.around (record site.config { num_max_gpu = a.init_ngpus }) x.planner s1
          sim x.curr_state a.tasks true
    let a' : Attempt F = record {
      init_ngpus = suc a.init_ngpus;
      tasks = r.session;
      prev_state = prev;
      global = record x {
        store = r.store;
        planner = r.planner;
        num_max_gpu = a.init_ngpus;
        curr_state = curr;
      };
    }
    some (elim result [
      | success ↦ ends (success, a')
      | failure ↦ if a.init_ngpus == site.ngpus then ends (failure, a') else again a'
    ])

  -- The loop of `oneshotScheduling`, from one GPU on; it has a round for each GPU of the service.
  unfoldable pub oneshot_scheduling : Site F → SimState → Global F → Option (Exit × Attempt F)
  unfolding setup_all_tasks loop oneshot_round
  oneshot_scheduling site prev x = do
    (targets, tasks) ← setup_all_tasks site.models site.net_names x.targets []
    assert (leb 1 site.ngpus)
    run (
        loop (oneshot_round site) site.ngpus (record {
          init_ngpus = 1;
          tasks = tasks;
          prev_state = prev;
          global = record x { targets = targets };
        }))
