-- ===== src/Examples/Planning.antt =====
-- Sessions, rates and epochs in the small cluster.
use glet.Common.{
  ◌≡◌, refl, true, false, Option, some, List, [], ◌∷◌, arith, ◌>>=◌, String, lookup_or,
}
use glet.Common.Int.{pos, ◌*ℤ◌, ◌-ℤ◌, ◌/ℤ◌}
use glet.Common.Loops.{loop, Ends}
use glet.Float.Milli.{Milli, milli_float, Milli-IsWeakOrder}
use glet.Scheduler.State.{Store, Exit, failure}
use glet.Scheduler.Memory.{does_fit_mem_limit}
use glet.Scheduler.Choose.{Planner}
use glet.Scheduler.TimeShare.{candidates, time_share_round, allocate_time_share}
use glet.Scheduler.TimeShare.Ends.{IsShared, allocate_time_share-Ends}
use glet.Scheduler.Residue.{merge_residue}
use glet.Scheduler.Residue.Memory.{IsMerged, merge_residue-IsMerged}
use glet.Scheduler.Session.{Surroundings, Trial, trial_round}
use glet.Scheduler.Session.Retry.{trial_round-ends}
use glet.Service.Rates.{Targets, Models, setup_names, update_and_return_max_hist_rate, rate_of}
use glet.Service.Rates.Idle.{HasZero, IsIdle, IsPassedOver, setup_names-IsPassedOver}
use glet.Service.Rates.History.{Holds, IsWindow, fed, take, fed-IsWindow}
use glet.Service.Epoch.{Site, Global, scale_round}
use glet.Service.Epoch.Scale.{lacks_gpus, IsScaled, scale_loop-IsScaled}
use glet.Examples.Cluster.{config, task, store, sim}

one_candidate : candidates config store (store.tasks 0).id [] sim.gpu_list ≡ some (0 ∷ [])
unfolding candidates does_fit_mem_limit ◌*ℤ◌ ◌-ℤ◌ ◌/ℤ◌
one_candidate = refl

allocate_time_share-Ends_example :
    (o : Option (Exit × Store Milli)) × (loop (time_share_round config sim 0 (0 ∷ [])) 2 store
      ≡ some o)
    × (allocate_time_share (λ cmp ns. ns) config store sim 0 [] ≡ o)
    × Ends (IsShared config sim 0 (0 ∷ [])) o
allocate_time_share-Ends_example =
    allocate_time_share-Ends (λ cmp ns. ns) config store sim 0 [] (0 ∷ []) one_candidate

merge_residue-IsMerged_example : Ends (IsMerged store 0) (merge_residue config [] store sim 0)
merge_residue-IsMerged_example = merge_residue-IsMerged config [] store sim 0

abbrev around : Surroundings Milli
around = record {
  fuel = 10;
  sort_nodes = λ cmp ns. ns;
  sort_tasks = λ cmp ts. ts;
  fallen = failure;
}

abbrev planner : Planner Milli
planner = record {
  sat_tables = [];
  priority_check = false;
  priority_type = "gpu";
  checks_network = false;
  networks = [];
}

abbrev trial : Trial Milli
trial = record { session = task ∷ []; flags = []; planner = planner; store = store }

trial_round-ends_example :
    (o : Option (Exit × Trial Milli)) × (loop (trial_round around config sim) 2 trial ≡ some o)
trial_round-ends_example = trial_round-ends around config sim (λ cmp p tasks h. h) trial

-- The constant `HIST_LEN` of the source.
abbrev hist_len : Milli
hist_len = pos 1500

one_rate : Holds hist_len 1
unfolding ◌*ℤ◌
one_rate n = ground arith

fed-IsWindow_example :
    (r : Milli × List (String × List Milli)) × ((fed hist_len "lenet1"
          (pos 70000 ∷ pos 90000 ∷ [])
          []
        >>= update_and_return_max_hist_rate hist_len "lenet1" (pos 80000))
      ≡ some r)
    × IsWindow "lenet1" (take 1 (pos 80000 ∷ pos 70000 ∷ pos 90000 ∷ [])) r
unfolding lookup_or
fed-IsWindow_example =
    fed-IsWindow Milli-IsWeakOrder hist_len 0 "lenet1" (pos 80000) (pos 70000 ∷ pos 90000 ∷ []) []
      one_rate refl

zero_of_milli : HasZero Milli
zero_of_milli = record { eq_zero = refl; not_above_one = λ x h. ground (arith, h) }

abbrev models : Models Milli
models = record {
  hist_len = hist_len;
  ariv_rate = λ name. pos 50000;
  names = "lenet1" ∷ [];
  slo = ("lenet1", pos 50) ∷ [];
}

abbrev targets : Targets Milli
targets = record { tgt = ("lenet1", pos 0) ∷ []; hist = []; flush = false }

idle : IsIdle "lenet1" targets
unfolding rate_of
idle = refl

setup_names-IsPassedOver_example :
    Ends (IsPassedOver "lenet1") (setup_names models true ("lenet1" ∷ []) targets)
setup_names-IsPassedOver_example =
    setup_names-IsPassedOver zero_of_milli models true "lenet1" ("lenet1" ∷ []) targets idle

-- A service of two GPUs, of which the table of types counts one.
abbrev site : Site Milli
site = record {
  config = config;
  around = around;
  models = models;
  net_names = "lenet1" ∷ [];
  ngpus = 2;
  proxies = λ i. [];
  total_mem = λ i. 8000;
  used_mem = λ i. 0;
}

abbrev global : Global Milli
global = record {
  store = store;
  planner = planner;
  num_max_gpu = 1;
  targets = targets;
  curr_state = sim;
  next_state = sim;
  need_update = false;
}

scale_loop-IsScaled_example :
    IsScaled site
      (task ∷ [])
      (lacks_gpus site (task ∷ []))
      (loop (scale_round site (task ∷ [])) 3 global)
scale_loop-IsScaled_example = scale_loop-IsScaled site (task ∷ []) 2 global
