-- ===== src/Service/Epoch.antt =====
-- An epoch of the global scheduler: `updateGPUMemState`, `FullRepartition`, `doScheduling`,
-- `checkandReduceGPU`, `recoverFromScheduleFailure` and the scheduling part of `OracleScheduler`, of
-- src/service/global_scheduler.cpp, with SCALE defined as in the build file. `none` is an abort.
pub mod Scale
pub mod Oneshot
use glet.Common.{
  ◌>>=◌, ◌>>◌, ℕ, zero, suc, Bool, true, false, not, ◌&&◌, ◌||◌, Option, none, some, List, [], ◌∷◌,
  ◌++◌, String, ltb, leb, ◌==◌, if◌then◌else◌, assert, is_empty, length,
}
use glet.Common.Int.{ℤ, ltb_ℤ}
use glet.Common.Loops.{Next, ends, again, loop, run}
use glet.Float.{Float}
use glet.Scheduler.State.{Task, MemNode, SimState, Store, Config, Exit, success, failure}
use glet.Scheduler.Memory.{set_gpu, update_dev_mem_usage}
use glet.Scheduler.Devices.{get_max_gpus, initiate_devs, init_dev_mems}
use glet.Scheduler.Utils.{get_num_of_used_gpus, recover_scheduler}
use glet.Scheduler.Choose.{Planner}
use glet.Scheduler.Output.{copy_to_output}
use glet.Scheduler.Session.{Surroundings, run_scheduling}
use glet.Service.Rates.{Targets, Models, setup_tasks, setup_all_tasks, remove_max_rates}
use glet.Service.Rates.Backup.{backup_tgt_rates, recover_tgt_rates}

-- What the functions read of a `proxy_info`.
pub record ProxyState : Type 0 where
  pub cap : ℕ
  pub dedup_num : ℕ
  pub is_schedulable : Bool
  pub is_unloading : Bool
  pub loaded_models : List String

-- What the scheduler works with: the models, the fields that do not change, the number of GPUs of the
-- service (`getNGPUs`), the proxies of each GPU, and the memory that a GPU reports of itself.
pub record Site (F : Type 0) : Type 0 where
  pub config : Config F
  pub around : Surroundings F
  pub models : Models F
  pub net_names : List String
  pub ngpus : ℕ
  pub proxies : ℕ → List ProxyState
  pub total_mem : ℕ → ℕ
  pub used_mem : ℕ → ℕ

-- The members of `GlobalScheduler` and of its `IncrementalScheduler` that change; `num_max_gpu` is
-- `_numMaxGPU`.
pub record Global (F : Type 0) : Type 0 where
  pub store : Store F
  pub planner : Planner F
  pub num_max_gpu : ℕ
  pub targets : Targets F
  pub curr_state : SimState
  pub next_state : SimState
  pub need_update : Bool

abbrev no_gpus : SimState → SimState
no_gpus state = record state { gpu_list = [] }

-- The parts that the proxies of a GPU have loaded.
unfoldable pub loaded_parts : List ProxyState → List MemNode
loaded_parts [] = []
loaded_parts (p ∷ ps) =
    let rest = loaded_parts ps in
    if p.is_schedulable && not (length p.loaded_models == 1 && p.is_unloading)
    then record { part = p.cap; dedup_num = p.dedup_num } ∷ rest
    else rest

module _ {F : Type 0} where
  -- `cmp_task_rate_dsc`.
  unfoldable pub cmp_task_rate_dsc : Task F → Task F → Bool
  cmp_task_rate_dsc a b = ltb_ℤ b.request_rate a.request_rate

  unfoldable pub set_flush : Global F → Bool → Global F
  set_flush x flush = record x { targets = record x.targets { flush = flush } }

  -- The loop of `updateGPUMemState` over the first `num` GPUs, the first of which has number `i`: the
  -- store, and the memory in use of the GPUs that have a proxy.
  unfoldable pub load_gpus : Site F → Store F → (i num : ℕ) → List ℕ → List ℕ × Store F
  unfolding loaded_parts set_gpu
  load_gpus site s i zero gpus = ([], s)
  load_gpus site s i (suc num) [] = ([], s)
  load_gpus site s i (suc num) (g ∷ gpus) =
      let s1 = set_gpu s g (record (s.gpus g) { loaded_parts = loaded_parts (site.proxies i) }) in
      let (mems, s2) = load_gpus site s1 (suc i) num gpus in
      let used =
        if ltb (site.total_mem i) (site.used_mem i) then site.total_mem i else site.used_mem i in
      (if is_empty (site.proxies i) then mems else used ∷ mems, s2)

module _ {F : Type 0} ⦃R : Float F⦄ where
  unfoldable pub update_gpu_mem_state :
      Site F → Store F → SimState → (num : ℕ) → Option (SimState × Store F)
  unfolding load_gpus initiate_devs init_dev_mems update_dev_mem_usage
  update_gpu_mem_state site s input num = do
    let (sim, s1) =
        if is_empty input.gpu_list then initiate_devs site.config s input num else (input, s)
    assert (leb num (length sim.gpu_list))
    let (mems, s2) = load_gpus site s1 0 num sim.gpu_list
    s3 ← init_dev_mems site.config s2 sim
    some (sim, update_dev_mem_usage s3 mems sim.gpu_list)

  -- `SBPScheduler.runScheduling`, with the tables and the store of the global scheduler: the result, the
  -- new decision, and the session as it is left.
  unfoldable pub run_sbp :
      Site F
      → Global F
      → (prev_output new_output : SimState) → List (Task F)
      → Bool
      → Option (Exit × SimState × List (Task F) × Global F)
  unfolding run_scheduling
  run_sbp site x prev_output new_output session allow_repart = do
    (result, prev, output, r) ←
        run_scheduling site.around (record site.config { num_max_gpu = x.num_max_gpu }) x.planner
          x.store prev_output new_output session allow_repart
    some (result, output, r.session, record x { store = r.store; planner = r.planner })

  unfoldable pub full_repartition :
      Site F → Global F → (input output : SimState) → Option (Exit × SimState × Global F)
  unfolding update_gpu_mem_state setup_all_tasks run_sbp cmp_task_rate_dsc
  full_repartition site x input output = do
    (sim, s1) ←
        update_gpu_mem_state site x.store (no_gpus input) (get_max_gpus site.config.type_to_num)
    (targets, session) ← setup_all_tasks site.models site.net_names x.targets []
    (result, output', left, x') ←
        run_sbp site (record x { store = s1; targets = targets }) sim (no_gpus output)
          (site.around.sort_tasks cmp_task_rate_dsc session) true
    some (result, output', x')

  -- The incremental attempt of `doScheduling`, and a full one if it fails.
  unfoldable pub schedule_or_repartition :
      Site F
      → Global F
      → List (Task F)
      → (prev_output new_output : SimState) → Option (Exit × SimState × Global F)
  unfolding run_sbp full_repartition
  schedule_or_repartition site x session prev_output new_output = do
    (result, output, left, x') ← run_sbp site x prev_output new_output session false
    elim result [
      | success ↦ some (success, output, x')
      | failure ↦ full_repartition site x' prev_output output
    ]

  unfoldable pub do_scheduling :
      Site F
      → Global F
      → List (Task F)
      → (prev_output new_output : SimState) → Option (Exit × SimState × Global F)
  unfolding set_flush update_gpu_mem_state full_repartition schedule_or_repartition
  do_scheduling site x session prev_output new_output = do
    let max_gpus = get_max_gpus site.config.type_to_num
    let resized = not (max_gpus == length prev_output.gpu_list)
    let x1 = if resized then set_flush x true else x
    (sim, s1) ←
        update_gpu_mem_state site x1.store (if resized then no_gpus prev_output else prev_output)
          max_gpus
    let x2 = record x1 { store = s1 }
    if x2.targets.flush
        then full_repartition site (set_flush x2 false) sim (no_gpus new_output)
        else schedule_or_repartition site x2 session sim (no_gpus new_output)

  -- A round of the loop of `OracleScheduler`: another one follows a failure with a GPU more, where the
  -- service has one.
  unfoldable pub scale_round :
      Site F → List (Task F) → Global F → Option (Next (Global F) (Exit × SimState × Global F))
  unfolding copy_to_output set_flush
  scale_round site session x = do
    let none_yet : SimState = record { gpu_list = []; parts = []; next_dummy_id = 0 }
    let (prev_output, s1) = copy_to_output x.store x.curr_state none_yet
    (result, output, x') ← do_scheduling site (record x { store = s1 }) session prev_output none_yet
    let curr_gpus = get_max_gpus site.config.type_to_num
    some (elim result [
      | success ↦ ends (success, output, x')
      | failure ↦
          if ltb curr_gpus site.ngpus
          then again (record (set_flush x' true) { num_max_gpu = suc curr_gpus })
          else ends (failure, output, x')
    ])

  -- `checkandReduceGPU`.
  unfoldable pub check_and_reduce_gpu : Site F → SimState → Global F → Bool × Global F
  unfolding get_num_of_used_gpus get_max_gpus
  check_and_reduce_gpu site decision x =
      let used_gpus = get_num_of_used_gpus x.store decision in
      if ltb used_gpus (get_max_gpus site.config.type_to_num)
      then (true, record x { num_max_gpu = used_gpus })
      else (false, x)

  -- `recoverFromScheduleFailure`.
  unfoldable pub recover_from_schedule_failure : List (String × F) → SimState → Global F → Global F
  unfolding recover_tgt_rates remove_max_rates recover_scheduler
  recover_from_schedule_failure backup_rate backup x = record x {
    targets = record x.targets {
      tgt = recover_tgt_rates x.targets.tgt backup_rate;
      hist = remove_max_rates x.targets.hist;
    };
    curr_state = recover_scheduler backup x.curr_state;
  }

  -- The scheduling of an epoch, on the rates of the last one: the loop, and what follows its end. The fuel
  -- bounds the rounds of the loop; the outer `none` says that it ran out.
  unfoldable pub schedule_epoch :
      ℕ
      → Site F
      → List (Task F)
      → (backup_rate : List (String × F)) → Global F
      → Option (Option (Exit × Global F))
  unfolding copy_to_output loop scale_round check_and_reduce_gpu recover_from_schedule_failure
  schedule_epoch fuel site session backup_rate x0 =
      let none_yet : SimState = record { gpu_list = []; parts = []; next_dummy_id = 0 } in
      let (backup, s1) = copy_to_output x0.store x0.curr_state none_yet in
      elim (loop (scale_round site session) fuel (record x0 { store = s1 })) [
        | none ↦ none
        | some none ↦ some none
        | some (some (failure, output, x)) ↦
            some (some (failure, recover_from_schedule_failure backup_rate backup x))
        | some (some (success, output, x)) ↦
            let (reduced, x') = check_and_reduce_gpu site output x in
            let (next, s2) = copy_to_output x'.store output x'.next_state in
            some (some (success, record x' { store = s2; next_state = next; need_update = true }))
      ]

  -- The part of `OracleScheduler` from `BackupTgtRates` on, without the routing of the last decision.
  unfoldable pub oracle_epoch : ℕ → Site F → Global F → Option (Option (Global F))
  unfolding backup_tgt_rates setup_tasks schedule_epoch
  oracle_epoch fuel site x =
      let backup_rate = backup_tgt_rates x.targets.tgt [] in
      elim (setup_tasks site.models true site.net_names x.targets []) [
        | none ↦ some none
        | some (targets, session) ↦
            let x' : Global F = record x { targets = targets } in
            if is_empty session
            then some (some x')
            else elim (schedule_epoch fuel site session backup_rate x') [
              | none ↦ none
              | some none ↦ some none
              | some (some (result, x'')) ↦ some (some x'')
            ]
      ]
