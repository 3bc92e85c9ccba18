-- ===== src/Scheduler/Session.antt =====
-- A run of the scheduler over the tasks of a session: `elasticPartitioning`, `incrementalScehduling` and
-- `runScheduling` of src/scheduler/scheduler_incremental.cpp. `none` is an abort.
--
-- `elasticPartitioning` has no `return` at its end, so what its caller reads there is undefined in C++.
-- It is the parameter `fallen`; `success` is what the function means to return.
pub mod Retry
use glet.Common.{
  ◌>>=◌, ℕ, suc, Bool, true, false, not, ◌&&◌, ◌||◌, Option, none, some, List, [], ◌∷◌, ◌++◌, ltb,
  ◌==◌, if◌then◌else◌, is_empty, lookup, lookup_or, insert, nat_key,
}
use glet.Common.Int.{ℤ, pos, ◌*ℤ◌, leb_ℤ, ltb_ℤ}
use glet.Common.Loops.{Next, ends, again, loop, run}
use glet.Float.{Float}
use glet.Scheduler.State.{Task, SimState, Store, Config, Exit, success, failure}
use glet.Scheduler.Nodes.{new_task}
use glet.Scheduler.Estimate.{init_saturate_trp, create_new_task}
use glet.Scheduler.Devices.{initiate_devs}
use glet.Scheduler.Choose.{Planner}
use glet.Scheduler.TimeShare.{SortNodes}
use glet.Scheduler.Incremental.{add_model_to_schedule}
use glet.Scheduler.Output.{copy_session, copy_to_output}

-- `std::sort` on the tasks of a session, with the comparison of the call; ties may come in any order.
abbrev pub SortTasks : Type 0 → Type 0
SortTasks F = (Task F → Task F → Bool) → List (Task F) → List (Task F)

-- What surrounds the scheduling of a session: the fuel of the inner loops, the two sorts, and what a
-- caller reads that `elasticPartitioning` gives no value.
pub record Surroundings (F : Type 0) : Type 0 where
  pub fuel : ℕ
  pub sort_nodes : SortNodes
  pub sort_tasks : SortTasks F
  pub fallen : Exit

-- The session, the flags, the tables and the store between two rounds.
pub record Trial (F : Type 0) : Type 0 where
  pub session : List (Task F)
  pub flags : List (ℕ × Bool)
  pub planner : Planner F
  pub store : Store F

module _ {F : Type 0} where
  -- `cmp_task_dsc`.
  unfoldable pub cmp_task_dsc : Task F → Task F → Bool
  cmp_task_dsc a b =
      let x = a.request_rate *ℤ a.slo in
      let y = b.request_rate *ℤ b.slo in ltb_ℤ x y || (leb_ℤ x y && leb_ℤ y x && ltb b.id a.id)

module _ {F : Type 0} ⦃R : Float F⦄ where
  open R use {of_int, lit, add, mul, lt}

  -- `initSaturateTrp` for a model that has no table yet.
  unfoldable pub with_table : Config F → Planner F → Store F → Task F → Option (Planner F)
  unfolding lookup insert init_saturate_trp
  with_table c p s task = elim (lookup task.id p.sat_tables) [
    | some table ↦ some p
    | none ↦ elim (init_saturate_trp c s task c.type_to_num) [
      | none ↦ none
      | some none ↦ some p
      | some (some table) ↦ some (record p { sat_tables = insert task.id table p.sat_tables })
    ]
  ]

  -- The loop of `elasticPartitioning`, on a copy of each task.
  unfoldable pub add_models :
      Surroundings F
      → Config F
      → Planner F
      → Store F
      → SimState
      → List (Task F)
      → Option (Exit × Planner F × Store F)
  unfolding with_table new_task add_model_to_schedule
  add_models e c p s sim [] = some (e.fallen, p, s)
  add_models e c p s sim (task ∷ tasks) = elim (with_table c p s task) [
    | none ↦ none
    | some p' ↦
        let (t, s1) = new_task s task in
        elim (add_model_to_schedule e.fuel e.sort_nodes c p' s1 sim t) [
          | none ↦ none
          | some (failure, s2) ↦ some (failure, p', s2)
          | some (success, s2) ↦ add_models e c p' s2 sim tasks
        ]
  ]

  unfoldable pub elastic_partitioning :
      Surroundings F
      → Config F
      → Planner F
      → Store F
      → SimState
      → List (Task F)
      → Option (Exit × List (Task F) × Planner F × Store F)
  unfolding cmp_task_dsc add_models
  elastic_partitioning e c p s sim session =
      let sorted = e.sort_tasks cmp_task_dsc session in
      elim (add_models e c p s sim sorted) [
        | none ↦ none
        | some (result, p', s') ↦ some (result, sorted, p', s')
      ]

  -- `task_to_trpt[model_id]`: the throughput that the decision gives to a model.
  unfoldable pub trpt_of_tasks : Store F → ℕ → F → List ℕ → F
  trpt_of_tasks s model_id total [] = total
  trpt_of_tasks s model_id total (t ∷ ts) =
      trpt_of_tasks s model_id
        (if (s.tasks t).id == model_id then add total (s.tasks t).throughput else total) ts

  unfoldable pub trpt_of_nodes : Store F → ℕ → F → List ℕ → F
  unfolding trpt_of_tasks
  trpt_of_nodes s model_id total [] = total
  trpt_of_nodes s model_id total (n ∷ ns) =
      trpt_of_nodes s model_id (trpt_of_tasks s model_id total (s.nodes n).task_list) ns

  unfoldable pub trpt_of : Store F → ℕ → F → List ℕ → F
  unfolding trpt_of_nodes
  trpt_of s model_id total [] = total
  trpt_of s model_id total (g ∷ gs) =
      trpt_of s model_id (trpt_of_nodes s model_id total (s.gpus g).node_list) gs

  -- `task_to_org_rate_mapping`, in which the last task of an id counts.
  unfoldable pub org_rates : List (ℕ × ℤ) → List (Task F) → List (ℕ × ℤ)
  unfolding insert
  org_rates rates [] = rates
  org_rates rates (task ∷ tasks) = org_rates (insert task.id task.request_rate rates) tasks

  -- Whether a task gets less than 85% of its rate.
  unfoldable pub falls_short : Store F → SimState → List (ℕ × ℤ) → Task F → Bool
  unfolding trpt_of lookup_or
  falls_short s sim rates task =
      lt (trpt_of s task.id (lit 0 0) sim.gpu_list)
        (mul (of_int (lookup_or (pos 0) task.id rates)) (lit 85 2))

  -- The loop over the session: `new_session`, and `none` for its `EXIT_FAILURE`; the flags are the ids
  -- that have been tried again.
  unfoldable pub retry_tasks :
      Store F
      → SimState
      → List (ℕ × ℤ)
      → List (ℕ × Bool)
      → List (Task F)
      → Option (List (ℕ × Bool) × List (Task F))
  unfolding falls_short lookup_or insert create_new_task
  retry_tasks s sim rates flags [] = some (flags, [])
  retry_tasks s sim rates flags (task ∷ tasks) = elim (falls_short s sim rates task) [
    | false ↦ retry_tasks s sim rates flags tasks
    | true ↦ elim (lookup_or false task.id flags) [
      | true ↦ none
      | false ↦ elim (retry_tasks s sim rates (insert task.id true flags) tasks) [
        | none ↦ none
        | some (flags', more) ↦ some (
          flags',
          create_new_task task.id (lookup_or (pos 0) task.id rates) task.slo 0 (lit 0 0) ∷ more,
        )
      ]
    ]
  ]

  -- The end of a round, with the session as `elasticPartitioning` has sorted it: the tasks that fall
  -- short are tried again.
  unfoldable pub retry_round :
      Config F → SimState → List (ℕ × ℤ) → Trial F → Next (Trial F) (Exit × Trial F)
  unfolding retry_tasks copy_session
  retry_round c sim rates r =
      if not c.use_interference
      then ends (success, r)
      else elim (retry_tasks r.store sim rates r.flags r.session) [
        | none ↦ ends (failure, r)
        | some (flags', more) ↦
            let r' : Trial F = record r { session = copy_session more; flags = flags' } in
            if is_empty more then ends (success, r') else again r'
      ]

  unfoldable pub trial_round :
      Surroundings F → Config F → SimState → Trial F → Option (Next (Trial F) (Exit × Trial F))
  unfolding org_rates elastic_partitioning retry_round
  trial_round e c sim r = elim (elastic_partitioning e c r.planner r.store sim r.session) [
    | none ↦ none
    | some (result, session, p', s') ↦
        let r' : Trial F = record r { session = session; planner = p'; store = s' } in
        some (elim result [
          | failure ↦ ends (failure, r')
          | success ↦ retry_round c sim (org_rates [] r.session) r'
        ])
  ]

  -- `incrementalScehduling`: no task is tried a third time, so two rounds are enough.
  unfoldable pub incremental_scheduling :
      Surroundings F
      → Config F
      → Planner F
      → Store F
      → SimState
      → List (Task F)
      → Option (Exit × SimState × Trial F)
  unfolding initiate_devs loop trial_round
  incremental_scheduling e c p s decision session = do
    let (sim, s1) =
        if is_empty decision.gpu_list
        then initiate_devs c s decision c.num_max_gpu
        else (decision, s)
    (result, r) ← run (
        loop (trial_round e c sim) 2
          (record { session = session; flags = []; planner = p; store = s1 }))
    some (result, sim, r)

  -- `runScheduling`: the new decision is a copy of the previous one, which is changed in place.
  unfoldable pub run_scheduling :
      Surroundings F
      → Config F
      → Planner F
      → Store F
      → (prev_output new_output : SimState) → List (Task F)
      → Bool
      → Option (Exit × SimState × SimState × Trial F)
  unfolding incremental_scheduling copy_to_output
  run_scheduling e c p s prev_output new_output session allow_repart = do
    (result, prev, r) ←
        incremental_scheduling e (record c { use_repartition = allow_repart }) p s prev_output
          session
    elim result [
      | failure ↦ some (failure, prev, new_output, r)
      | success ↦
          let (output, s') = copy_to_output r.store prev new_output in
          some (success, prev, output, record r { store = s' })
    ]
