-- ===== src/Scheduler/Residue.antt =====
-- Merging the residues of a task: `mergeResidue` of src/scheduler/scheduler_incremental.cpp. `none` is an
-- abort; a model without a table has a null pointer in the source, and an empty table here, in which a
-- search aborts as well.
pub mod Memory
use glet.Common.{
  ◌>>=◌, ◌>>◌, ℕ, suc, ◌+◌, Bool, true, false, not, ◌&&◌, ◌||◌, Option, none, some, List, [], ◌∷◌,
  String, str_eq, ltb, ◌==◌, if◌then◌else◌, is_empty, length, update, lookup_or, nat_key, all,
}
use glet.Common.Int.{ℤ, pos, ltb_ℤ, leb_ℤ}
use glet.Float.{Float}
use glet.Scheduler.State.{
  Task, Node, Gpu, SimState, Store, Config, trp_slack, Exit, success, failure,
}
use glet.Scheduler.Latency.{get_latency_in}
use glet.Scheduler.MaxBatch.{get_max_batch}
use glet.Scheduler.Nodes.{set_node, set_task, new_task, push_task}
use glet.Scheduler.Memory.{does_fit_mem_limit, subtract_gpu_mem_usage, set_gpu}
use glet.Scheduler.Estimate.{SatTrpEntry, get_max_saturate_trp, create_new_task}

-- `residue_cnt`, `request_rate`, and `min_sat_trp` with `type_part_pair`, where `none` stands for the
-- largest float.
pub record Residues (F : Type 0) : Type 0 where
  pub count : ℕ
  pub rate : ℤ
  pub least : Option (F × String × ℕ)

module _ {F : Type 0} ⦃R : Float F⦄ where
  open R use {of_int, lit, add, sub, mul, div, lt, trunc}

  -- The only task of a node that is not saturated, if it is a task of the model.
  unfoldable pub residue_of : Store F → ℕ → Node F → Option ℕ
  residue_of s model_id node = elim node.task_list [
    | [] ↦ none
    | t ∷ ts ↦
        if lt node.occupancy (lit 1 0) && is_empty ts && (s.tasks t).id == model_id
        then some t
        else none
  ]

  unfoldable pub lower : Option (F × String × ℕ) → F → String → ℕ → Option (F × String × ℕ)
  lower none trp type part = some (trp, type, part)
  lower (some (best, type', part')) trp type part =
      if lt trp best then some (trp, type, part) else some (best, type', part')

  unfoldable pub residues_of_nodes :
      Store F → List (SatTrpEntry F) → ℕ → Residues F → List ℕ → Option (Residues F)
  unfolding residue_of get_max_saturate_trp lower
  residues_of_nodes s table model_id r [] = some r
  residues_of_nodes s table model_id r (n ∷ ns) =
      let node = s.nodes n in
      elim (residue_of s model_id node) [
        | none ↦ residues_of_nodes s table model_id r ns
        | some t ↦ elim (get_max_saturate_trp table node.resource_pntg node.type) [
          | none ↦ none
          | some (trp, batch) ↦
              residues_of_nodes s table model_id
                (record {
                  count = suc r.count;
                  rate = trunc (add (of_int r.rate) (s.tasks t).throughput);
                  least = lower r.least trp node.type node.resource_pntg;
                })
                ns
        ]
      ]

  unfoldable pub residues :
      Store F → List (SatTrpEntry F) → ℕ → Residues F → List ℕ → Option (Residues F)
  unfolding residues_of_nodes
  residues s table model_id r [] = some r
  residues s table model_id r (g ∷ gs) =
      elim (residues_of_nodes s table model_id r (s.gpus g).node_list) [
        | none ↦ none
        | some r' ↦ residues s table model_id r' gs
      ]

  unfoldable pub is_residue : Store F → ℕ → Node F → Bool
  unfolding residue_of
  is_residue s model_id node = elim (residue_of s model_id node) [ none ↦ false | some t ↦ true ]

  -- The node as the loop resets it; the result of `subtractGPUMemUsage` is ignored.
  unfoldable pub reset_node : Config F → Store F → ℕ → ℕ → ℕ → Option (Store F)
  unfolding set_node
  reset_node c s model_id g n = do
    (freed, s') ← subtract_gpu_mem_usage c s g model_id n
    some (
        set_node s' n
          (record (s'.nodes n) { task_list = []; occupancy = lit 0 0; duty_cycle = lit 0 0 }))

  unfoldable pub reset_nodes : Config F → Store F → ℕ → ℕ → List ℕ → Option (Store F)
  reset_nodes c s model_id g [] = some s
  reset_nodes c s model_id g (n ∷ ns) = do
    s' ← if is_residue s model_id (s.nodes n) then reset_node c s model_id g n else some s
    reset_nodes c s' model_id g ns

  unfoldable pub reset_gpus : Config F → Store F → ℕ → List ℕ → Option (Store F)
  reset_gpus c s model_id [] = some s
  reset_gpus c s model_id (g ∷ gs) = do
    s' ← reset_nodes c s model_id g (s.gpus g).node_list
    reset_gpus c s' model_id gs

  -- The duty cycle that gathers the batch at the whole rate.
  unfoldable pub merged_duty : ℕ → ℤ → F
  merged_duty batch rate = div (mul (of_int (pos batch)) (lit 1000 0)) (of_int rate)

  unfoldable pub with_duty : Store F → ℕ → F → Store F
  unfolding set_node
  with_duty s n duty = set_node s n (record (s.nodes n) { duty_cycle = duty })

  -- The node with its occupancy and the new task, and what is left of the rate.
  unfoldable pub merged_at : Store F → (t n batch : ℕ) → ℤ → (latency : F) → Store F
  unfolding set_node set_task create_new_task new_task push_task
  merged_at s t n batch rate latency =
      let duty = (s.nodes n).duty_cycle in
      let s1 = set_node s n (record (s.nodes n) { occupancy = div latency duty }) in
      let trp = div (mul (of_int (pos batch)) (lit 1000 0)) duty in
      let (u, s2) =
        new_task s1 (create_new_task (s.tasks t).id (trunc trp) (s.tasks t).slo batch trp) in
      let s3 = push_task s2 n u in
      set_task s3 t (record (s3.tasks t) {
        request_rate = if lt trp (of_int rate) then trunc (sub (of_int rate) trp) else pos 0;
      })

  -- The task on the node `n`.
  unfoldable pub put_merged : Config F → Store F → SimState → ℕ → ℕ → ℕ → ℤ → Option (Store F)
  put_merged c s sim t n batch rate = do
    let s1 = with_duty s n (merged_duty batch rate)
    latency ← get_latency_in c s1 (s1.nodes n).type (s.tasks t).id batch (s1.nodes n) sim
    some (merged_at s1 t n batch rate latency)

  -- The loop that looks for a node; `none` inside is that none was found, with the rate as it then is.
  unfoldable pub merge_into_nodes :
      Config F
      → Store F
      → SimState
      → (t g : ℕ) → String
      → (part : ℕ) → ℤ
      → List ℕ
      → Option (Option (Store F) × ℤ)
  merge_into_nodes c s sim t g type part rate [] = some (none, rate)
  merge_into_nodes c s sim t g type part rate (n ∷ ns) = do
    let node = s.nodes n
    let more = λ (left : ℤ). merge_into_nodes c s sim t g type part left ns
    fits ← does_fit_mem_limit c s (s.gpus g) (s.tasks t).id node
    if not (fits && is_empty node.task_list && str_eq node.type type && node.resource_pntg == part)
        then more rate
        else do
          (batch, rate') ← get_max_batch c s (s.tasks t) node sim rate true true
          if batch == 0
              then more rate'
              else do s' ← put_merged c s sim t n batch rate'; some (some s', rate')

  unfoldable pub merge_into :
      Config F → Store F → SimState → ℕ → String → (part : ℕ) → ℤ → List ℕ → Option (Store F)
  merge_into c s sim t type part rate [] = some s
  merge_into c s sim t type part rate (g ∷ gs) = do
    (found, rate') ← merge_into_nodes c s sim t g type part rate (s.gpus g).node_list
    elim found [ some s' ↦ some s' | none ↦ merge_into c s sim t type part rate' gs ]

  -- The GPU with its first node alone, of 100 percent.
  unfoldable pub made_whole : Store F → (g n : ℕ) → Store F
  unfolding set_node set_gpu
  made_whole s g n =
      set_node (set_gpu s g (record (s.gpus g) { node_list = n ∷ [] })) n
        (record (s.nodes n) { dedup_num = 0; resource_pntg = 100 })

  -- A GPU with more than one node and no task becomes one node again.
  unfoldable pub merge_gpu : Config F → Store F → ℕ → Store F
  unfolding made_whole all
  merge_gpu c s g = elim (s.gpus g).node_list [
    | [] ↦ s
    | n ∷ ns ↦
        if not (is_empty ns)
          && all (λ m. is_empty (s.nodes m).task_list) (n ∷ ns)
          && c.use_repartition
        then made_whole s g n
        else s
  ]

  unfoldable pub merge_gpus : Config F → Store F → List ℕ → Store F
  unfolding merge_gpu
  merge_gpus c s [] = s
  merge_gpus c s (g ∷ gs) = merge_gpus c (merge_gpu c s g) gs

  unfoldable pub over_slack : Task F → Bool
  over_slack task = ltb_ℤ (pos trp_slack) task.request_rate

  -- No residue to merge, one that is small, or more than the least of their parts can serve.
  unfoldable pub skips_merge : Residues F → Bool
  skips_merge r = elim r.least [
    | none ↦ true
    | some (trp, type, part) ↦
        r.count == 0 || (r.count == 1 && ltb_ℤ r.rate (pos trp_slack)) || lt trp (of_int r.rate)
  ]

  -- The merge, once it is known that it is due.
  unfoldable pub merge_at :
      Config F → Store F → SimState → ℕ → String → (part : ℕ) → ℤ → Option (Exit × Store F)
  merge_at c s sim t type part rate = do
    s1 ← reset_gpus c s (s.tasks t).id sim.gpu_list
    s2 ← merge_into c s1 sim t type part rate sim.gpu_list
    some
        (if over_slack (s2.tasks t) then (failure, s2) else (success, merge_gpus c s2 sim.gpu_list))

  unfoldable pub merge_residue :
      Config F → List (ℕ × List (SatTrpEntry F)) → Store F → SimState → ℕ → Option (Exit × Store F)
  merge_residue c tables s sim t = do
    let task = s.tasks t
    let table = lookup_or [] task.id tables
    r ←
        residues s table task.id (record { count = 0; rate = task.request_rate; least = none })
          sim.gpu_list
    if skips_merge r then some (if over_slack task then failure else success, s) else elim r.least [
      | none ↦ none
      | some (trp, type, part) ↦ merge_at c s sim t type part r.rate
    ]
