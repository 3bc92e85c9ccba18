-- ===== src/Scheduler/Memory.antt =====
-- Memory accounting of the GPUs: `isPartLoaded`, `isModelLoaded`, `initDevMem` and `updateDevMemUsage`
-- of src/scheduler/scheduler_base.cpp, and `doesFitMemLimit`, `addGPUMemUsage` and
-- `subtractGPUMemUsage` of scheduler_incremental.cpp.
pub mod Accounting
pub mod Uncharged
use glet.Common.{
  ℕ, zero, suc, ◌+◌, ◌-◌, Bool, true, false, not, ◌&&◌, ◌||◌, Option, none, some, List, [], ◌∷◌,
  ◌++◌, ltb, ◌==◌, if◌then◌else◌, any, assert, ◌>>=◌, ◌>>◌, update, lookup_or, nat_key, get_elem?,
}
use glet.Common.Int.{pos}
use glet.Float.{Float}
use glet.Scheduler.State.{
  Task, MemNode, Node, Gpu, SimState, Store, Config, default_pytorch_mem_usage, Exit, success,
  failure,
}

-- `isPartLoaded`: the GPU has loaded a part of this size and number.
unfoldable pub is_part_loaded : {F : Type 0} → Gpu → Node F → Bool
unfolding any
is_part_loaded gpu node =
    any (λ m. m.part == node.resource_pntg && m.dedup_num == node.dedup_num) gpu.loaded_parts

module _ {F : Type 0} where
  unfoldable pub has_model : Store F → ℕ → Node F → Bool
  unfolding any
  has_model s model_id node = any (λ t. (s.tasks t).id == model_id) node.task_list

  -- `isModelLoaded`: a node of the same size and number on the GPU has a task of the model.
  unfoldable pub is_model_loaded : Store F → Gpu → Node F → ℕ → Bool
  unfolding is_part_loaded has_model any
  is_model_loaded s gpu node model_id =
      is_part_loaded gpu node
      && any
          (λ n.
            (s.nodes n).resource_pntg == node.resource_pntg
            && (s.nodes n).dedup_num == node.dedup_num
            && has_model s model_id (s.nodes n))
          gpu.node_list

  unfoldable pub model_mem : Config F → ℕ → ℕ
  unfolding lookup_or
  model_mem c model_id = lookup_or 0 model_id c.model_mem

  -- The memory of a new gpu-let, if the part has not been loaded.
  unfoldable pub additional_memory : Gpu → Node F → ℕ
  unfolding is_part_loaded
  additional_memory gpu node = if is_part_loaded gpu node then 0 else default_pytorch_mem_usage

  unfoldable pub set_gpu : Store F → ℕ → Gpu → Store F
  set_gpu s g gpu = record s { gpus = update s.gpus g gpu }

  unfoldable pub init_dev_mem : Store F → ℕ → ℕ → Store F
  unfolding set_gpu
  init_dev_mem s g mem = set_gpu s g (record (s.gpus g) { total_memory = mem; used_memory = 0 })

  -- The loop of `updateDevMemUsage`, which stops at the end of the shorter list (`returnNDev`).
  unfoldable pub update_dev_mem_usage : Store F → List ℕ → List ℕ → Store F
  unfolding set_gpu
  update_dev_mem_usage s [] gpus = s
  update_dev_mem_usage s (used ∷ mems) [] = s
  update_dev_mem_usage s (used ∷ mems) (g ∷ gpus) =
      update_dev_mem_usage (set_gpu s g (record (s.gpus g) { used_memory = used })) mems gpus

  -- `subtractGPUMemUsage`. The source's test `used - mem < 0` is `used < mem`.
  unfoldable pub subtract_gpu_mem_usage : Config F → Store F → ℕ → ℕ → ℕ → Option (Exit × Store F)
  unfolding is_part_loaded is_model_loaded model_mem set_gpu
  subtract_gpu_mem_usage c s g model_id n = do
    let gpu = s.gpus g
    let node = s.nodes n
    assert (is_part_loaded gpu node)
    some (
        if not (is_model_loaded s gpu node model_id)
        then (success, s)
        else if ltb gpu.used_memory (model_mem c model_id)
        then (failure, s)
        else (
          success,
          set_gpu s g (record gpu { used_memory = gpu.used_memory - model_mem c model_id }),
        ))

-- The comparison of `doesFitMemLimit`, against nine tenths of the memory (`_MEM_ROOM`).
unfoldable pub has_room : (F : Type 0) ⦃R : Float F⦄ → (total used need : ℕ) → Bool
has_room F ⦃R⦄ total used need =
    R.lt (R.of_int (pos need))
      (R.sub (R.mul (R.of_int (pos total)) (R.lit 9 1)) (R.of_int (pos used)))

module _ {F : Type 0} ⦃R : Float F⦄ where
  unfoldable pub does_fit_mem_limit : Config F → Store F → Gpu → ℕ → Node F → Option Bool
  unfolding model_mem is_model_loaded additional_memory has_room
  does_fit_mem_limit c s gpu model_id node = do
    assert (not (model_mem c model_id == 0))
    assert (not (gpu.total_memory == 0))
    some (
        if is_model_loaded s gpu node model_id
        then true
        else has_room F gpu.total_memory gpu.used_memory
            (model_mem c model_id + additional_memory gpu node))

  -- The GPU once the model is charged and its part is on the list of loaded parts.
  unfoldable pub charge : Config F → Gpu → ℕ → Node F → Gpu
  unfolding model_mem additional_memory
  charge c gpu model_id node = record gpu {
    used_memory = gpu.used_memory + (model_mem c model_id + additional_memory gpu node);
    loaded_parts =
        gpu.loaded_parts ++ record { part = node.resource_pntg; dedup_num = node.dedup_num } ∷ [];
  }

  unfoldable pub add_gpu_mem_usage : Config F → Store F → ℕ → ℕ → ℕ → Option (Exit × Store F)
  unfolding is_model_loaded does_fit_mem_limit charge set_gpu
  add_gpu_mem_usage c s g model_id n =
      let gpu = s.gpus g in
      let node = s.nodes n in
      if is_model_loaded s gpu node model_id then some (success, s) else do
        fits ← does_fit_mem_limit c s gpu model_id node
        some (if fits then (success, set_gpu s g (charge c gpu model_id node)) else (failure, s))
