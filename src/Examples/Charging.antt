-- ===== src/Examples/Charging.antt =====
-- Memory, batches and parts in the small cluster.
use glet.Common.{◌≤◌, ◌≡◌, refl, true, false, some, [], ◌∷◌, arith, any, ◌==◌, if◌then◌else◌}
use glet.Common.Int.{◌*ℤ◌, ◌-ℤ◌, ◌/ℤ◌}
use glet.Float.Milli.{Milli, milli_float, Milli-IsRounded}
use glet.Scheduler.State.{Node, Store, success}
use glet.Scheduler.Nodes.{copy_to_node}
use glet.Scheduler.Memory.{
  is_part_loaded, is_model_loaded, has_model, additional_memory, charge, set_gpu, add_gpu_mem_usage,
  subtract_gpu_mem_usage,
}
use glet.Scheduler.Memory.Accounting.{IsWithin, add_gpu_mem_usage-IsWithin, subtract-add}
use glet.Scheduler.Memory.Uncharged.{add-copy_to_node}
use glet.Examples.Cluster.{config, free_node, estimate, gpu, store}

small : gpu.total_memory ≤ 16777216
small = omega arith

within : IsWithin store
within g = ground arith

abbrev charged : Store Milli
charged = set_gpu store 0 (charge config gpu 0 free_node)

added : add_gpu_mem_usage config store 0 0 0 ≡ some (success, charged)
unfolding add_gpu_mem_usage ◌*ℤ◌ ◌-ℤ◌ ◌/ℤ◌
added = refl

add_gpu_mem_usage-IsWithin_example : IsWithin charged
add_gpu_mem_usage-IsWithin_example =
    add_gpu_mem_usage-IsWithin config store charged 0 0 0 success Milli-IsRounded small within added

-- An estimate of 100 percent, which is charged and then copied to node 0.
abbrev whole : Node Milli
whole = record estimate { resource_pntg = 100 }

abbrev wide : Store Milli
wide = record store { nodes = λ n. if n == 0 then free_node else whole }

abbrev charged_whole : Store Milli
charged_whole = set_gpu wide 0 (charge config gpu 0 whole)

abbrev running : Store Milli
running = copy_to_node charged_whole 1 0 true

new : is_model_loaded wide gpu whole 0 ≡ false
unfolding is_model_loaded
new = refl

added_whole : add_gpu_mem_usage config wide 0 0 1 ≡ some (success, charged_whole)
unfolding add_gpu_mem_usage ◌*ℤ◌ ◌-ℤ◌ ◌/ℤ◌
added_whole = refl

same_gpu : running.gpus 0 ≡ charged_whole.gpus 0
unfolding copy_to_node
same_gpu = refl

same_node : running.nodes 1 ≡ wide.nodes 1
unfolding copy_to_node set_gpu
same_node = refl

still : is_model_loaded running (running.gpus 0) (running.nodes 1) 0 ≡ true
unfolding is_model_loaded copy_to_node set_gpu charge
still = refl

subtract-add_example :
    (u : Store Milli) × (subtract_gpu_mem_usage config running 0 0 1 ≡ some (success, u))
    × ((u.gpus 0).used_memory ≡ 1230)
    × (is_part_loaded (u.gpus 0) whole ≡ true)
unfolding additional_memory
subtract-add_example =
    subtract-add config wide charged_whole running 0 0 1 new added_whole same_gpu same_node still

-- A second model of the same part: the part is loaded before the task is copied.
abbrev loaded : Store Milli
loaded = record wide {
  gpus = λ g. record gpu {
    used_memory = 1230;
    loaded_parts = record { part = 100; dedup_num = 0 } ∷ [];
  };
}

has_task : has_model loaded 0 (loaded.nodes 1) ≡ true
unfolding has_model
has_task = refl

part : is_part_loaded (loaded.gpus 0) ((copy_to_node loaded 1 0 true).nodes 0) ≡ true
unfolding is_part_loaded copy_to_node
part = refl

listed : any (λ k. k == 0) (loaded.gpus 0).node_list ≡ true
unfolding any
listed = refl

add-copy_to_node_example :
    let s' = copy_to_node loaded 1 0 true in add_gpu_mem_usage config s' 0 0 0 ≡ some (success, s')
add-copy_to_node_example = add-copy_to_node config loaded 1 0 0 0 true has_task listed part
