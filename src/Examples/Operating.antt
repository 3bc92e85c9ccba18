-- ===== src/Examples/Operating.antt =====
-- Dispatching, loading and tuning in a service with one proxy.
use glet.Common.{ℕ, ◌≤◌, ◌≡◌, true, false, some, List, [], ◌∷◌, arith, All}
use glet.Common.Int.{pos}
use glet.Common.Loops.{Ends}
use glet.Float.Milli.{Milli, milli_float}
use glet.Service.Dispatch.{Worker, static_mps_scheduler}
use glet.Service.Dispatch.Due.{IsDue, static_mps_scheduler-IsDue}
use glet.Service.Loading.{
  ProxyEntry, need_to_load, is_superfluous, kept_ids, ids_batches, load_model_sync,
  unload_model_async,
}
use glet.Service.Loading.Loaded.{load_model_sync-need_to_load}
use glet.Service.Loading.Unloaded.{unload_model_async-is_superfluous}
use glet.Service.Tuning.{allocate_min_max_fair}
use glet.Service.Tuning.Cut.{IsAllocation, allocate_min_max_fair-IsAllocation}
use glet.Examples.Cluster.{store}

abbrev worker : Worker
worker = record {
  loaded_models = "lenet1" ∷ [];
  is_schedulable = true;
  queued = 0;
  net_list = ("lenet1", 4) ∷ [];
  is_task_batching = [];
  is_task_exec = [];
}

static_mps_scheduler-IsDue_example :
    All
      (IsDue (λ name. 3))
      (static_mps_scheduler (λ name. 3) ("lenet1" ∷ []) 1 (λ dev. worker ∷ []))
static_mps_scheduler-IsDue_example =
    static_mps_scheduler-IsDue (λ name. 3) ("lenet1" ∷ []) 1 (λ dev. worker ∷ [])

-- A proxy that has loaded another model than the one that it is to run.
abbrev entry : ProxyEntry Milli
entry = record {
  dev_id = 0;
  cap = 100;
  dedup_num = 0;
  loaded_models = "vgg16" ∷ [];
  net_list = [];
  is_booted = true;
  is_connected = true;
  is_schedulable = true;
  is_reserved = false;
  is_loading = true;
  is_unloading = false;
  duty_cycle = pos 0;
}

load_model_sync-need_to_load_example :
    Ends
      (λ r. need_to_load ("lenet1" ∷ "vgg16" ∷ []) store r.0 (0 ∷ []) ≡ some false)
      (load_model_sync true false ("lenet1" ∷ "vgg16" ∷ []) (ids_batches store (0 ∷ [])) entry)
load_model_sync-need_to_load_example =
    load_model_sync-need_to_load true false ("lenet1" ∷ "vgg16" ∷ []) store (0 ∷ []) entry

unload_model_async-is_superfluous_example :
    Ends
      (λ r. is_superfluous ("lenet1" ∷ "vgg16" ∷ []) store (0 ∷ []) r.0.loaded_models ≡ some false)
      (unload_model_async true ("lenet1" ∷ "vgg16" ∷ []) (kept_ids store (0 ∷ [])) entry)
unload_model_async-is_superfluous_example =
    unload_model_async-is_superfluous true ("lenet1" ∷ "vgg16" ∷ []) store (0 ∷ []) entry

no_zero_part : All (λ p. 1 ≤ p) (80 ∷ 60 ∷ 40 ∷ 20 ∷ [])
no_zero_part = (omega arith, (omega arith, (omega arith, (omega arith, tt))))

allocate_min_max_fair-IsAllocation_example :
    (r : List (ℕ × List ℕ) × List (ℕ × ℕ)) × (allocate_min_max_fair 1
        (λ ms. ms)
        ((0, 50) ∷ (1, 120) ∷ [])
        (80 ∷ 60 ∷ 40 ∷ 20 ∷ [])
      ≡ some r)
    × IsAllocation (80 ∷ 60 ∷ 40 ∷ 20 ∷ []) r.0
allocate_min_max_fair-IsAllocation_example =
    allocate_min_max_fair-IsAllocation 1 (λ ms. ms) (0, 50) ((1, 120) ∷ []) 80 (60 ∷ 40 ∷ 20 ∷ [])
      no_zero_part
