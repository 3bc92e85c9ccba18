-- ===== src/Scheduler/State.antt =====
-- The data of src/scheduler/scheduler_base.h. A shared pointer is a number: the store gives the object
-- behind it, so two lists that hold one pointer share the object.
use glet.Common.{ℕ, Bool, ◌&&◌, Option, List, String, ◌==◌}
use glet.Common.Int.{ℤ}

pub record Task (F : Type 0) : Type 0 where
  pub id : ℕ
  pub request_rate : ℤ
  pub org_rate : ℤ
  pub additional_rate : ℤ
  pub slo : ℤ
  pub batch_size : ℕ
  pub throughput : F

pub record MemNode : Type 0 where
  pub part : ℕ
  pub dedup_num : ℕ

-- `task_list` holds pointers to tasks.
pub record Node (F : Type 0) : Type 0 where
  pub task_list : List ℕ
  pub duty_cycle : F
  pub occupancy : F
  pub resource_pntg : ℕ
  pub id : ℕ
  pub reserved : Bool
  pub dedup_num : ℕ
  pub type : String

-- `node_list` holds pointers to nodes.
pub record Gpu : Type 0 where
  pub gpu_id : ℕ
  pub total_memory : ℕ
  pub used_memory : ℕ
  pub type : String
  pub loaded_parts : List MemNode
  pub node_list : List ℕ

-- `gpu_list` holds pointers to GPUs.
pub record SimState : Type 0 where
  pub gpu_list : List ℕ
  pub parts : List ℕ
  pub next_dummy_id : ℕ

-- All objects, and the next fresh pointer.
pub record Store (F : Type 0) : Type 0 where
  pub tasks : ℕ → Task F
  pub nodes : ℕ → Node F
  pub gpus : ℕ → Gpu
  pub next : ℕ

-- `NodePtr a` and `b` name the same node if they agree in these three numbers.
unfoldable pub is_same_node : {F : Type 0} → Node F → Node F → Bool
is_same_node a b =
    (a.id == b.id) && (a.resource_pntg == b.resource_pntg) && (a.dedup_num == b.dedup_num)

-- What the scheduler asks of the performance model of a device (`DevPerfModel`). `none` is an abort.
pub record DevPerfModel (F : Type 0) : Type 0 where
  pub get_latency : String → ℕ → ℕ → Option F
  pub get_interference : String → ℕ → ℕ → String → ℕ → ℕ → Option F
  pub get_dev_mem : ℕ

-- The fields of `BaseScheduler` and `IncrementalScheduler` that the scheduling itself only reads.
pub record Config (F : Type 0) : Type 0 where
  pub use_batching_overhead : Bool
  pub num_max_gpu : ℕ
  pub num_max_model : ℕ
  pub use_part : Bool
  pub latency_ratio : F
  pub use_interference : Bool
  pub use_self_tuning : Bool
  pub use_repartition : Bool
  pub avail_parts : List ℕ
  pub batch_latency_3_224_224 : List (ℕ × F)
  pub batch_latency_3_300_300 : List (ℕ × F)
  pub model_mem : List (ℕ × ℕ)
  pub dev_perf : List (String × DevPerfModel F)
  pub type_to_num : List (String × ℕ)
  pub id_to_model_name : List String

-- `_MAX_BATCH`, `_DEFAULT_PYTORCH_MEM_USAGE` and `TRP_SLACK`.
abbrev pub max_batch : ℕ
max_batch = 32

abbrev pub default_pytorch_mem_usage : ℕ
default_pytorch_mem_usage = 1230

abbrev pub trp_slack : ℕ
trp_slack = 15

-- `EXIT_SUCCESS` and `EXIT_FAILURE`, which the functions return also as `bool`.
pub data Exit : Type 0 where
  success failure : Exit
