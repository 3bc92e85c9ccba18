-- ===== src/Examples/Cluster.antt =====
-- A cluster of one GPU with a free node of 100 percent (node 0, GPU 0) and an estimate of 40 percent
-- (node 1) with one task (task 0), in fixed-point numbers.
use glet.Common.{true, false, some, [], ◌∷◌, ◌==◌, if◌then◌else◌}
use glet.Common.Int.{pos}
use glet.Float.Milli.{Milli}
use glet.Scheduler.State.{Task, Node, Gpu, SimState, Store, DevPerfModel, Config}

abbrev pub device : DevPerfModel Milli
device = record {
  get_latency = λ name batch part. some (pos 10000);
  get_interference = λ a batch part b batch' part'. some (pos 1000);
  get_dev_mem = 8000;
}

abbrev pub config : Config Milli
config = record {
  use_batching_overhead = false;
  num_max_gpu = 1;
  num_max_model = 4;
  use_part = true;
  latency_ratio = pos 1000;
  use_interference = false;
  use_self_tuning = false;
  use_repartition = true;
  avail_parts = 80 ∷ 60 ∷ 40 ∷ 20 ∷ [];
  batch_latency_3_224_224 = [];
  batch_latency_3_300_300 = [];
  model_mem = (0, 1000) ∷ [];
  dev_perf = ("gpu", device) ∷ [];
  type_to_num = ("gpu", 1) ∷ [];
  id_to_model_name = "lenet1" ∷ [];
}

abbrev pub task : Task Milli
task = record {
  id = 0;
  request_rate = pos 100;
  org_rate = pos 100;
  additional_rate = pos 0;
  slo = pos 50;
  batch_size = 4;
  throughput = pos 100000;
}

abbrev pub free_node : Node Milli
free_node = record {
  task_list = [];
  duty_cycle = pos 0;
  occupancy = pos 0;
  resource_pntg = 100;
  id = 0;
  reserved = false;
  dedup_num = 0;
  type = "gpu";
}

abbrev pub estimate : Node Milli
estimate = record free_node { task_list = 0 ∷ []; duty_cycle = pos 10000; resource_pntg = 40 }

abbrev pub gpu : Gpu
gpu = record {
  gpu_id = 0;
  total_memory = 8000;
  used_memory = 0;
  type = "gpu";
  loaded_parts = [];
  node_list = 0 ∷ [];
}

abbrev pub store : Store Milli
store = record {
  tasks = λ t. task;
  nodes = λ n. if n == 0 then free_node else estimate;
  gpus = λ g. gpu;
  next = 2;
}

abbrev pub sim : SimState
sim = record { gpu_list = 0 ∷ []; parts = []; next_dummy_id = 0 }
