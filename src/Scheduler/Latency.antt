-- ===== src/Scheduler/Latency.antt =====
-- `getLatency` of src/scheduler/scheduler_base.cpp, in both forms, and what it calls.
use glet.Common.{
  ◌>>=◌, ◌>>◌, nat_key, string_key, ℕ, not, ◌&&◌, Option, none, some, List, [], ◌∷◌, String, str_eq,
  leb, if◌then◌else◌, any, assert, lookup, lookup_or, get_elem?,
}
use glet.Float.{Float}
use glet.Scheduler.State.{Node, Gpu, SimState, Store, DevPerfModel, Config, is_same_node, max_batch}

abbrev names_224 : List String
names_224 = "resnet50" ∷ "googlenet" ∷ "vgg16" ∷ "mnasnet1_0" ∷ "mobilenet_v2" ∷ "densenet161" ∷ []

abbrev names_lenet : List String
names_lenet = "lenet1" ∷ "lenet2" ∷ "lenet3" ∷ "lenet4" ∷ "lenet5" ∷ "lenet6" ∷ []

module _ {F : Type 0} ⦃R : Float F⦄ where
  open R use {of_int, lit, add, sub, mul, eq, lt}

  -- The overhead of batching, before its checks.
  unfoldable pub batch_overhead : Config F → String → ℕ → Option F
  unfolding any lookup_or
  batch_overhead c name batch =
      if any (str_eq name) names_lenet
      then some (lit 4 1)
      else if any (str_eq name) names_224
      then some (mul (lit 19 1) (lookup_or (lit 0 0) batch c.batch_latency_3_224_224))
      else if str_eq name "ssd-mobilenetv1"
      then some (mul (lit 25 1) (lookup_or (lit 0 0) batch c.batch_latency_3_300_300))
      else if str_eq name "bert"
      then some (lit 1 0)
      else none

  unfoldable pub get_batch_latency : Config F → String → ℕ → Option F
  unfolding batch_overhead
  get_batch_latency c name batch = do
    assert (leb 1 batch)
    latency ← batch_overhead c name batch
    assert (not (eq latency (lit 0 0)))
    some latency

  unfoldable pub get_model_name : Config F → ℕ → Option String
  get_model_name c id = get_elem? c.id_to_model_name id

  -- `assert(!device.empty())` and the entry of the table, which the set-up made.
  unfoldable pub device_model : Config F → String → Option (DevPerfModel F)
  unfolding lookup
  device_model c device = do assert (not (str_eq device "")); lookup device c.dev_perf

  unfoldable pub added_overhead : Config F → String → ℕ → Option F
  unfolding get_batch_latency
  added_overhead c name batch =
      if c.use_batching_overhead then get_batch_latency c name batch else some (lit 0 0)

  -- The form that ignores interference.
  unfoldable pub get_latency : Config F → String → ℕ → ℕ → ℕ → Option F
  unfolding device_model get_model_name added_overhead
  get_latency c device model_num batch part = do
    dev ← device_model c device
    assert (leb 1 batch && leb batch max_batch)
    name ← get_model_name c model_num
    latency ← dev.get_latency name batch part
    overhead ← added_overhead c name batch
    some (mul (add latency overhead) c.latency_ratio)

  -- Interference of model a by model b, at least 1.
  unfoldable pub get_interference :
      Config F → String → (a_id b_id a_batch b_batch a_part b_part : ℕ) → Option F
  unfolding device_model get_model_name
  get_interference c device a_id b_id a_batch b_batch a_part b_part = do
    dev ← device_model c device
    model_a ← get_model_name c a_id
    model_b ← get_model_name c b_id
    alpha ← dev.get_interference model_a a_batch a_part model_b b_batch b_part
    some (if lt (lit 1 0) alpha then alpha else lit 1 0)

  -- The inner loop over the tasks of one other node, and the outer loop over the nodes of the GPU.
  unfoldable pub max_over_tasks :
      Config F → Store F → String → (model_id batch_size part : ℕ) → Node F → F → List ℕ → Option F
  unfolding get_interference
  max_over_tasks c s device model_id batch_size part node best [] = some best
  max_over_tasks c s device model_id batch_size part node best (t ∷ ts) =
      let task = s.tasks t in
      elim (get_interference c device model_id task.id batch_size task.batch_size part
        node.resource_pntg) [
          | none ↦ none
          | some i ↦
              max_over_tasks c s device model_id batch_size part node
                (if lt best i then i else best) ts
        ]

  unfoldable pub max_over_nodes :
      Config F → Store F → String → (model_id batch_size : ℕ) → Node F → F → List ℕ → Option F
  unfolding max_over_tasks is_same_node
  max_over_nodes c s device model_id batch_size self best [] = some best
  max_over_nodes c s device model_id batch_size self best (n ∷ ns) =
      let node = s.nodes n in
      elim (if is_same_node node self
        then some best
        else max_over_tasks c s device model_id batch_size self.resource_pntg node best
            node.task_list) [
              | none ↦ none
              | some best' ↦ max_over_nodes c s device model_id batch_size self best' ns
            ]

  unfoldable pub get_gpu_interference :
      Config F → Store F → String → (model_id batch_size : ℕ) → Node F → Gpu → Option F
  unfolding max_over_nodes
  get_gpu_interference c s device model_id batch_size node gpu = do
    assert (not (str_eq device ""))
    max_over_nodes c s device model_id batch_size node (lit 1 0) gpu.node_list

  -- The latency that other nodes of the same GPU add.
  unfoldable pub interference_overhead :
      Config F → Store F → String → (model_num batch : ℕ) → Node F → SimState → F → Option F
  unfolding get_gpu_interference
  interference_overhead c s device model_num batch self sim pure_latency =
      if c.use_interference
      then elim (get_elem? sim.gpu_list self.id) [
        | none ↦ some (lit 0 0)
        | some g ↦ do
          overhead ← get_gpu_interference c s device model_num batch self (s.gpus g)
          some (mul pure_latency (sub overhead (lit 1 0)))
      ]
      else some (lit 0 0)

  -- The form that adds the interference that the other nodes of the GPU cause.
  unfoldable pub get_latency_in :
      Config F → Store F → String → (model_num batch : ℕ) → Node F → SimState → Option F
  unfolding device_model get_model_name added_overhead interference_overhead
  get_latency_in c s device model_num batch self sim = do
    dev ← device_model c device
    assert (leb 1 batch)
    name ← get_model_name c model_num
    pure_latency ← dev.get_latency name batch self.resource_pntg
    batch_overhead ← added_overhead c name batch
    overhead ← interference_overhead c s device model_num batch self sim pure_latency
    some (mul (add (add pure_latency batch_overhead) overhead) c.latency_ratio)
