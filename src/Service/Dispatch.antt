-- ===== src/Service/Dispatch.antt =====
-- Giving waiting requests to proxies, and the latencies that the proxies report: `staticMPSScheduler`,
-- `getTailLatency`, `getAvgLatency` and `addLatency` of src/service/global_scheduler.cpp. The locks
-- are left out.
pub mod Due
use glet.Common.{
  ℕ, zero, suc, ◌/◌, Bool, true, false, not, ◌&&◌, ◌||◌, List, [], ◌∷◌, ◌++◌, String, str_eq, ltb,
  ◌==◌, ◌+◌, if◌then◌else◌, is_empty, length, any, lookup_or, insert, string_key,
}
use glet.Common.Int.{ℤ, pos, ◌-ℤ◌, leb_ℤ}
use glet.Float.{Float}

-- What the dispatch reads of a proxy: `LoadedModels`, `isSchedulable`, the size of its batch queue, its
-- models with their batch sizes, and how many tasks of each model are batched and executed.
pub record Worker : Type 0 where
  pub loaded_models : List String
  pub is_schedulable : Bool
  pub queued : ℕ
  pub net_list : List (String × ℕ)
  pub is_task_batching : List (String × ℕ)
  pub is_task_exec : List (String × ℕ)

-- `TaskSpec`.
pub record TaskSpec : Type 0 where
  pub device_id : ℕ
  pub batch_size : ℕ
  pub req_name : String
  pub proxy : Worker

-- `getTasksNeedScheduling`, on the length of the queue of each model.
unfoldable pub get_tasks_need_scheduling :
    (String → ℕ) → List String → List (String × Bool) → List (String × Bool)
unfolding insert
get_tasks_need_scheduling len [] needs = needs
get_tasks_need_scheduling len (name ∷ names) needs =
    get_tasks_need_scheduling len names (insert name (not (len name == 0)) needs)

-- `needDecision[name]`.
unfoldable pub is_needed : List (String × Bool) → String → Bool
unfolding lookup_or
is_needed needs name = lookup_or false name needs

-- Whether a model of the proxy has requests, is not batching, and is not executing twice.
unfoldable pub assigns : List (String × Bool) → Worker → String × ℕ → Bool
unfolding lookup_or is_needed
assigns needs w (name, batch) =
    let batching = lookup_or 0 name w.is_task_batching in
    ltb (batching + lookup_or 0 name w.is_task_exec) 2 && batching == 0 && is_needed needs name

unfoldable pub is_idle : List (String × Bool) → Worker → Bool
unfolding any assigns
is_idle needs w =
    not (is_empty w.loaded_models)
    && w.is_schedulable
    && w.queued == 0
    && any (assigns needs w) w.net_list

-- The tasks for the models of a proxy that have requests.
unfoldable pub specs_of : List (String × Bool) → ℕ → Worker → List (String × ℕ) → List TaskSpec
unfolding is_needed
specs_of needs dev w [] = []
specs_of needs dev w ((name, batch) ∷ nets) =
    let rest = specs_of needs dev w nets in
    if is_needed needs name
    then record { device_id = dev; batch_size = batch; req_name = name; proxy = w } ∷ rest
    else rest

unfoldable pub specs_of_workers : List (String × Bool) → ℕ → List Worker → List TaskSpec
unfolding is_idle specs_of
specs_of_workers needs dev [] = []
specs_of_workers needs dev (w ∷ ws) =
    (if is_idle needs w then specs_of needs dev w w.net_list else [])
    ++ specs_of_workers needs dev ws

-- The GPUs from number `dev` on.
unfoldable pub specs_of_gpus :
    List (String × Bool) → (ℕ → List Worker) → (dev num : ℕ) → List TaskSpec
unfolding specs_of_workers
specs_of_gpus needs workers dev zero = []
specs_of_gpus needs workers dev (suc num) =
    specs_of_workers needs dev (workers dev) ++ specs_of_gpus needs workers (suc dev) num

unfoldable pub static_mps_scheduler :
    (String → ℕ) → (net_names : List String) → (ngpus : ℕ) → (ℕ → List Worker) → List TaskSpec
unfolding get_tasks_need_scheduling specs_of_gpus
static_mps_scheduler len net_names ngpus workers =
    specs_of_gpus (get_tasks_need_scheduling len net_names []) workers 0 ngpus

-- `addtoNetNames`.
unfoldable pub add_to_net_names : String → List String → List String
unfolding any
add_to_net_names name names = if any (λ n. str_eq n name) names then names else names ++ name ∷ []

-- `PerTaskLatencyVec` and `PerTaskSkipCnt` of a proxy and a model.
pub record Latencies (F : Type 0) : Type 0 where
  pub window : List F
  pub skip_cnt : ℤ

-- The list without its first elements: `pop_front`, that often.
unfoldable pub pop_front {ℓ} : {A : Type ℓ} → ℕ → List A → List A
pop_front zero xs = xs
pop_front (suc n) [] = []
pop_front (suc n) (x ∷ xs) = pop_front n xs

module _ {F : Type 0} ⦃R : Float F⦄ where
  open R use {of_int, lit, add, div, lt}

  -- `addLatency`: more than `MA_WINDOW` latencies lose their older half.
  unfoldable pub add_latency : F → Latencies F → Latencies F
  unfolding pop_front
  add_latency latency v =
      let size = length v.window in
      let kept = if ltb 10 size then pop_front (size / 2) v.window else v.window in
      if leb_ℤ v.skip_cnt (pos 0)
      then record v { window = kept ++ latency ∷ [] }
      else record { window = kept; skip_cnt = v.skip_cnt -ℤ pos 1 }

  unfoldable pub tail_from : F → List F → F
  tail_from tail [] = tail
  tail_from tail (x ∷ xs) = tail_from (if lt tail x then x else tail) xs

  unfoldable pub get_tail_latency : Latencies F → F
  unfolding tail_from
  get_tail_latency v = tail_from (lit 0 0) v.window

  unfoldable pub sum_from : F → List F → F
  sum_from total [] = total
  sum_from total (x ∷ xs) = sum_from (add total x) xs

  unfoldable pub get_avg_latency : Latencies F → F
  unfolding sum_from
  get_avg_latency v =
      if is_empty v.window
      then lit 0 0
      else div (sum_from (lit 0 0) v.window) (of_int (pos (length v.window)))

  unfoldable pub clear_per_model_latency : Latencies F → Latencies F
  clear_per_model_latency v = record v { window = [] }
