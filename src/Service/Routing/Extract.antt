-- ===== src/Service/Routing/Extract.antt =====
-- `clearAllTasks`, `containID` and `extractTasksFromProxys` of src/service/global_scheduler.cpp.
use glet.Common.{ℕ, Bool, ◌&&◌, List, [], ◌∷◌, ◌++◌, ◌==◌, if◌then◌else◌, any}
use glet.Float.{Float}
use glet.Scheduler.State.{Task, SimState, Store}
use glet.Scheduler.Nodes.{set_node}
use glet.Scheduler.Estimate.{create_new_task}
use glet.Service.Loading.{ProxyEntry, Fleet}
use glet.Service.Routing.{is_node_of}

module _ {F : Type 0} ⦃R : Float F⦄ where
  open R use {lit}

  -- `clearAllTasks`, over the nodes of a GPU and over the GPUs.
  unfoldable pub clear_tasks : Store F → List ℕ → Store F
  unfolding set_node
  clear_tasks s [] = s
  clear_tasks s (n ∷ ns) =
      clear_tasks
        (set_node s n
          (record (s.nodes n) { duty_cycle = lit 0 0; task_list = []; occupancy = lit 0 0 }))
        ns

  unfoldable pub clear_all_tasks : Store F → List ℕ → Store F
  unfolding clear_tasks
  clear_all_tasks s [] = s
  clear_all_tasks s (g ∷ gs) = clear_all_tasks (clear_tasks s (s.gpus g).node_list) gs

  -- `containID`.
  unfoldable pub contain_id : List (Task F) → ℕ → Bool
  unfolding any
  contain_id tasks id = any (λ t. t.id == id) tasks

  -- The loops of `extractTasksFromProxys`. A task that is there already is left as it is: the rate is
  -- added to a copy.
  unfoldable pub extract_tasks : Store F → List ℕ → List (Task F) → List (Task F)
  unfolding contain_id create_new_task
  extract_tasks s [] tasks = tasks
  extract_tasks s (t ∷ ts) tasks = extract_tasks s ts (
      if contain_id tasks (s.tasks t).id
      then tasks
      else tasks
        ++ create_new_task (s.tasks t).id (s.tasks t).request_rate (s.tasks t).slo 0 (lit 0 0) ∷ [])

  unfoldable pub extract_nodes : Store F → ProxyEntry F → List ℕ → List (Task F) → List (Task F)
  unfolding extract_tasks is_node_of
  extract_nodes s entry [] tasks = tasks
  extract_nodes s entry (n ∷ ns) tasks = extract_nodes s entry ns (
      if entry.dev_id == (s.nodes n).id && is_node_of (s.nodes n) entry
      then extract_tasks s (s.nodes n).task_list tasks
      else tasks)

  unfoldable pub extract_gpus : Store F → ProxyEntry F → List ℕ → List (Task F) → List (Task F)
  unfolding extract_nodes
  extract_gpus s entry [] tasks = tasks
  extract_gpus s entry (g ∷ gs) tasks =
      extract_gpus s entry gs (extract_nodes s entry (s.gpus g).node_list tasks)

  unfoldable pub extract_tasks_from_proxys :
      Store F → Fleet F → SimState → List ℕ → List (Task F) → List (Task F)
  unfolding extract_gpus
  extract_tasks_from_proxys s fleet output [] tasks = tasks
  extract_tasks_from_proxys s fleet output (p ∷ ps) tasks =
      extract_tasks_from_proxys s fleet output ps
        (extract_gpus s (fleet.entries p) output.gpu_list tasks)
