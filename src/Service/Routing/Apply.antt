-- ===== src/Service/Routing/Apply.antt =====
-- `applyRouting_sync` of src/service/global_scheduler_proxy.cpp, where all proxies have finished loading.
use glet.Common.{
  ◌>>=◌, ℕ, zero, suc, true, false, Option, some, List, [], ◌∷◌, ◌++◌, String, if◌then◌else◌,
  is_empty, get_elem?,
}
use glet.Scheduler.State.{SimState, Store}
use glet.Service.Loading.{Fleet, set_entry, get_proxy_info}

module _ {F : Type 0} where
  -- `applyRouting_sync`: first no proxy has a model to route to.
  unfoldable pub flush_proxies : Fleet F → List ℕ → Fleet F
  unfolding set_entry
  flush_proxies fleet [] = fleet
  flush_proxies fleet (p ∷ ps) =
      flush_proxies
        (set_entry fleet p (record (fleet.entries p) { net_list = []; is_schedulable = false })) ps

  unfoldable pub flush_devs : Fleet F → (dev num : ℕ) → Fleet F
  unfolding flush_proxies
  flush_devs fleet dev zero = fleet
  flush_devs fleet dev (suc num) = flush_devs (flush_proxies fleet (fleet.devs dev)) (suc dev) num

  unfoldable pub nets_of : List String → Store F → List ℕ → Option (List (String × ℕ))
  nets_of names s [] = some []
  nets_of names s (t ∷ ts) = do
    name ← get_elem? names (s.tasks t).id
    rest ← nets_of names s ts
    some ((name, (s.tasks t).batch_size) ∷ rest)

  -- The proxy of a node with tasks takes its models and becomes schedulable.
  unfoldable pub route_node : List String → Store F → Fleet F → ℕ → Option (Fleet F)
  unfolding get_proxy_info nets_of set_entry
  route_node names s fleet n = do
    let node = s.nodes n
    p ← get_proxy_info fleet node.id node.resource_pntg node.dedup_num
    if is_empty node.task_list then some fleet else do
      nets ← nets_of names s node.task_list
      some (
          set_entry fleet p (record (fleet.entries p) {
            net_list = (fleet.entries p).net_list ++ nets;
            is_schedulable = true;
            duty_cycle = node.duty_cycle;
          }))

  unfoldable pub route_nodes : List String → Store F → Fleet F → List ℕ → Option (Fleet F)
  unfolding route_node
  route_nodes names s fleet [] = some fleet
  route_nodes names s fleet (n ∷ ns) = do
    fleet' ← route_node names s fleet n
    route_nodes names s fleet' ns

  unfoldable pub route_gpus : List String → Store F → Fleet F → List ℕ → Option (Fleet F)
  unfolding route_nodes
  route_gpus names s fleet [] = some fleet
  route_gpus names s fleet (g ∷ gs) = do
    fleet' ← route_nodes names s fleet (s.gpus g).node_list
    route_gpus names s fleet' gs

  -- `applyRouting_sync` up to the update of the load balancer.
  unfoldable pub apply_routing_sync : List String → Store F → Fleet F → SimState → Option (Fleet F)
  unfolding flush_devs route_gpus
  apply_routing_sync names s fleet output =
      route_gpus names s (flush_devs fleet 0 fleet.ngpus) output.gpu_list
