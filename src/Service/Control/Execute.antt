-- ===== src/Service/Control/Execute.antt =====
-- `BackendControl::executeControl` of src/service/backend_control.cpp, with `SysMonitor::findProxy` of
-- sys_monitor.cpp and what `ProxyCtrl` of proxy_ctrl.cpp does to the states in shared memory.
use glet.Common.{
  ◌>>=◌, ◌>>◌, ℕ, ◌+◌, Bool, true, false, ◌&&◌, Option, none, some, List, [], ◌∷◌, ◌++◌, ltb, ◌==◌,
  if◌then◌else◌, assert, update, get_elem?, lookup_or, nat_key,
}
use glet.Service.Control.Message.{
  ProxyState, cold, booting, running, loading, exiting, flushed, state_num, BackendControlCmd,
  get_state, set_state, load_model, unload_model, start_proxy, end_proxy, disconnect_proxy,
  connect_proxy, get_mem, get_ngpus, cmd_of,
}

-- A `proxy_info` of the back end, in the order of `PerDevMPSInfo`.
pub record ProxyInfo : Type 0 where
  pub dev_id : ℕ
  pub cap : ℕ
  pub dedup_num : ℕ
  pub partition_num : ℕ

-- What goes out to the processes of the proxies: the threads that boot them and the data sockets.
pub data Effect : Type 0 where
  booted : ProxyInfo → Effect
  connected disconnected : ProxyInfo → Effect
  sent_load : ProxyInfo → (model_id batch_size : ℕ) → Effect
  sent_unload : ProxyInfo → (model_id : ℕ) → Effect

-- `states` is the shared memory, and `reads` is what the waits of `startProxy` read there from now on,
-- one state of the proxy after the other, as other processes write it; `local_to_host` is `FrontDevIDToHostDevID`, and `used_memory` what the
-- driver answers.
pub record Backend : Type 0 where
  pub n_gpus : ℕ
  pub local_to_host : List (ℕ × ℕ)
  pub per_dev_mps_info : ℕ → List ProxyInfo
  pub states : ℕ → ℕ → ProxyState
  pub reads : List ProxyState
  pub is_connected : ℕ → ℕ → Bool
  pub used_memory : ℕ → ℕ
  pub effects : List Effect

-- The loop of `findProxy` by partition number, and that by size and number.
unfoldable pub find_partition : List ProxyInfo → ℕ → Option ProxyInfo
find_partition [] partition_num = none
find_partition (p ∷ ps) partition_num =
    if p.partition_num == partition_num then some p else find_partition ps partition_num

unfoldable pub find_part : List ProxyInfo → (dev_id resource_pntg dedup_num : ℕ) → Option ProxyInfo
find_part [] dev_id resource_pntg dedup_num = none
find_part (p ∷ ps) dev_id resource_pntg dedup_num =
    if p.dev_id == dev_id && p.cap == resource_pntg && p.dedup_num == dedup_num
    then some p
    else find_part ps dev_id resource_pntg dedup_num

-- The `assert` of both; the table is not empty where it has an entry.
unfoldable pub is_known_device : Backend → ℕ → Bool
unfolding lookup_or
is_known_device b dev_id = elim b.local_to_host [
  | [] ↦ ltb dev_id b.n_gpus
  | e ∷ es ↦ ltb dev_id (b.n_gpus + lookup_or 0 0 (e ∷ es))
]

unfoldable pub find_proxy : Backend → ℕ → ℕ → Option ProxyInfo
unfolding is_known_device find_partition
find_proxy b dev_id partition_num = do
  assert (is_known_device b dev_id)
  find_partition (b.per_dev_mps_info dev_id) partition_num

unfoldable pub find_proxy_of_part : Backend → ℕ → ℕ → ℕ → Option ProxyInfo
unfolding is_known_device find_part
find_proxy_of_part b dev_id resource_pntg dedup_num = do
  assert (is_known_device b dev_id)
  find_part (b.per_dev_mps_info dev_id) dev_id resource_pntg dedup_num

-- `ProxyCtrl::markProxy`.
unfoldable pub mark_proxy : Backend → ProxyInfo → ProxyState → Backend
mark_proxy b p st = record b {
  states = update b.states p.dev_id (update (b.states p.dev_id) p.partition_num st);
}

unfoldable pub add_effect : Backend → Effect → Backend
add_effect b e = record b { effects = b.effects ++ e ∷ [] }

-- A loop that reads until it reads the state, as in `startProxy` and `waitProxy`: what it leaves to be
-- read. `none` is a state that never comes.
unfoldable pub wait_proxy : ProxyState → List ProxyState → Option (List ProxyState)
unfolding state_num
wait_proxy st [] = none
wait_proxy st (curr_state ∷ reads) =
    let rest = wait_proxy st reads in
    if state_num curr_state == state_num st then some reads else rest

-- What `startProxy` does for a proxy that does not boot: it waits until the proxy is cold, boots it and
-- waits until it says so. The lock that is held while it boots is taken to be free.
unfoldable pub boot_when_cold : Backend → ProxyInfo → Option Backend
unfolding mark_proxy add_effect wait_proxy
boot_when_cold b p = do
  cold_reads ← wait_proxy cold (b.states p.dev_id p.partition_num ∷ b.reads)
  reads ← wait_proxy booting cold_reads
  some (mark_proxy (add_effect (record b { reads = reads }) (booted p)) p booting)

-- `ProxyCtrl::startProxy`: nothing for a proxy that boots.
unfoldable pub start_proxy_ctrl : Backend → ProxyInfo → Option Backend
unfolding boot_when_cold
start_proxy_ctrl b p = elim (b.states p.dev_id p.partition_num) [
  | booting ↦ some b
  | cold ↦ boot_when_cold b p
  | running ↦ boot_when_cold b p
  | loading ↦ boot_when_cold b p
  | exiting ↦ boot_when_cold b p
  | flushed ↦ boot_when_cold b p
]

-- `ProxyCtrl::connectProxy` and `disconnectProxy`.
unfoldable pub set_connected : Backend → ProxyInfo → Bool → Backend
set_connected b p flag = record b {
  is_connected =
      update b.is_connected p.dev_id (update (b.is_connected p.dev_id) p.partition_num flag);
}

unfoldable pub connect_proxy_ctrl : Backend → ProxyInfo → Backend
unfolding set_connected add_effect
connect_proxy_ctrl b p =
    if b.is_connected p.dev_id p.partition_num
    then b
    else set_connected (add_effect b (connected p)) p true

unfoldable pub disconnect_proxy_ctrl : Backend → ProxyInfo → Backend
unfolding set_connected add_effect
disconnect_proxy_ctrl b p = set_connected (add_effect b (disconnected p)) p false

-- The device that has the host id, the last one in the order of the table; an `assert` otherwise.
unfoldable pub original_idx : List (ℕ × ℕ) → ℕ → Option ℕ
original_idx [] dev_id = none
original_idx ((local, host) ∷ table) dev_id = elim (original_idx table dev_id) [
  | some idx ↦ some idx
  | none ↦ if host == dev_id then some local else none
]

-- The cases of the `switch`: the answer on the socket, and the new state. `state` is 3 where nothing sets it.
unfoldable pub execute_cmd :
    Backend → BackendControlCmd → (dev_id : ℕ) → ProxyInfo → List ℕ → Option (ℕ × Backend)
unfolding mark_proxy add_effect start_proxy_ctrl connect_proxy_ctrl disconnect_proxy_ctrl
    original_idx state_num
execute_cmd b get_state dev_id p params = some ((state_num (b.states p.dev_id p.partition_num)), b)
execute_cmd b set_state dev_id p params = some (3, mark_proxy b p loading)
execute_cmd b load_model dev_id p params = do
  model_id ← get_elem? params 3
  batch_size ← get_elem? params 4
  some (0, add_effect (mark_proxy b p loading) (sent_load p model_id batch_size))
execute_cmd b unload_model dev_id p params = do
  model_id ← get_elem? params 3
  some (0, add_effect (mark_proxy b p loading) (sent_unload p model_id))
execute_cmd b start_proxy dev_id p params = do b' ← start_proxy_ctrl b p; some (0, b')
execute_cmd b end_proxy dev_id p params = some (0, mark_proxy b p exiting)
execute_cmd b disconnect_proxy dev_id p params = some (3, disconnect_proxy_ctrl b p)
execute_cmd b connect_proxy dev_id p params = some (3, connect_proxy_ctrl b p)
execute_cmd b get_mem dev_id p params = do
  idx ← original_idx b.local_to_host dev_id
  some (b.used_memory idx, b)
execute_cmd b get_ngpus dev_id p params = some (b.n_gpus, b)

-- The `switch`, which ignores an unknown command without an answer.
unfoldable pub execute_num :
    Backend → (cmd dev_id : ℕ) → ProxyInfo → List ℕ → Option (Option ℕ × Backend)
unfolding execute_cmd cmd_of
execute_num b num dev_id p params = elim (cmd_of num) [
  | none ↦ some (none, b)
  | some cmd ↦ elim (execute_cmd b cmd dev_id p params) [
    | none ↦ none
    | some (answer, b') ↦ some (some answer, b')
  ]
]

unfoldable pub execute_control : Backend → List ℕ → Option (Option ℕ × Backend)
unfolding find_proxy execute_num
execute_control b params = do
  cmd ← get_elem? params 0
  dev_id ← get_elem? params 1
  part_num ← get_elem? params 2
  p ← find_proxy b dev_id part_num
  execute_num b cmd dev_id p params
