-- ===== src/Service/Control/Message.antt =====
-- The messages that `BackendProxyCtrl` of src/service/backend_proxy_ctrl.cpp writes, and
-- `BackendControl::receiveControl` of backend_control.cpp. `none` is an abort or an exception.
use glet.Common.{
  ◌>>=◌, ◌>>◌, ℕ, zero, suc, ◌+◌, ◌-◌, Option, none, some, List, [], ◌∷◌, ◌++◌, ltb, leb, ◌==◌,
  if◌then◌else◌, assert, get_elem?, lookup, lookup_or, nat_key,
}
use glet.Scheduler.State.{Exit, success, failure}

-- `proxy_state` of src/common/shmem_ctrl.h, with its numbers.
pub data ProxyState : Type 0 where
  cold booting running loading exiting flushed : ProxyState

unfoldable pub state_num : ProxyState → ℕ
state_num cold = 0
state_num booting = 1
state_num running = 2
state_num loading = 3
state_num exiting = 4
state_num flushed = 5

-- `BACKEND_CONTROL_CMD`; any other number does nothing.
pub data BackendControlCmd : Type 0 where
  get_state set_state load_model unload_model start_proxy end_proxy disconnect_proxy connect_proxy
        get_mem get_ngpus :
      BackendControlCmd

unfoldable pub cmd_num : BackendControlCmd → ℕ
cmd_num get_state = 0
cmd_num set_state = 1
cmd_num load_model = 2
cmd_num unload_model = 3
cmd_num start_proxy = 4
cmd_num end_proxy = 5
cmd_num disconnect_proxy = 6
cmd_num connect_proxy = 7
cmd_num get_mem = 8
cmd_num get_ngpus = 9

-- The `static_cast` back.
unfoldable pub cmd_of : ℕ → Option BackendControlCmd
cmd_of n =
    get_elem?
      (get_state ∷ set_state ∷ load_model ∷ unload_model ∷ start_proxy ∷ end_proxy
        ∷ disconnect_proxy ∷ connect_proxy ∷ get_mem ∷ get_ngpus ∷ [])
      n

-- What the front end reads of a `proxy_info`.
pub record FrontProxy : Type 0 where
  pub node_id : ℕ
  pub dev_id : ℕ
  pub partition_num : ℕ

-- The loop of `lookupFrontDevIDtoBackDevID`; `mPerBackendNodeDevNum[i]` is 0 for a missing node.
unfoldable pub sum_of_dev : List (ℕ × ℕ) → ℕ → ℕ
unfolding lookup_or
sum_of_dev dev_nums zero = 0
sum_of_dev dev_nums (suc i) = sum_of_dev dev_nums i + lookup_or 0 i dev_nums

-- A negative number is `none`: no table of a back end has it.
unfoldable pub lookup_dev_id : List (ℕ × ℕ) → FrontProxy → Option ℕ
unfolding sum_of_dev
lookup_dev_id dev_nums p =
    let sum = sum_of_dev dev_nums p.node_id in
    if ltb p.dev_id sum then none else some (p.dev_id - sum)

-- What the front end asks for; each constructor is a method of `BackendProxyCtrl`.
pub data Request : Type 0 where
  start end connect disconnect state used_mem : Request
  load : (model_id batch_size : ℕ) → Request
  unload : (model_id : ℕ) → Request
  mark : ProxyState → Request

-- The words of a request: `PARAM_NUM`, the command, the device, the partition and the rest.
unfoldable pub request_words : ℕ → ℕ → Request → List ℕ
unfolding cmd_num state_num
request_words dev part start = 3 ∷ cmd_num start_proxy ∷ dev ∷ part ∷ []
request_words dev part end = 3 ∷ cmd_num end_proxy ∷ dev ∷ part ∷ []
request_words dev part connect = 3 ∷ cmd_num connect_proxy ∷ dev ∷ part ∷ []
request_words dev part disconnect = 3 ∷ cmd_num disconnect_proxy ∷ dev ∷ part ∷ []
request_words dev part state = 3 ∷ cmd_num get_state ∷ dev ∷ part ∷ []
request_words dev part used_mem = 3 ∷ cmd_num get_mem ∷ dev ∷ 0 ∷ []
request_words dev part (load m b) = 5 ∷ cmd_num load_model ∷ dev ∷ part ∷ m ∷ b ∷ []
request_words dev part (unload m) = 4 ∷ cmd_num unload_model ∷ dev ∷ part ∷ m ∷ []
request_words dev part (mark st) = 4 ∷ cmd_num set_state ∷ dev ∷ part ∷ state_num st ∷ []

-- The message for a proxy.
unfoldable pub send : List (ℕ × ℕ) → FrontProxy → Request → Option (List ℕ)
unfolding lookup_dev_id request_words
send dev_nums p r = elim (lookup_dev_id dev_nums p) [
  | none ↦ none
  | some dev ↦ some (request_words dev p.partition_num r)
]

-- The loop that reads the optional parameters; a word that is not there is waited for.
unfoldable pub read_words : ℕ → List ℕ → Option (List ℕ × List ℕ)
read_words zero words = some ([], words)
read_words (suc n) [] = none
read_words (suc n) (w ∷ words) = elim (read_words n words) [
  | none ↦ none
  | some (ws, rest) ↦ some (w ∷ ws, rest)
]

-- `receiveControl`, with the table from local to host ids: the parameters and what is left to read.
unfoldable pub receive_control : List (ℕ × ℕ) → List ℕ → Option (Exit × List ℕ × List ℕ)
unfolding lookup read_words
receive_control table [] = none
receive_control table (rdsize ∷ words) = if rdsize == 0 then some (failure, [], words) else do
  assert (leb 3 rdsize)
  (first, words') ← read_words 3 words
  elim first [
    | [] ↦ none
    | action ∷ more ↦ elim more [
      | [] ↦ none
      | dev ∷ parts ↦ do
        host ← lookup dev table
        (params, rest) ← read_words (rdsize - 3) words'
        some (success, action ∷ host ∷ (parts ++ params), rest)
    ]
  ]
