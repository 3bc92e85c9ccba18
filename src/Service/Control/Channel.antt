-- ===== src/Service/Control/Channel.antt =====
-- What arrives at the back end for the requests of the front end.
use glet.Common.{
  ◌>>=◌, ℕ, ◌≡◌, Option, some, List, [], ◌∷◌, ◌++◌, arith, lookup, nat_key, Option-cases, inl, inr,
  Bool-cases, ◌==◌,
}
use glet.Scheduler.State.{success}
use glet.Service.Control.Message.{
  ProxyState, loading, exiting, state_num, cmd_of, Request, start, end, connect, disconnect, state,
  used_mem, load, unload, mark, request_words, read_words, receive_control,
}
use glet.Service.Control.Execute.{
  Backend, ProxyInfo, find_proxy, execute_cmd, execute_num, execute_control, mark_proxy,
  original_idx, connect_proxy_ctrl, disconnect_proxy_ctrl, add_effect, sent_load, sent_unload,
}
use glet.Service.Control.Waiting.{Responds, start_proxy_ctrl-ends}

-- The words of a request behind the count, the device replaced by its host id.
unfoldable pub request_params : ℕ → ℕ → Request → List ℕ
unfolding request_words
request_params host part r = elim (request_words host part r) [ [] ↦ [] | n ∷ ws ↦ ws ]

-- If the back end knows the device, it receives the words of any request as they were sent, with the host
-- id for the device, and leaves what follows on the channel.
pub receive_control-request_words :
    (table : List (ℕ × ℕ)) (dev part host : ℕ) (r : Request) (rest : List ℕ)
    → lookup dev table ≡ some host
    → receive_control table (request_words dev part r ++ rest)
      ≡ some (success, request_params host part r, rest)
unfolding receive_control request_words request_params read_words
receive_control-request_words table dev part host start rest e = ground arith
receive_control-request_words table dev part host end rest e = ground arith
receive_control-request_words table dev part host connect rest e = ground arith
receive_control-request_words table dev part host disconnect rest e = ground arith
receive_control-request_words table dev part host state rest e = ground arith
receive_control-request_words table dev part host used_mem rest e = ground arith
receive_control-request_words table dev part host (load m b) rest e = ground arith
receive_control-request_words table dev part host (unload m) rest e = ground arith
receive_control-request_words table dev part host (mark st) rest e = ground arith

-- The back end takes one request from the channel and executes it: the answer, the new back end and
-- what is left on the channel.
unfoldable pub serve : Backend → List ℕ → Option (Option ℕ × Backend × List ℕ)
unfolding receive_control execute_control
serve b words = do
  (r, params, rest) ← receive_control b.local_to_host words
  (answer, b') ← execute_control b params
  some (answer, b', rest)

-- Whatever state the front end asks a proxy to be marked with, the back end marks it as loading and
-- answers 3.
pub serve-mark :
    (b : Backend) (dev part host : ℕ) (p : ProxyInfo) (st : ProxyState) (rest : List ℕ)
    → lookup dev b.local_to_host ≡ some host
    → find_proxy b host part ≡ some p
    → serve b (request_words dev part (mark st) ++ rest)
      ≡ some (some 3, mark_proxy b p loading, rest)
unfolding serve execute_control execute_num execute_cmd request_params request_words cmd_of
serve-mark b dev part host p st rest e f =
    ground (arith, receive_control-request_words b.local_to_host dev part host (mark st) rest e)

-- The state that the front end is told is that of the shared memory, and nothing changes.
pub serve-state :
    (b : Backend) (dev part host : ℕ) (p : ProxyInfo) (rest : List ℕ)
    → lookup dev b.local_to_host ≡ some host
    → find_proxy b host part ≡ some p
    → serve b (request_words dev part state ++ rest)
      ≡ some (some (state_num (b.states p.dev_id p.partition_num)), b, rest)
unfolding serve execute_control execute_num execute_cmd request_params request_words cmd_of
serve-state b dev part host p rest e f =
    ground (arith, receive_control-request_words b.local_to_host dev part host state rest e)

original_idx-ends :
    (table : List (ℕ × ℕ)) (dev host : ℕ)
    → lookup dev table ≡ some host
    → (idx : ℕ) × (original_idx table host ≡ some idx)
unfolding original_idx lookup
original_idx-ends [] dev host e = absurd (ground arith)
original_idx-ends ((j, h) ∷ table) dev host e = elim (Option-cases (original_idx table host)) [
  | inr (i, f) ↦ (i, ground arith)
  | inl f ↦ elim (Bool-cases (j == dev)) [
    | inl here ↦ (j, ground arith)
    | inr later ↦
        (let (i, g) = original_idx-ends table dev host (ground arith) in absurd (ground arith))
  ]
]

-- The partition that the words of a request name: a question for the memory names 0.
unfoldable pub named_part : Request → ℕ → ℕ
named_part used_mem part = 0
named_part start part = part
named_part end part = part
named_part connect part = part
named_part disconnect part = part
named_part state part = part
named_part (load m b) part = part
named_part (unload m) part = part
named_part (mark st) part = part

-- If the back end knows the device and has a proxy for the partition that the request names, it answers
-- every request, and leaves what follows on the channel; a request to start a proxy that does not boot
-- already needs that the waits read at some time that it is cold, and later that it boots.
pub serve-answers :
    (b : Backend) (dev part host : ℕ) (p : ProxyInfo) (r : Request) (rest : List ℕ)
    → lookup dev b.local_to_host ≡ some host
    → find_proxy b host (named_part r part) ≡ some p
    → Responds b p r
    → (answer : ℕ) × (b' : Backend) × (serve b (request_words dev part r ++ rest)
        ≡ some (some answer, b', rest))
unfolding serve execute_control execute_num execute_cmd request_params request_words cmd_of
    named_part
serve-answers b dev part host p start rest e f responds =
    let (b', started) = start_proxy_ctrl-ends b p responds in
    (
      0,
      b',
      ground (
        arith,
        started,
        receive_control-request_words b.local_to_host dev part host start rest e,
      ),
    )
serve-answers b dev part host p end rest e f responds = (
  0,
  mark_proxy b p exiting,
  ground (arith, receive_control-request_words b.local_to_host dev part host end rest e),
)
serve-answers b dev part host p connect rest e f responds = (
  3,
  connect_proxy_ctrl b p,
  ground (arith, receive_control-request_words b.local_to_host dev part host connect rest e),
)
serve-answers b dev part host p disconnect rest e f responds = (
  3,
  disconnect_proxy_ctrl b p,
  ground (arith, receive_control-request_words b.local_to_host dev part host disconnect rest e),
)
serve-answers b dev part host p state rest e f responds = (
  state_num (b.states p.dev_id p.partition_num),
  b,
  ground (arith, receive_control-request_words b.local_to_host dev part host state rest e),
)
serve-answers b dev part host p (load m n) rest e f responds = (
  0,
  add_effect (mark_proxy b p loading) (sent_load p m n),
  ground (arith, receive_control-request_words b.local_to_host dev part host (load m n) rest e),
)
serve-answers b dev part host p (unload m) rest e f responds = (
  0,
  add_effect (mark_proxy b p loading) (sent_unload p m),
  ground (arith, receive_control-request_words b.local_to_host dev part host (unload m) rest e),
)
serve-answers b dev part host p (mark st) rest e f responds = (
  3,
  mark_proxy b p loading,
  ground (arith, receive_control-request_words b.local_to_host dev part host (mark st) rest e),
)
serve-answers b dev part host p used_mem rest e f responds =
    let (idx, g) = original_idx-ends b.local_to_host dev host e in
    (
      b.used_memory idx,
      b,
      ground (arith, receive_control-request_words b.local_to_host dev part host used_mem rest e),
    )
