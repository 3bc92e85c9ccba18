-- ===== src/Examples/Serving.antt =====
-- The load balancer and the control channel of a small service.
use glet.Common.{
  ◌↔◌, ◌≤◌, ℕ, ◌≡◌, ◌≢◌, refl, true, false, none, some, [], ◌∷◌, ◌++◌, arith, inl, inr, lookup,
  nat_key,
}
use glet.Common.Int.{pos, ◌*ℤ◌, ◌/ℤ◌, ◌+ℤ◌}
use glet.Float.Milli.{Milli, milli_float}
use glet.Scheduler.State.{Store, success}
use glet.Service.Balancer.{Balancer, wrr, get_key, update_wrr, check_key}
use glet.Service.Balancer.Keys.{IsPlacement, get_key_injective, get_key_iff}
use glet.Service.Balancer.Credits.{check_key-turns, update_wrr-check_key}
use glet.Service.Control.Message.{
  cold, booting, exiting, loading, state_num, request_words, receive_control, start, load, mark,
  state,
}
use glet.Service.Control.Execute.{Backend, ProxyInfo, find_proxy, mark_proxy}
use glet.Service.Control.Waiting.{Boots}
use glet.Service.Control.Channel.{
  request_params, named_part, serve, receive_control-request_words, serve-mark, serve-state,
  serve-answers,
}
use glet.Examples.Cluster.{free_node, store, sim}

-- The cluster with its task on node 0, which has 100 percent.
abbrev busy : Store Milli
busy = record store { nodes = λ n. record free_node { task_list = 0 ∷ [] } }

abbrev empty : Balancer Milli
empty = record { type = wrr; keys = []; credit = []; curr_credit = []; min_credit = [] }

abbrev balanced : Balancer Milli
balanced = elim (update_wrr busy empty sim) [ none ↦ empty | some b ↦ b ]

renewed : update_wrr busy empty sim ≡ some balanced
unfolding update_wrr ◌*ℤ◌ ◌/ℤ◌
renewed = refl

key : get_key 0 0 100 0 ≡ some 100000
unfolding get_key
key = refl

update_wrr-check_key_example : (check_key balanced 0 100000).0 ≡ true
update_wrr-check_key_example =
    update_wrr-check_key busy empty balanced sim 0 0 0 100000 (inl refl) (inl refl) (inl refl) key
      renewed

in_range : IsPlacement 0 100 0
in_range = (ground arith, ground arith, ground arith)

get_key_injective_example :
    (◌≡◌ {A = ℕ} 0 0) × (◌≡◌ {A = ℕ} 0 0) × (◌≡◌ {A = ℕ} 100 100) × (◌≡◌ {A = ℕ} 0 0)
get_key_injective_example = get_key_injective 0 0 100 0 0 0 100 0 100000 in_range in_range key key

get_key_iff_example : ((k : ℕ) × (get_key 215 0 100 0 ≡ some k)) ↔ (215 ≤ 214)
get_key_iff_example = get_key_iff 215 0 100 0 in_range

-- Two keys of a model, with credits of 10 and 20 thousandths for a request.
abbrev shared : Balancer Milli
shared = record {
  type = wrr;
  keys = (0, 1 ∷ 2 ∷ []) ∷ [];
  credit = (1, pos 10) ∷ (2, pos 20) ∷ [];
  curr_credit = (1, pos 0) ∷ (2, pos 0) ∷ [];
  min_credit = (0, pos 10000) ∷ [];
}

abbrev after : Balancer Milli
after = (check_key shared 0 1).1

accepted : check_key shared 0 1 ≡ (true, after)
unfolding check_key ◌+ℤ◌
accepted = refl

curr_1 : lookup 1 shared.curr_credit ≡ some (pos 0)
unfolding lookup
curr_1 = refl

curr_2 : lookup 2 shared.curr_credit ≡ some (pos 0)
unfolding lookup
curr_2 = refl

credit_1 : lookup 1 shared.credit ≡ some (pos 10)
unfolding lookup
credit_1 = refl

apart : ◌≢◌ {A = ℕ} 1 2
apart e = omega arith

check_key-turns_example : (check_key after 0 2).0 ≡ true
unfolding ◌+ℤ◌
check_key-turns_example =
    check_key-turns shared after 0 1 2 (pos 0) (pos 0) (pos 10) apart curr_1 credit_1 curr_2
      accepted

-- A back end with two GPUs, which the front end knows as 0 and 1 and the host as 2 and 3.
abbrev proxy : ProxyInfo
proxy = record { dev_id = 3; cap = 50; dedup_num = 1; partition_num = 4 }

abbrev backend : Backend
backend = record {
  n_gpus = 2;
  local_to_host = (0, 2) ∷ (1, 3) ∷ [];
  per_dev_mps_info = λ d. proxy ∷ [];
  states = λ d p. cold;
  reads = booting ∷ [];
  is_connected = λ d p. false;
  used_memory = λ d. 0;
  effects = [];
}

host : lookup 1 backend.local_to_host ≡ some 3
unfolding lookup
host = refl

known : find_proxy backend 3 4 ≡ some proxy
unfolding find_proxy
known = refl

receive_control-request_words_example :
    receive_control backend.local_to_host (5 ∷ 2 ∷ 1 ∷ 4 ∷ 7 ∷ 8 ∷ 3 ∷ [])
    ≡ some (success, 2 ∷ 3 ∷ 4 ∷ 7 ∷ 8 ∷ [], 3 ∷ [])
unfolding request_words request_params
receive_control-request_words_example =
    receive_control-request_words backend.local_to_host 1 4 3 (load 7 8) (3 ∷ []) host

serve-mark_example :
    serve backend (request_words 1 4 (mark exiting) ++ [])
    ≡ some (some 3, mark_proxy backend proxy loading, [])
serve-mark_example = serve-mark backend 1 4 3 proxy exiting [] host known

serve-state_example : serve backend (request_words 1 4 state ++ []) ≡ some (some 0, backend, [])
unfolding state_num
serve-state_example = serve-state backend 1 4 3 proxy [] host known

named : find_proxy backend 3 (named_part start 4) ≡ some proxy
unfolding named_part find_proxy
named = refl

boots : Boots backend proxy
boots = inr ([], [], [], refl)

serve-answers_example :
    (answer : ℕ) × (b' : Backend) × (serve backend (request_words 1 4 start ++ [])
      ≡ some (some answer, b', []))
serve-answers_example = serve-answers backend 1 4 3 proxy start [] host named boots
