-- ===== src/Service/Balancer.antt =====
-- The load balancer of src/service/load_balancer.cpp: weighted round robin over the proxies that hold a
-- model. `none` is an overflow of an `int`.
pub mod Keys
pub mod Credits
use glet.Common.{
  ◌>>=◌, ◌>>◌, ℕ, ◌+◌, ◌*◌, ◌/◌, Bool, true, false, Option, none, some, List, [], ◌∷◌, ◌++◌, String,
  str_eq, ltb, ◌==◌, if◌then◌else◌, lookup, insert, lookup_or, nat_key,
}
use glet.Common.Int.{pos}
use glet.Float.{Float}
use glet.Scheduler.State.{SimState, Store, Exit, success}

-- `NO` and `WRR`.
pub data BalancerType : Type 0 where
  no wrr : BalancerType

-- What the balancer reads of a `proxy_info`.
pub record Proxy : Type 0 where
  pub dev_id : ℕ
  pub cap : ℕ
  pub dedup_num : ℕ

-- The fields of `LoadBalancer` with `_TaskIDtoKeysMapping`, `_keyToCreditMapping`,
-- `_keyToCurrCreditMapping` and `_TaskIDToMinCreditMapping`.
pub record Balancer (F : Type 0) : Type 0 where
  pub type : BalancerType
  pub keys : List (ℕ × List ℕ)
  pub credit : List (ℕ × F)
  pub curr_credit : List (ℕ × F)
  pub min_credit : List (ℕ × F)

-- `getKey`; the sum is an `int`.
unfoldable pub get_key : (model_id gpu_id part dedup_num : ℕ) → Option ℕ
get_key model_id gpu_id part dedup_num =
    let key = 10000000 * model_id + 1000 * part + 10 * gpu_id + 1 * dedup_num in
    if ltb key 2147483648 then some key else none

unfoldable pub get_proxy_key : ℕ → Proxy → Option ℕ
unfolding get_key
get_proxy_key model_id p = get_key model_id p.dev_id p.cap p.dedup_num

unfoldable pub contain_model_id : (key model_id : ℕ) → Bool
contain_model_id key model_id = model_id == key / 10000000

-- `setType`; `none` is the exit for an unknown name.
unfoldable pub set_type : {F : Type 0} → Balancer F → String → Option (Balancer F)
set_type b balancer_type =
    if str_eq balancer_type "no"
    then some (record b { type = no })
    else if str_eq balancer_type "wrr"
    then some (record b { type = wrr })
    else none

unfoldable pub clear_tables : {F : Type 0} → Balancer F → Balancer F
clear_tables b = record b { keys = []; credit = []; curr_credit = []; min_credit = [] }

module _ {F : Type 0} ⦃R : Float F⦄ where
  open R use {of_int, lit, add, div, le}

  unfoldable pub renew_table : Balancer F → (model_id key : ℕ) → F → Balancer F
  unfolding insert lookup_or
  renew_table b model_id key trpt = record b {
    credit = insert key (div (lit 1 0) trpt) b.credit;
    curr_credit = insert key (lit 0 0) b.curr_credit;
    min_credit = insert model_id (lit 10 0) b.min_credit;
    keys = insert model_id (lookup_or [] model_id b.keys ++ key ∷ []) b.keys;
  }

  -- The three loops of `updateWRR`.
  unfoldable pub renew_tasks :
      Store F → Balancer F → (gpu_id part dedup_num : ℕ) → List ℕ → Option (Balancer F)
  unfolding get_key renew_table
  renew_tasks s b gpu_id part dedup_num [] = some b
  renew_tasks s b gpu_id part dedup_num (t ∷ ts) =
      elim (get_key (s.tasks t).id gpu_id part dedup_num) [
        | none ↦ none
        | some key ↦
            renew_tasks s (renew_table b (s.tasks t).id key (s.tasks t).throughput) gpu_id part
              dedup_num ts
      ]

  unfoldable pub renew_nodes : Store F → Balancer F → (gpu_id : ℕ) → List ℕ → Option (Balancer F)
  unfolding renew_tasks
  renew_nodes s b gpu_id [] = some b
  renew_nodes s b gpu_id (n ∷ ns) =
      elim (renew_tasks s b gpu_id (s.nodes n).resource_pntg (s.nodes n).dedup_num
        (s.nodes n).task_list) [ none ↦ none | some b' ↦ renew_nodes s b' gpu_id ns ]

  unfoldable pub renew_gpus : Store F → Balancer F → List ℕ → Option (Balancer F)
  unfolding renew_nodes
  renew_gpus s b [] = some b
  renew_gpus s b (g ∷ gs) = elim (renew_nodes s b (s.gpus g).gpu_id (s.gpus g).node_list) [
    | none ↦ none
    | some b' ↦ renew_gpus s b' gs
  ]

  unfoldable pub update_wrr : Store F → Balancer F → SimState → Option (Balancer F)
  unfolding clear_tables renew_gpus
  update_wrr s b sched_results = renew_gpus s (clear_tables b) sched_results.gpu_list

  unfoldable pub update_table : Store F → Balancer F → SimState → Option (Exit × Balancer F)
  unfolding update_wrr
  update_table s b sched_results = elim b.type [
    | no ↦ some (success, b)
    | wrr ↦ elim (update_wrr s b sched_results) [ none ↦ none | some b' ↦ some (success, b') ]
  ]

  -- The other `updateTable`, over throughputs that are known for each proxy.
  unfoldable pub renew_items : Balancer F → Proxy → List (ℕ × F) → Option (Balancer F)
  unfolding get_proxy_key renew_table
  renew_items b p [] = some b
  renew_items b p ((model_id, trpt) ∷ items) = elim (get_proxy_key model_id p) [
    | none ↦ none
    | some key ↦ renew_items (renew_table b model_id key trpt) p items
  ]

  unfoldable pub renew_proxies : Balancer F → List (Proxy × List (ℕ × F)) → Option (Balancer F)
  unfolding renew_items
  renew_proxies b [] = some b
  renew_proxies b ((p, items) ∷ trps) = elim (renew_items b p items) [
    | none ↦ none
    | some b' ↦ renew_proxies b' trps
  ]

  unfoldable pub update_table_static :
      Balancer F → List (Proxy × List (ℕ × F)) → Option (Exit × Balancer F)
  unfolding clear_tables renew_proxies
  update_table_static b trps = elim b.type [
    | no ↦ some (success, b)
    | wrr ↦ elim (renew_proxies (clear_tables b) trps) [
      | none ↦ none
      | some b' ↦ some (success, b')
    ]
  ]

  -- `checkMinCredit`; a missing entry reads as 0, and is made.
  unfoldable pub check_min_credit : Balancer F → (model_id key : ℕ) → Bool
  unfolding lookup_or
  check_min_credit b model_id key =
      le (lookup_or (lit 0 0) key b.curr_credit) (lookup_or (lit 0 0) model_id b.min_credit)

  -- `checkWRR` with a computed key. For a key that has no credit the code returns `EXIT_FAILURE`, which
  -- is 1, as a `bool`.
  unfoldable pub check_key : Balancer F → (model_id key : ℕ) → Bool × Balancer F
  unfolding lookup lookup_or insert check_min_credit
  check_key b model_id key = elim (lookup key b.curr_credit) [
    | none ↦ (true, b)
    | some curr ↦
        if check_min_credit b model_id key
        then (let curr' = add curr (lookup_or (lit 0 0) key b.credit) in
            (
              true,
              record b {
                curr_credit = insert key curr' b.curr_credit;
                min_credit = insert model_id curr' b.min_credit;
              },
            ))
        else (
          false,
          record b {
            min_credit = insert model_id (lookup_or (lit 0 0) model_id b.min_credit) b.min_credit;
          },
        )
  ]

  unfoldable pub check_wrr : Balancer F → ℕ → Proxy → Option (Bool × Balancer F)
  unfolding get_proxy_key check_key
  check_wrr b model_id p = do key ← get_proxy_key model_id p; some (check_key b model_id key)

  unfoldable pub check_load : Balancer F → ℕ → Proxy → Option (Bool × Balancer F)
  unfolding check_wrr
  check_load b model_id p = elim b.type [ no ↦ some (true, b) | wrr ↦ check_wrr b model_id p ]
