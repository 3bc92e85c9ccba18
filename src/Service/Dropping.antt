-- ===== src/Service/Dropping.antt =====
-- Dropping requests that are late: src/service/drop_thread.cpp. A sweep is one turn of the endless loop
-- for one model; the locks are left out. `none` is an abort of the question for a latency.
use glet.Common.{
  ◌>>=◌, ℕ, suc, ◌-◌, Bool, true, false, ◌||◌, Option, none, some, List, [], ◌∷◌, ◌++◌, String,
  str_eq, ltb, ◌==◌, if◌then◌else◌, length, lookup_or, insert, nat_key,
}
use glet.Common.Int.{pos}
use glet.Float.{Float}

-- What the thread reads of a request: `getStart`, in nanoseconds, and its application.
pub record Waiting : Type 0 where
  pub start : ℕ
  pub app : ℕ

-- Which applications are dropped, the queue of applications, and the queue of completed requests.
pub record Drops : Type 0 where
  pub dropped : List (ℕ × Bool)
  pub app_queue : List ℕ
  pub comp_queue : List Waiting

-- A request is dropped, and with it its application, which is reported once.
unfoldable pub drop : Waiting → Drops → Drops
unfolding lookup_or insert
drop r d =
    if lookup_or false r.app d.dropped
    then record d { comp_queue = d.comp_queue ++ r ∷ [] }
    else record {
      dropped = insert r.app true d.dropped;
      app_queue = d.app_queue ++ r.app ∷ [];
      comp_queue = d.comp_queue ++ r ∷ [];
    }

-- A model of a proxy: its name and batch size, and the part and the type of the proxy.
pub record Served : Type 0 where
  pub name : String
  pub batch : ℕ
  pub cap : ℕ
  pub type : String

-- The largest batch size at which the model is served, with the part and the type of that proxy.
unfoldable pub largest_served : String → ℕ × ℕ × String → List Served → ℕ × ℕ × String
largest_served name best [] = best
largest_served name (batch, cap, type) (p ∷ ps) =
    largest_served name
      (if str_eq p.name name
        then (if ltb batch p.batch then (p.batch, p.cap, p.type) else (batch, cap, type))
        else (batch, cap, type))
      ps

module _ {F : Type 0} ⦃R : Float F⦄ where
  open R use {of_int, lit, add, mul, div, lt}

  -- How long a request has waited, in milliseconds.
  unfoldable pub waited : (now : ℕ) → Waiting → F
  waited now r = div (of_int (pos (now - r.start))) (lit 1000000 0)

  -- The inner loop of `initLazyDrop`: the rest of the queue, and the drops. The clock gives the time of
  -- each turn.
  unfoldable pub drop_late :
      (ratio slo : F) → (clock : ℕ → ℕ) → (turn : ℕ) → List Waiting → Drops → List Waiting × Drops
  unfolding waited drop
  drop_late ratio slo clock turn [] d = ([], d)
  drop_late ratio slo clock turn (r ∷ rs) d =
      let rest = drop_late ratio slo clock (suc turn) rs (drop r d) in
      if lt (mul ratio slo) (waited (clock turn) r) then rest else (r ∷ rs, d)

  -- A sweep of `initLazyDrop` over the queue of a model. It works on a copy of the queue, so the queue
  -- itself stays as it is.
  unfoldable pub lazy_sweep :
      (ratio slo : F) → (clock : ℕ → ℕ) → List Waiting → Drops → List Waiting × Drops
  unfolding drop_late
  lazy_sweep ratio slo clock queue d =
      let (rest, d') = drop_late ratio slo clock 0 queue d in (queue, d')

  -- The inner loop of `initEagerDrop`: a request that would be late if it ran now is dropped.
  unfoldable pub drop_hopeless :
      (ratio slo : F)
      → (est_latency : ℕ → Option F) → (max_batch_size : ℕ) → (clock : ℕ → ℕ) → (turn : ℕ)
      → List Waiting
      → Drops
      → Option (List Waiting × Drops)
  unfolding waited drop
  drop_hopeless ratio slo est max_batch clock turn [] d = some ([], d)
  drop_hopeless ratio slo est max_batch clock turn (r ∷ rs) d =
      let size = length (r ∷ rs) in
      elim (est (if ltb size max_batch then size else max_batch)) [
        | none ↦ none
        | some latency ↦
            let rest = drop_hopeless ratio slo est max_batch clock (suc turn) rs (drop r d) in
            if lt (mul ratio slo) (add (waited (clock turn) r) latency)
            then rest
            else some (r ∷ rs, d)
      ]

  -- A sweep of `initEagerDrop`, which passes over a model that no proxy serves.
  unfoldable pub eager_sweep :
      (ratio slo : F)
      → (est_latency : (batch cap : ℕ) → String → Option F) → List Served
      → (clock : ℕ → ℕ) → (name : String) → List Waiting
      → Drops
      → Option (List Waiting × Drops)
  unfolding largest_served drop_hopeless
  eager_sweep ratio slo est served clock name queue d = do
    let (max_batch, cap, type) = largest_served name (0, 0, "") served
    if max_batch == 0 || cap == 0 then some (queue, d) else do
      (rest, d') ← drop_hopeless ratio slo (λ b. est b cap type) max_batch clock 0 queue d
      some (queue, d')
