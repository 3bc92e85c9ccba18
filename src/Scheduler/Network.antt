-- ===== src/Scheduler/Network.antt =====
-- The limit on the network: `NetworkLimitChecker` of src/scheduler/network_limit.cpp. The JSON that
-- `setupPerTaskInputDimension` reads is given as it was parsed; an `int` that overflows is an abort.
pub mod Shrunk
use glet.Common.{
  ℕ, zero, suc, ◌*◌, Bool, true, false, not, ◌&&◌, Option, none, some, List, [], ◌∷◌, String,
  str_eq, ltb, ◌==◌, if◌then◌else◌, assert, ◌>>=◌, ◌>>◌, insert, lookup_or, nat_key,
}
use glet.Common.Int.{pos}
use glet.Float.{Float}
use glet.Scheduler.State.{Task, Gpu, SimState, Store, Exit, success, failure}
use glet.Scheduler.Nodes.{set_task}

-- An entry of "Models".
pub record ModelInput : Type 0 where
  pub proxy_id : ℕ
  pub input_dim : List ℕ
  pub input_type : String

unfoldable pub volume : ℕ → List ℕ → ℕ
volume size [] = size
volume size (d ∷ dims) = volume (size * d) dims

-- The bytes of an element, for the types that are known.
unfoldable pub bytes_of : String → Option ℕ
bytes_of type = if str_eq type "FP32" then some 4 else if str_eq type "INT64" then some 8 else none

-- The loop over the models, which stops at an unknown type with what it has set up.
unfoldable pub setup_dims : List (ℕ × ℕ) → List ModelInput → Option (Exit × List (ℕ × ℕ))
unfolding bytes_of volume insert
setup_dims table [] = some (success, table)
setup_dims table (m ∷ models) = elim (bytes_of m.input_type) [
  | none ↦ some (failure, table)
  | some bytes ↦
      let size = volume 1 m.input_dim * bytes in
      let rest = setup_dims (insert m.proxy_id size table) models in
      if ltb size 2147483648 then rest else none
]

-- The loop from the batch down to 1.
unfoldable pub largest_batch : (ℕ → Bool) → ℕ → Option ℕ
largest_batch ok zero = none
largest_batch ok (suc i) =
    let rest = largest_batch ok i in if ok (suc i) then some (suc i) else rest

module _ {F : Type 0} ⦃R : Float F⦄ where
  open R use {of_int, lit, add, sub, mul, div, eq, le, lt}

  -- `getRequiredBandwidth`, over the tasks of one node and the nodes of the GPU.
  unfoldable pub add_tasks : Store F → List (ℕ × ℕ) → F → List ℕ → F
  unfolding lookup_or
  add_tasks s bytes total [] = total
  add_tasks s bytes total (t ∷ ts) =
      add_tasks s bytes
        (add total (mul (s.tasks t).throughput (of_int (pos (lookup_or 0 (s.tasks t).id bytes)))))
        ts

  unfoldable pub add_nodes : Store F → List (ℕ × ℕ) → F → List ℕ → F
  unfolding add_tasks
  add_nodes s bytes total [] = total
  add_nodes s bytes total (n ∷ ns) =
      add_nodes s bytes (add_tasks s bytes total (s.nodes n).task_list) ns

  -- Bits in gigabits.
  unfoldable pub gbits : F → F
  gbits total = div (div (div (mul total (lit 8 0)) (lit 1024 0)) (lit 1024 0)) (lit 1024 0)

  unfoldable pub get_required_bandwidth : Store F → List (ℕ × ℕ) → Gpu → F
  unfolding add_nodes gbits
  get_required_bandwidth s bytes gpu = gbits (add_nodes s bytes (lit 0 0) gpu.node_list)

  -- Both forms of `isBandwidthOK`, against `_LIMIT_GBITS`.
  unfoldable pub is_bandwidth_ok : Store F → List (ℕ × ℕ) → Gpu → Bool
  unfolding get_required_bandwidth
  is_bandwidth_ok s bytes gpu = not (lt (lit 3 0) (get_required_bandwidth s bytes gpu))

  unfoldable pub are_bandwidths_ok : Store F → List (ℕ × ℕ) → List ℕ → Bool
  unfolding is_bandwidth_ok
  are_bandwidths_ok s bytes [] = true
  are_bandwidths_ok s bytes (g ∷ gs) =
      let rest = are_bandwidths_ok s bytes gs in
      if is_bandwidth_ok s bytes (s.gpus g) then rest else false

  -- `remain_bw`.
  unfoldable pub remain_bw : Store F → List (ℕ × ℕ) → Gpu → F
  unfolding get_required_bandwidth
  remain_bw s bytes gpu =
      let left = sub (lit 3 0) (get_required_bandwidth s bytes gpu) in
      if lt left (lit 0 0) then lit 0 0 else left

  -- The throughput at batch `i`, and what it needs.
  unfoldable pub scaled : Task F → ℕ → F
  scaled task i = mul (div (of_int (pos i)) (of_int (pos task.batch_size))) task.throughput

  unfoldable pub needs : List (ℕ × ℕ) → Task F → ℕ → F
  unfolding lookup_or gbits scaled
  needs bytes task i = gbits (mul (scaled task i) (of_int (pos (lookup_or 0 task.id bytes))))

  -- What is done with the batch that was found.
  unfoldable pub adjusted : Store F → ℕ → Option ℕ → Exit × Store F
  unfolding scaled set_task
  adjusted s t none = (failure, s)
  adjusted s t (some i) = (
    success,
    set_task s t (record (s.tasks t) { batch_size = i; throughput = scaled (s.tasks t) i }),
  )

  unfoldable pub adjust_batch_size_to_net_bw :
      Store F → List (ℕ × ℕ) → ℕ → Gpu → Option (Exit × Store F)
  unfolding remain_bw needs largest_batch adjusted
  adjust_batch_size_to_net_bw s bytes t gpu =
      let task = s.tasks t in
      let remain = remain_bw s bytes gpu in
      if eq remain (lit 0 0) then some (failure, s) else do
        assert (not (task.batch_size == 0) && not (eq task.throughput (lit 0 0)))
        some (adjusted s t (largest_batch (λ i. le (needs bytes task i) remain) task.batch_size))
