-- ===== src/Service/App/Batch.antt =====
-- Requests and the batches made of them: src/service/request.cpp and batched_request.cpp. The requests
-- and the applications are shared objects behind pointers.
use glet.Common.{
  ℕ, ◌+◌, ◌%◌, ◌^◌, Bool, Option, none, some, List, [], ◌∷◌, ◌++◌, ltb, ◌==◌, if◌then◌else◌,
  get_elem?, length, update,
}
use glet.Service.App.Instance.{AppInstance, make_input_tensor, mark_finished, is_finished}

-- The fields of `request` that the service computes with; `task` points to the application.
pub record Request (T : Type 0) : Type 0 where
  pub cgid : ℕ
  pub batch_num : ℕ
  pub task : ℕ
  pub dropped : Bool
  pub input_tensors : List T

pub record World (T : Type 0) : Type 0 where
  pub requests : ℕ → Request T
  pub apps : ℕ → AppInstance T

-- `batched_request`; the tensor of a batch that is empty is not there.
pub record BatchedRequest (T : Type 0) : Type 0 where
  pub batch_num : ℕ
  pub max_batch : ℕ
  pub batched_tensor : Option T
  pub task_requests : List ℕ

-- What the service calls of `torch`: `cat` along the first dimension, where `none` is a tensor without
-- data, and `split` into slices of one.
pub record Torch (T : Type 0) : Type 0 where
  pub cat : Option T → T → T
  pub split : T → List T

module _ {T : Type 0} where
  unfoldable pub set_app : World T → ℕ → AppInstance T → World T
  set_app w a app = record w { apps = update w.apps a app }

  -- `request::pushInputData`.
  unfoldable pub push_input_data : World T → ℕ → T → World T
  push_input_data w r input = record w {
    requests =
        update w.requests r
          (record (w.requests r) { input_tensors = (w.requests r).input_tensors ++ input ∷ [] });
  }

  -- `request::setFinished` and `request::setOutputTensor`.
  unfoldable pub set_finished : World T → ℕ → World T
  unfolding set_app mark_finished
  set_finished w r = let q = w.requests r in set_app w q.task (mark_finished (w.apps q.task) q.cgid)

  unfoldable pub set_output_tensor : World T → ℕ → T → World T
  unfolding set_app make_input_tensor set_finished
  set_output_tensor w r tensor =
      let q = w.requests r in
      set_finished (set_app w q.task (make_input_tensor (w.apps q.task) tensor q.cgid)) r

  -- `request::isAppFinished`.
  unfoldable pub is_app_finished : World T → ℕ → Bool × World T
  unfolding is_finished set_app
  is_app_finished w r =
      let a = (w.requests r).task in
      let (finished, app) = is_finished (w.apps a) in (finished, set_app w a app)

  -- The constructor with `setMaxBatch`.
  unfoldable pub empty_batch : ℕ → BatchedRequest T
  empty_batch max_batch = record {
    batch_num = 0;
    max_batch = max_batch;
    batched_tensor = none;
    task_requests = [];
  }

  module _ ⦃L : Torch T⦄ where
    -- The tensor after a request joins; `batch_num` is the new `mBatchNum`.
    unfoldable pub join_tensor : ℕ → Option T → T → T
    join_tensor batch_num batched input = if batch_num == 1 then input else L.cat batched input

    unfoldable pub joined : World T → BatchedRequest T → ℕ → T → BatchedRequest T
    unfolding join_tensor
    joined w b r input =
        let batch_num = (b.batch_num + (w.requests r).batch_num) % 2 ^ 32 in
        record b {
          task_requests = b.task_requests ++ r ∷ [];
          batch_num = batch_num;
          batched_tensor = some (join_tensor batch_num b.batched_tensor input);
        }

    -- `addRequestInfo`; `none` is the exit, or a request without an input.
    unfoldable pub add_request_info : World T → BatchedRequest T → ℕ → Option (BatchedRequest T)
    unfolding joined
    add_request_info w b r =
        if ltb b.max_batch (length b.task_requests)
        then none
        else elim (get_elem? (w.requests r).input_tensors 0) [
          | none ↦ none
          | some input ↦ some (joined w b r input)
        ]

    unfoldable pub add_all : World T → BatchedRequest T → List ℕ → Option (BatchedRequest T)
    unfolding add_request_info
    add_all w b [] = some b
    add_all w b (r ∷ rs) = elim (add_request_info w b r) [ none ↦ none | some b' ↦ add_all w b' rs ]

    -- The loop of `allocateOutput`; `none` is a request without a slice.
    unfoldable pub output_to : World T → List ℕ → List T → Option (World T)
    unfolding set_output_tensor
    output_to w [] slices = some w
    output_to w (r ∷ rs) [] = none
    output_to w (r ∷ rs) (slice ∷ slices) = output_to (set_output_tensor w r slice) rs slices

    unfoldable pub allocate_output : World T → BatchedRequest T → T → Option (World T)
    unfolding output_to
    allocate_output w b tensor = output_to w b.task_requests (L.split tensor)
