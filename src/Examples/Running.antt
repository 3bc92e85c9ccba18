-- ===== src/Examples/Running.antt =====
-- Applications, requests and batches.
use glet.Common.{
  ℕ, ◌≤◌, ◌≡◌, ◌↔◌, refl, true, false, not, ◌&&◌, none, some, List, [], ◌∷◌, ◌++◌, arith, inl, inr,
  lookup_or, nat_key, length, all, ◌+◌,
}
use glet.Service.App.Instance.{AppInstance, is_finished}
use glet.Service.App.Report.{mark, ask, reports, reports-le, is_finished-all}
use glet.Service.App.Batch.{World, BatchedRequest, Torch, empty_batch, add_all, allocate_output}
use glet.Service.App.Output.{IsMarked, allocate_output-IsMarked, add_all_iff}

-- An application whose outputs read the models 1 and 2.
abbrev app : AppInstance (List ℕ)
app = record {
  name = "game";
  reported = false;
  dropped = false;
  input = [];
  output_check = 1 ∷ 2 ∷ [];
  score_board = (0, false) ∷ (1, true) ∷ (2, false) ∷ [];
}

reports-le_example : reports app (ask ∷ mark 2 ∷ ask ∷ ask ∷ []) ≤ 1
reports-le_example = reports-le app (ask ∷ mark 2 ∷ ask ∷ ask ∷ [])

is_finished-all_example :
    (is_finished app).0 ≡ not false && all (λ id. lookup_or false id app.score_board) (1 ∷ 2 ∷ [])
is_finished-all_example = is_finished-all app

-- Tensors as lists of slices.
pieces : List ℕ → List (List ℕ)
pieces [] = []
pieces (x ∷ xs) = (x ∷ []) ∷ pieces xs

instance abbrev lists : Torch (List ℕ)
lists = record { cat = λ a b. elim a [ none ↦ b | some t ↦ t ++ b ]; split = pieces }

-- Requests for the model of their number, all of one application.
abbrev world : World (List ℕ)
world = record {
  requests = λ r. record {
    cgid = r;
    batch_num = 1;
    task = 0;
    dropped = false;
    input_tensors = (r ∷ []) ∷ [];
  };
  apps = λ a. app;
}

abbrev batch : BatchedRequest (List ℕ)
batch = record { batch_num = 2; max_batch = 4; batched_tensor = none; task_requests = 1 ∷ 2 ∷ [] }

abbrev finished : World (List ℕ)
finished = elim (allocate_output world batch (7 ∷ 8 ∷ [])) [ none ↦ world | some w ↦ w ]

allocated : allocate_output world batch (7 ∷ 8 ∷ []) ≡ some finished
unfolding allocate_output pieces
allocated = refl

allocate_output-IsMarked_example : IsMarked finished 2
allocate_output-IsMarked_example =
    allocate_output-IsMarked world finished batch (7 ∷ 8 ∷ []) 2 allocated (inr (inl refl))

full : (q : ℕ) → 1 ≤ length (world.requests q).input_tensors
full q = ground arith

add_all_iff_example :
    ((b' : BatchedRequest (List ℕ)) × (add_all world (empty_batch 1) (5 ∷ 6 ∷ []) ≡ some b')) ↔ (
      length (empty_batch {T = List ℕ} 1).task_requests + 1
      ≤ (empty_batch {T = List ℕ} 1).max_batch)
add_all_iff_example = add_all_iff world (empty_batch 1) 5 (6 ∷ []) full
