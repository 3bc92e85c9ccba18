-- ===== src/Service/App/Instance.antt =====
-- One run of an application: `AppInstance` of src/service/app_instance.cpp. `T` stands for
-- `torch::Tensor`.
use glet.Common.{
  ℕ, zero, suc, Bool, true, false, ◌&&◌, List, [], ◌∷◌, String, if◌then◌else◌, insert, lookup_or,
  nat_key,
}
use glet.Service.App.Spec.{AppSpec, get_input_for_output, get_total_num_of_nodes}

pub record AppInstance (T : Type 0) : Type 0 where
  pub name : String
  pub reported : Bool
  pub dropped : Bool
  pub input : List (ℕ × T)
  pub output_check : List ℕ
  pub score_board : List (ℕ × Bool)

-- The loop of `setupScoreBoard`, from the last node to the first.
unfoldable pub blank_board : ℕ → List (ℕ × Bool) → List (ℕ × Bool)
unfolding insert
blank_board zero board = board
blank_board (suc i) board = insert i false (blank_board i board)

-- The loop of `isFinished`; `scoreBoard[*it]` makes a missing entry.
unfoldable pub check_outputs : List ℕ → List (ℕ × Bool) → Bool → Bool × List (ℕ × Bool)
unfolding lookup_or insert
check_outputs [] board finished = (finished, board)
check_outputs (id ∷ ids) board finished =
    let mark = lookup_or false id board in
    check_outputs ids (insert id mark board) (finished && mark)

module _ {T : Type 0} where
  unfoldable pub setup_score_board : AppInstance T → AppSpec → AppInstance T
  unfolding blank_board get_total_num_of_nodes get_input_for_output
  setup_score_board app spec = record app {
    score_board = blank_board (get_total_num_of_nodes spec) app.score_board;
    output_check = get_input_for_output spec;
  }

  -- The constructor.
  unfoldable pub make_app : String → AppSpec → AppInstance T
  unfolding setup_score_board
  make_app name spec =
      setup_score_board
        (record {
          name = name;
          reported = false;
          dropped = false;
          input = [];
          output_check = [];
          score_board = [];
        })
        spec

  unfoldable pub make_input_tensor : AppInstance T → T → ℕ → AppInstance T
  unfolding insert
  make_input_tensor app tensor input_id = record app { input = insert input_id tensor app.input }

  unfoldable pub mark_finished : AppInstance T → ℕ → AppInstance T
  unfolding insert
  mark_finished app id = record app { score_board = insert id true app.score_board }

  -- `isFinished`, under its lock.
  unfoldable pub is_finished : AppInstance T → Bool × AppInstance T
  unfolding check_outputs
  is_finished app =
      if app.reported
      then (false, app)
      else (let (finished, board) = check_outputs app.output_check app.score_board true in
          (finished, record app { score_board = board; reported = finished }))
