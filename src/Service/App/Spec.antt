-- ===== src/Service/App/Spec.antt =====
-- The graph of models that an application runs: `AppSpec` of src/service/app_spec.cpp. The JSON that
-- `setupModelDependency` reads is given as it was parsed.
use glet.Common.{
  ℕ, Bool, Option, none, some, List, [], ◌∷◌, ◌++◌, String, str_eq, if◌then◌else◌, get_elem?,
  length, map,
}
use glet.Scheduler.State.{Exit, success, failure}

-- `CompDep` of src/service/app_spec.h, without the fields that nothing sets.
pub record CompDep : Type 0 where
  pub type : String
  pub name : String
  pub id : ℕ
  pub input : List ℕ
  pub output : List ℕ

pub record TensorSpec : Type 0 where
  pub output : List ℕ
  pub id : ℕ

-- The parsed arrays "Models" and "Output".
pub record ModelEntry : Type 0 where
  pub model : String
  pub id : ℕ
  pub input : List ℕ
  pub output : List ℕ

pub record OutputEntry : Type 0 where
  pub comp : String
  pub id : ℕ
  pub input : List ℕ

pub record AppJson : Type 0 where
  pub models : List ModelEntry
  pub output : List OutputEntry

pub record AppSpec : Type 0 where
  pub name : String
  pub input_tensors : List TensorSpec
  pub model_table : List CompDep
  pub global_vec_id : ℕ

unfoldable pub add_input_spec : AppSpec → TensorSpec → AppSpec
add_input_spec spec tensor = record spec { input_tensors = spec.input_tensors ++ tensor ∷ [] }

-- The three loops of `setupModelDependency`; `none` for a file that does not parse.
unfoldable pub of_tensor : TensorSpec → CompDep
of_tensor t = record { type = "Input"; name = "Input"; id = t.id; input = []; output = t.output }

unfoldable pub of_model : ModelEntry → CompDep
of_model m = record {
  type = "Model";
  name = m.model;
  id = m.id;
  input = m.input;
  output = m.output;
}

unfoldable pub of_output : OutputEntry → CompDep
of_output o = record { type = "Output"; name = o.comp; id = o.id; input = o.input; output = [] }

unfoldable pub setup_model_dependency : AppSpec → Option AppJson → Exit × AppSpec
unfolding of_tensor of_model of_output
setup_model_dependency spec none = (failure, spec)
setup_model_dependency spec (some root) = (
  success,
  record spec {
    model_table =
        spec.model_table
        ++ (map of_tensor spec.input_tensors
            ++ (map of_model root.models ++ map of_output root.output));
  },
)

-- Reads of the table, where `none` is an index out of range.
unfoldable pub get_next_dsts : AppSpec → ℕ → Option (List ℕ)
get_next_dsts spec curr_id = elim (get_elem? spec.model_table curr_id) [
  | none ↦ none
  | some dep ↦ some dep.output
]

unfoldable pub is_output : AppSpec → ℕ → Option Bool
is_output spec id = elim (get_elem? spec.model_table id) [
  | none ↦ none
  | some dep ↦ some (str_eq dep.type "Output")
]

-- The loop of `getInputforOutput`.
unfoldable pub inputs_of_outputs : List CompDep → List ℕ
inputs_of_outputs [] = []
inputs_of_outputs (dep ∷ deps) =
    let rest = inputs_of_outputs deps in
    if str_eq dep.type "Output" then dep.input ++ rest else rest

unfoldable pub get_input_for_output : AppSpec → List ℕ
unfolding inputs_of_outputs
get_input_for_output spec = inputs_of_outputs spec.model_table

unfoldable pub get_total_num_of_nodes : AppSpec → ℕ
get_total_num_of_nodes spec = length spec.model_table
