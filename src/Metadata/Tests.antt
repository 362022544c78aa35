-- ===== src/Metadata/Tests.antt =====
-- The metadata of a small plugin: an operation and its VJP.
use wmfs.Common.{ℕ, true, false, some, none, [], ◌∷◌, ◌≡◌, refl, ok, err, arith, All}
use wmfs.Common.Int.{pos, same_int}
use wmfs.Common.Text.{same_text}
use wmfs.Metadata.Model.{
  boolean, TensorParameter, ScalarParameter, DtypeVariable, DimensionExpression, none_left,
  dimension, constant, input_axis, minimum, select, variable, input, dimensions,
  same_shape_as_input, OutputPlan, Vjp, OperationMetadata, PluginMetadata,
}
use wmfs.Metadata.Words.{not_boolean}
use wmfs.Metadata.Validate.{
  scalar_matches_kind, validate_operation_metadata, validate_head, validate_scalar,
  validate_default, validate_enum, validate_variables, validate_dtypes, validate_tensor_input,
  validate_plans, validate_known_output, validate_shape, validate_dtype, validate_dimension,
  validate_index,
}
use wmfs.Metadata.Plugin.{
  operations_by_id, validate_plugin_metadata, validate_ids, validate_operation, validate_vjp,
  validate_pair, validate_target, validate_references, validate_indices, validate_signature,
  validate_kinds,
}
use wmfs.Metadata.Differentiable.{HasVjp, validate_plugin_metadata-HasVjp}
use wmfs.Metadata.Reader.{
  Node, EndsWithin, dimension_from_reader, read_node, read_all, too_deep,
  dimension_from_reader-EndsWithin,
}
use wmfs.Common.Dict

abbrev pub tensor_x : TensorParameter
tensor_x = record {
  name = 120 ∷ [];
  access = "readOnly";
  dtype_variable = some (84 ∷ []);
  dtypes = [];
}

abbrev pub tensor_y : TensorParameter
tensor_y = record { name = 121 ∷ []; access = "readOnly"; dtype_variable = none; dtypes = [] }

abbrev pub flag : ScalarParameter
flag = record {
  name = 102 ∷ [];
  kind = "boolean";
  required = false;
  default = some (boolean true);
  enum_name = none;
  enum_values = [];
}

abbrev pub type_variable : DtypeVariable
type_variable = record { name = 84 ∷ []; dtypes = "float32" ∷ "float64" ∷ [] }

-- min(x.shape[0], 4 if f else 8)
abbrev pub size_of_y : DimensionExpression
size_of_y = minimum (
    dimension (input_axis (pos 0) (pos 0))
      (dimension (select (pos 0) (constant (pos 4)) (constant (pos 8))) none_left))

abbrev pub plan_y : OutputPlan
plan_y = record {
  name = 121 ∷ [];
  known =
      some
        (record { shape = dimensions (dimension size_of_y none_left); dtype = variable (84 ∷ []) });
}

abbrev pub vjp_plan : Vjp
vjp_plan = record {
  operation_id = pos 2;
  saved_inputs = pos 0 ∷ [];
  saved_outputs = [];
  output_cotangents = pos 0 ∷ [];
  input_gradients = pos 0 ∷ [];
  scalar_parameters = pos 0 ∷ [];
}

abbrev pub clip : OperationMetadata
clip = record {
  name = 99 ∷ [];
  tensor_inputs = tensor_x ∷ [];
  tensor_outputs = tensor_y ∷ [];
  scalar_parameters = flag ∷ [];
  operation_id = pos 1;
  output_plans = plan_y ∷ [];
  vjp = some vjp_plan;
  internal = false;
  dtype_variables = type_variable ∷ [];
}

abbrev clip_vjp : OperationMetadata
clip_vjp = record {
  name = 118 ∷ [];
  tensor_inputs = tensor_x ∷ tensor_y ∷ [];
  tensor_outputs = tensor_y ∷ [];
  scalar_parameters = flag ∷ [];
  operation_id = pos 2;
  output_plans =
      record {
        name = 121 ∷ [];
        known = some (record { shape = same_shape_as_input (pos 0); dtype = input (pos 0) });
      }
      ∷ [];
  vjp = none;
  internal = true;
  dtype_variables = type_variable ∷ [];
}

abbrev sample_plugin : PluginMetadata
sample_plugin = record {
  name = 112 ∷ [];
  version = 49 ∷ [];
  protocol_version = pos 1;
  operations = clip ∷ clip_vjp ∷ [];
  fingerprint = 7;
  metadata_version = pos 2;
}

pub clip_valid : validate_operation_metadata clip ≡ ok tt
unfolding same_text validate_operation_metadata validate_head validate_scalar validate_default
    scalar_matches_kind validate_enum validate_variables validate_dtypes validate_tensor_input
    validate_plans validate_known_output validate_shape validate_dtype validate_dimension
    validate_index
clip_valid = refl

plugin_valid : validate_plugin_metadata (λ p. 7) sample_plugin true ≡ ok tt
unfolding validate_plugin_metadata validate_ids operations_by_id Dict.put Dict.get same_int
    same_text validate_operation validate_vjp validate_pair validate_target validate_references
    validate_indices validate_signature validate_kinds validate_operation_metadata validate_head
    validate_scalar validate_default scalar_matches_kind validate_enum validate_variables
    validate_dtypes validate_tensor_input validate_plans validate_known_output validate_shape
    validate_dtype validate_dimension validate_index
plugin_valid = refl

-- A selection needs a Boolean scalar.
not_boolean_refused :
    validate_operation_metadata (record clip {
      scalar_parameters = record flag { kind = "int64"; required = true; default = none } ∷ [];
    })
    ≡ err not_boolean
unfolding same_text validate_operation_metadata validate_head validate_scalar validate_default
    scalar_matches_kind validate_enum validate_variables validate_dtypes validate_tensor_input
    validate_plans validate_known_output validate_shape validate_dtype validate_dimension
    validate_index
not_boolean_refused = refl

validate_plugin_metadata-HasVjp_example :
    All
      (λ (o : OperationMetadata).
        HasVjp (clip ∷ clip_vjp ∷ []) o o.vjp × (validate_operation_metadata o ≡ ok tt))
      (clip ∷ clip_vjp ∷ [])
validate_plugin_metadata-HasVjp_example =
    validate_plugin_metadata-HasVjp (λ p. 7) sample_plugin true plugin_valid

-- A node that is its own operand is refused.
cycle : dimension_from_reader {N = ℕ} (λ n. Node.minimum (n ∷ [])) 17 0 0 ≡ err too_deep
unfolding dimension_from_reader read_node read_all
cycle = refl

dimension_from_reader-EndsWithin_example :
    EndsWithin 0 (dimension_from_reader {N = ℕ} (λ n. Node.minimum (n ∷ [])) 17 0 0)
dimension_from_reader-EndsWithin_example =
    dimension_from_reader-EndsWithin (λ n. Node.minimum (n ∷ [])) 17 0 0 (omega arith) (omega arith)
