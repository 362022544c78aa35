-- ===== src/Metadata/Validate.antt =====
-- packages/wmfs/wmfs/protocol/metadata.py: `validate_operation_metadata` and what it calls.
use Prim.Native.String.{String}
use mathlib.Core.Option
use wmfs.Common.{
  ℕ, ◌+◌, Bool, true, false, not, ◌&&◌, ◌||◌, Option, some, none, List, [], ◌∷◌, map, ◌==◌, ltb,
  leb, string_eq, ok, err, ◌>>◌, raise_if, for_each, any, length, get_elem?,
}
use wmfs.Common.Int.{ℤ, pos, negsuc, is_negative, is_non_positive, pos_part}
use wmfs.Common.Utf8.{Text}
use wmfs.Common.Text.{text_eq}
use wmfs.Metadata.Model.{
  Scalar, boolean, float64, int64, text, other, TensorParameter, ScalarParameter, DtypeVariable,
  DimensionExpression, constant, input_axis, minimum, select, unknown_dimension, Dimensions,
  none_left, dimension, DtypeExpression, fixed, input, variable, promote_tensor_scalar,
  unknown_dtype, ShapeExpression, same_shape_as_input, dimensions, unknown_shape, KnownOutput,
  OutputPlan, OperationMetadata,
}
use wmfs.Metadata.Words.{
  Checks, duplicate_enum_values, duplicate_variables, dynamic_from_mutable, empty_minimum,
  has_duplicates, invalid_axis, invalid_default, invalid_dtype, invalid_dtypes, invalid_enum,
  invalid_enum_default, invalid_index, invalid_kind, invalid_operation_id, invalid_rank, is_empty,
  is_there, max_expression_depth, max_outputs, max_rank, member, not_boolean, not_positive,
  optional_without_default, plan_name, plans_mismatch, required_with_default, reserved_out,
  same_word, scalar_kinds, supported_output_dtypes, text_promotion, too_deep, too_many_outputs,
  unknown_dtype_kind, unknown_kind, unknown_shape_kind, unknown_variable,
}

-- `_validate_index`
unfoldable pub validate_index : ℤ → ℕ → Checks
validate_index index count =
    raise_if (is_negative index || leb count (pos_part index)) invalid_index

-- `_validate_dtypes`
unfoldable pub validate_dtypes : List String → Checks
validate_dtypes dtypes =
    raise_if
      (is_empty dtypes
        || (has_duplicates dtypes
            || any (λ item. not (member item supported_output_dtypes)) dtypes))
      invalid_dtypes

-- `_scalar_matches_kind`
unfoldable pub scalar_matches_kind : Scalar → String → Bool
scalar_matches_kind (boolean b) kind = same_word kind "boolean"
scalar_matches_kind (float64 bits) kind = same_word kind "float64"
scalar_matches_kind (int64 n) kind = same_word kind "float64" || same_word kind "int64"
scalar_matches_kind (text t) kind = not (member kind ("boolean" ∷ "float64" ∷ "int64" ∷ []))
scalar_matches_kind other kind = false

-- scalar.default not in scalar.enum_values
abbrev pub member_text : Scalar → List Text → Bool
member_text (text t) values = member t values
member_text _ values = false

abbrev pub default_matches : Option Scalar → String → Bool
default_matches none kind = true
default_matches (some value) kind = scalar_matches_kind value kind

abbrev pub default_in_enum : Option Scalar → List Text → Bool
default_in_enum none values = true
default_in_enum (some value) values = member_text value values

-- The checks of a scalar parameter that hold of every one.
unfoldable pub validate_default : ScalarParameter → Checks
validate_default s = do
  raise_if (text_eq.beq s.name (111 ∷ 117 ∷ 116 ∷ [])) reserved_out
  raise_if (not (member s.kind scalar_kinds)) invalid_kind
  raise_if (s.required && is_there s.default) required_with_default
  raise_if (not s.required && not (is_there s.default)) optional_without_default
  raise_if (not (is_there s.enum_name) && not (default_matches s.default s.kind)) invalid_default

-- The checks of one that is an enum.
unfoldable pub validate_enum : Option Text → ScalarParameter → Checks
validate_enum none s = ok tt
validate_enum (some name) s = do
  raise_if (not (same_word s.kind "int64") || is_empty s.enum_values) invalid_enum
  raise_if (has_duplicates s.enum_values) duplicate_enum_values
  raise_if (not (default_in_enum s.default s.enum_values)) invalid_enum_default

-- One round of the loop over the scalar parameters.
unfoldable pub validate_scalar : ScalarParameter → Checks
validate_scalar s = do validate_default s; validate_enum s.enum_name s

-- operation.scalar_parameters[index].kind
abbrev pub kind_at : List ScalarParameter → ℤ → Option String
kind_at parameters (negsuc n) = none
kind_at parameters (pos n) = Option.map (λ (p : ScalarParameter). p.kind) (get_elem? parameters n)

abbrev pub is_kind : Option String → String → Bool
is_kind none word = false
is_kind (some kind) word = same_word kind word

-- `_validate_dimension`, and its loop over the operands of a minimum
unfoldable mutual
  pub validate_dimension : DimensionExpression → OperationMetadata → ℕ → Checks
  validate_dimension (constant n) o depth = do
    raise_if (leb max_expression_depth depth) too_deep
    raise_if (is_non_positive n) not_positive
  validate_dimension (input_axis i axis) o depth = do
    raise_if (leb max_expression_depth depth) too_deep
    validate_index i (length o.tensor_inputs)
    raise_if (is_negative axis || leb max_rank (pos_part axis)) invalid_axis
  validate_dimension (minimum none_left) o depth = do
    raise_if (leb max_expression_depth depth) too_deep
    err empty_minimum
  validate_dimension (minimum (dimension e es)) o depth = do
    raise_if (leb max_expression_depth depth) too_deep
    validate_dimension e o (depth + 1)
    validate_operands es o (depth + 1)
  validate_dimension (select i t f) o depth = do
    raise_if (leb max_expression_depth depth) too_deep
    validate_index i (length o.scalar_parameters)
    raise_if (not (is_kind (kind_at o.scalar_parameters i) "boolean")) not_boolean
    validate_dimension t o (depth + 1)
    validate_dimension f o (depth + 1)
  validate_dimension unknown_dimension o depth = do
    raise_if (leb max_expression_depth depth) too_deep
    err unknown_kind

  pub validate_operands : Dimensions → OperationMetadata → ℕ → Checks
  validate_operands none_left o depth = ok tt
  validate_operands (dimension e es) o depth = do
    validate_dimension e o depth
    validate_operands es o depth

-- len(dimensions)
abbrev pub rank : Dimensions → ℕ
rank none_left = 0
rank (dimension e es) = rank es + 1

unfoldable pub validate_shape : ShapeExpression → OperationMetadata → Checks
validate_shape (same_shape_as_input i) o = validate_index i (length o.tensor_inputs)
validate_shape (dimensions es) o = do
  raise_if (rank es == 0 || ltb max_rank (rank es)) invalid_rank
  validate_operands es o 0
validate_shape unknown_shape o = err unknown_shape_kind

unfoldable pub validate_dtype : DtypeExpression → OperationMetadata → Checks
validate_dtype (fixed dtype) o = raise_if (not (member dtype supported_output_dtypes)) invalid_dtype
validate_dtype (input i) o = validate_index i (length o.tensor_inputs)
validate_dtype (promote_tensor_scalar i j) o = do
  validate_index i (length o.tensor_inputs)
  validate_index j (length o.scalar_parameters)
  raise_if (is_kind (kind_at o.scalar_parameters j) "text") text_promotion
validate_dtype (variable name) o =
    raise_if (not (member name (map (λ (v : DtypeVariable). v.name) o.dtype_variables)))
      unknown_variable
validate_dtype unknown_dtype o = err unknown_dtype_kind

-- `_validate_known_output`
unfoldable pub validate_known_output : KnownOutput → OperationMetadata → Checks
validate_known_output known o = do validate_shape known.shape o; validate_dtype known.dtype o

abbrev pub validate_known : Option KnownOutput → OperationMetadata → Checks
validate_known none o = ok tt
validate_known (some known) o = validate_known_output known o

-- The loop over the outputs and their plans. `zip(..., strict=True)` finds as many of each, since
-- their numbers have been compared; what is left over would be its `ValueError`.
unfoldable pub validate_plans : List TensorParameter → List OutputPlan → OperationMetadata → Checks
validate_plans [] [] o = ok tt
validate_plans (p ∷ ps) (plan ∷ plans) o = do
  raise_if (not (text_eq.beq plan.name p.name)) plan_name
  validate_known plan.known o
  validate_plans ps plans o
validate_plans _ _ o = err plans_mismatch

unfoldable pub validate_tensor_input : OperationMetadata → TensorParameter → Checks
validate_tensor_input o p = elim p.dtype_variable [
  | some name ↦
      raise_if (not (member name (map (λ (v : DtypeVariable). v.name) o.dtype_variables)))
        unknown_variable
  | none ↦ if_any p.dtypes
]
  where
    if_any : List String → Checks
    if_any [] = ok tt
    if_any (d ∷ ds) = validate_dtypes (d ∷ ds)

-- The checks of `validate_operation_metadata` before its loops.
unfoldable pub validate_head : OperationMetadata → Checks
validate_head o = do
  raise_if (is_non_positive o.operation_id) invalid_operation_id
  raise_if (not (length o.output_plans == length o.tensor_outputs)) plans_mismatch
  raise_if (ltb max_outputs (length o.output_plans)) too_many_outputs
  raise_if
      (any (λ (plan : OutputPlan). not (is_there plan.known)) o.output_plans
        && any (λ (p : TensorParameter). same_word p.access "readWrite") o.tensor_inputs)
      dynamic_from_mutable

unfoldable pub validate_variables : List DtypeVariable → Checks
validate_variables variables = do
  raise_if (has_duplicates (map (λ (v : DtypeVariable). v.name) variables)) duplicate_variables
  for_each (λ (v : DtypeVariable). validate_dtypes v.dtypes) variables

-- `validate_operation_metadata`
unfoldable pub validate_operation_metadata : OperationMetadata → Checks
validate_operation_metadata o = do
  validate_head o
  for_each validate_scalar o.scalar_parameters
  validate_variables o.dtype_variables
  for_each (validate_tensor_input o) o.tensor_inputs
  validate_plans o.tensor_outputs o.output_plans o
