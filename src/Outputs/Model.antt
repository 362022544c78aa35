-- ===== src/Outputs/Model.antt =====
-- packages/wmfs/wmfs/output_metadata.py: `evaluate_outputs`, `complete_outputs` and
-- `bind_reusable_outputs`. `torch.result_type` is a parameter: the word of the dtype that promoting
-- an input, of a dtype and a shape, with a scalar gives.
use Prim.Native.String.{String}
use wmfs.Common.{
  ℕ, ◌+◌, ◌-◌, Bool, true, false, not, ◌||◌, Option, some, none, List, [], ◌∷◌, ◌==◌, ltb, nat_eq,
  string_eq, Result, ok, err, ◌>>=◌, ◌>>◌, raise_if, or_raise, collect_all, any, length, get_elem?,
  set_at, if◌then◌else◌,
}
use wmfs.Common.Int.{ℤ, pos, negsuc, is_non_positive, min_int}
use wmfs.Common.Utf8.{Text}
use wmfs.Common.Text.{text_eq}
use wmfs.Metadata.Model.{
  Scalar, boolean, float64, int64, text, other, TensorParameter, DimensionExpression, constant,
  input_axis, minimum, select, unknown_dimension, Dimensions, none_left, dimension, DtypeExpression,
  fixed, input, variable, promote_tensor_scalar, unknown_dtype, ShapeExpression,
  same_shape_as_input, dimensions, unknown_shape, KnownOutput, OutputPlan, OperationMetadata,
}
use wmfs.Metadata.Words.{max_rank, member, supported_output_dtypes, is_empty, is_there}

pub data OutputError : Type 0 where
  missing_axis invalid_shape unbound_variable text_scalar invalid_dtype : OutputError
  unknown_output missing_output not_a_tuple not_a_tensor requires_grad : OutputError
  inference_tensor unmanaged wrong_spec aliased : OutputError
  index_error empty_minimum bad_expression : OutputError

-- What counts here of the descriptor of a managed tensor.
pub record Descriptor : Type 0 where
  pub allocation_id : ℕ
  pub shape : List ℤ
  pub dtype : String

-- The shape and the dtype of an output.
abbrev pub Spec : Type 0
Spec = List ℤ × String

-- xs[i] of a Python sequence: a negative index counts from the end.
unfoldable pub item {ℓ} : {A : Type ℓ} → List A → ℤ → Option A
item xs (pos n) = get_elem? xs n
item xs (negsuc n) = if ltb n (length xs) then get_elem? xs (length xs - (n + 1)) else none

-- The truth value of a Python object. A float is false if it is 0.0 or -0.0, an object of another
-- class is taken to be true.
abbrev pub is_true : Scalar → Bool
is_true (boolean b) = b
is_true (float64 bits) = not (bits == 0 || bits == 9223372036854775808)
is_true (int64 (pos n)) = not (n == 0)
is_true (int64 (negsuc n)) = true
is_true (text t) = not (is_empty t)
is_true other = true

-- min(...) of at least one value
abbrev pub min_from : ℤ → List ℤ → ℤ
min_from a [] = a
min_from a (b ∷ bs) = min_from (min_int a b) bs

abbrev pub minimum_of : List ℤ → Result OutputError ℤ
minimum_of [] = err empty_minimum
minimum_of (a ∷ rest) = ok (min_from a rest)

-- `axis.axis >= len(shape)`, then `shape[axis.axis]`
unfoldable pub axis_of : ℤ → List ℤ → Result OutputError ℤ
axis_of (pos axis) shape = or_raise (get_elem? shape axis) missing_axis
axis_of (negsuc n) shape = or_raise (item shape (negsuc n)) index_error

-- `_evaluate_dimension`, and the operands of a minimum
unfoldable mutual
  pub evaluate_dimension :
      DimensionExpression → List Descriptor → List Scalar → Result OutputError ℤ
  evaluate_dimension (constant n) inputs scalars = ok n
  evaluate_dimension (input_axis i axis) inputs scalars = do
    tensor ← or_raise (item inputs i) index_error
    axis_of axis (tensor.shape)
  evaluate_dimension (minimum es) inputs scalars = do
    values ← evaluate_operands es inputs scalars
    minimum_of values
  evaluate_dimension (select i t f) inputs scalars =
      let yes = evaluate_dimension t inputs scalars in
      let no = evaluate_dimension f inputs scalars in
      do chosen ← or_raise (item scalars i) index_error; if is_true chosen then yes else no
  evaluate_dimension unknown_dimension inputs scalars = err bad_expression

  pub evaluate_operands : Dimensions → List Descriptor → List Scalar → Result OutputError (List ℤ)
  evaluate_operands none_left inputs scalars = ok []
  evaluate_operands (dimension e es) inputs scalars = do
    value ← evaluate_dimension e inputs scalars
    values ← evaluate_operands es inputs scalars
    ok (value ∷ values)

unfoldable pub evaluate_shape :
    ShapeExpression → List Descriptor → List Scalar → Result OutputError (List ℤ)
evaluate_shape (same_shape_as_input i) inputs scalars = do
  tensor ← or_raise (item inputs i) index_error
  ok (tensor.shape)
evaluate_shape (dimensions es) inputs scalars = evaluate_operands es inputs scalars
evaluate_shape unknown_shape inputs scalars = err bad_expression

-- parameter.dtype_variable == name
abbrev pub is_named : Text → Option Text → Bool
is_named name none = false
is_named name (some v) = text_eq.beq v name

-- The loop over the inputs that looks for a dtype variable.
unfoldable pub bound_dtype :
    Text → List TensorParameter → List Descriptor → Result OutputError String
bound_dtype name [] inputs = err unbound_variable
bound_dtype name (p ∷ ps) [] =
    let rest = bound_dtype name ps [] in
    if is_named name p.dtype_variable then err index_error else rest
bound_dtype name (p ∷ ps) (d ∷ ds) =
    let rest = bound_dtype name ps ds in if is_named name p.dtype_variable then ok d.dtype else rest

abbrev pub is_text : Scalar → Bool
is_text (text t) = true
is_text _ = false

-- not shape or len(shape) > _MAX_RANK or any(item <= 0 for item in shape)
unfoldable pub is_bad_shape : List ℤ → Bool
is_bad_shape shape = is_empty shape || (ltb max_rank (length shape) || any is_non_positive shape)

module _ (result_type : Descriptor → Scalar → String) where
  -- `_evaluate_dtype`
  unfoldable pub evaluate_dtype :
      DtypeExpression
      → OperationMetadata
      → List Descriptor
      → List Scalar
      → Result OutputError String
  evaluate_dtype (fixed dtype) o inputs scalars = ok dtype
  evaluate_dtype (input i) o inputs scalars = do
    tensor ← or_raise (item inputs i) index_error
    ok (tensor.dtype)
  evaluate_dtype (variable name) o inputs scalars = bound_dtype name o.tensor_inputs inputs
  evaluate_dtype (promote_tensor_scalar i j) o inputs scalars = do
    scalar ← or_raise (item scalars j) index_error
    raise_if (is_text scalar) text_scalar
    tensor ← or_raise (item inputs i) index_error
    ok (result_type tensor scalar)
  evaluate_dtype unknown_dtype o inputs scalars = err bad_expression

  -- One round of the loop of `evaluate_outputs` for a known output.
  unfoldable pub evaluate_known :
      KnownOutput → OperationMetadata → List Descriptor → List Scalar → Result OutputError Spec
  evaluate_known known o inputs scalars = do
    shape ← evaluate_shape known.shape inputs scalars
    raise_if (is_bad_shape shape) invalid_shape
    dtype ← evaluate_dtype known.dtype o inputs scalars
    ok (shape, dtype)

  unfoldable pub evaluate_plan :
      OperationMetadata
      → List Descriptor
      → List Scalar
      → Option KnownOutput
      → Result OutputError (Option Spec)
  evaluate_plan o inputs scalars none = ok none
  evaluate_plan o inputs scalars (some known) = do
    spec ← evaluate_known known o inputs scalars
    ok (some spec)

  -- `evaluate_outputs`
  unfoldable pub evaluate_outputs :
      OperationMetadata → List Descriptor → List Scalar → Result OutputError (List (Option Spec))
  evaluate_outputs o inputs scalars =
      collect_all (λ (plan : OutputPlan). evaluate_plan o inputs scalars plan.known) o.output_plans

-- index >= len(results) or results[index] is not None
abbrev pub is_taken : Option (Option Spec) → Bool
is_taken none = true
is_taken (some none) = false
is_taken (some (some spec)) = true

-- The loop of `complete_outputs` over what the worker has planned.
unfoldable pub complete_all :
    List (Option Spec) → List (ℕ × Spec) → Result OutputError (List (Option Spec))
complete_all results [] = ok results
complete_all results ((index, spec) ∷ planned) = do
  raise_if (is_taken (get_elem? results index)) unknown_output
  raise_if (is_bad_shape (spec.0)) invalid_shape
  raise_if (not (member (spec.1) supported_output_dtypes)) invalid_dtype
  complete_all (set_at index (some spec) results) planned

-- item for item in results if item is not None
abbrev pub present : List (Option Spec) → List Spec
present [] = []
present (none ∷ results) = present results
present (some spec ∷ results) = spec ∷ present results

-- `complete_outputs`
unfoldable pub complete_outputs :
    List (Option Spec) → List (ℕ × Spec) → Result OutputError (List Spec)
complete_outputs known planned = do
  results ← complete_all known planned
  raise_if (any (λ result. not (is_there result)) results) missing_output
  ok (present results)
