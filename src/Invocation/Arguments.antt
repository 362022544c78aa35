-- ===== src/Invocation/Arguments.antt =====
-- packages/wmfs/wmfs/invocation.py: `bind_scalars` and `_coerce_scalar`. `float(n)` of an integer is
-- a parameter: the 64 bits of the double, or none where it overflows.
use Prim.Native.String.{String}
use mathlib.Core.Option
use wmfs.Common.{
  ℕ, ◌+◌, Bool, not, ◌&&◌, ◌||◌, Option, some, none, List, [], ◌∷◌, ltb, leb, string_eq, Result, ok,
  err, ◌>>=◌, ◌>>◌, raise_if, or_raise, length, if◌then◌else◌,
}
use wmfs.Common.Dict
use wmfs.Common.Dict.{Dict}
use wmfs.Common.Int.{ℤ, pos}
use wmfs.Common.Utf8.{Text}
use wmfs.Common.Text.{text_eq}
use wmfs.Metadata.Model.{Scalar, boolean, float64, int64, text, ScalarParameter, OperationMetadata}
use wmfs.Metadata.Words.{is_there, is_empty, same_word}

pub data BindingError : Type 0 where
  tensor_count autograd_out too_many supplied_twice missing_scalar no_default : BindingError
  unexpected not_in_enum wrong_scalar_type unknown_kind float_overflow : BindingError
  unknown_variable unsupported_dtype other_binding : BindingError

-- What counts here of a tensor that is given as an argument.
pub record ArgumentTensor : Type 0 where
  pub dtype : String
  pub requires_grad : Bool

pub data Argument : Type 0 where
  tensor_argument : ArgumentTensor → Argument
  value_argument : Scalar → Argument

abbrev pub tensors_of : List Argument → List ArgumentTensor
tensors_of [] = []
tensors_of (tensor_argument t ∷ args) = t ∷ tensors_of args
tensors_of (value_argument v ∷ args) = tensors_of args

abbrev pub values_of : List Argument → List Scalar
values_of [] = []
values_of (tensor_argument t ∷ args) = values_of args
values_of (value_argument v ∷ args) = v ∷ values_of args

-- `_python_parameter_name`, for names of ASCII letters and digits
unfoldable pub python_parameter_name : Text → Text
python_parameter_name [] = []
python_parameter_name (c ∷ name) =
    if leb 65 c && leb c 90
    then 95 ∷ (c + 32) ∷ python_parameter_name name
    else c ∷ python_parameter_name name

-- list.index
unfoldable pub index_of : Text → List Text → ℕ → Option ℕ
index_of t [] i = none
index_of t (u ∷ us) i = let rest = index_of t us (i + 1) in if text_eq.beq u t then some i else rest

-- The value of an enum: the index of its name, or an index in range.
unfoldable pub coerce_enum : List Text → Scalar → Result BindingError Scalar
coerce_enum values (text t) = do i ← or_raise (index_of t values 0) not_in_enum; ok (int64 (pos i))
coerce_enum values (int64 (pos n)) =
    if ltb n (length values) then ok (int64 (pos n)) else err not_in_enum
coerce_enum values _ = err not_in_enum

-- The value for a parameter that has no positional one, and the keywords left.
unfoldable pub keyword_value :
    ScalarParameter → Dict Text Scalar → Result BindingError (Scalar × Dict Text Scalar)
keyword_value p remaining =
    first (Dict.get (python_parameter_name p.name) remaining) (Dict.get p.name remaining) p.default
  where
    first :
        Option Scalar
        → Option Scalar
        → Option Scalar
        → Result BindingError (Scalar × Dict Text Scalar)
    first (some v) _ _ = ok (v, Dict.remove (python_parameter_name p.name) remaining)
    first none (some v) _ = ok (v, Dict.remove p.name remaining)
    first none none (some v) = ok (v, remaining)
    first none none none = if p.required then err missing_scalar else err no_default

-- The branches on the kind of a parameter.
abbrev pub as_boolean : Scalar → Result BindingError Scalar
as_boolean (boolean b) = ok (boolean b)
as_boolean _ = err wrong_scalar_type

abbrev pub as_integer : Scalar → Result BindingError Scalar
as_integer (int64 n) = ok (int64 n)
as_integer _ = err wrong_scalar_type

abbrev pub as_text : Scalar → Result BindingError Scalar
as_text (text t) = ok (text t)
as_text _ = err wrong_scalar_type

abbrev pub as_float : (ℤ → Option ℕ) → Scalar → Result BindingError Scalar
as_float to_float (float64 bits) = ok (float64 bits)
as_float to_float (int64 n) = or_raise (Option.map float64 (to_float n)) float_overflow
as_float to_float _ = err wrong_scalar_type

module _ (to_float : ℤ → Option ℕ) where
  unfoldable pub coerce_kind : String → Scalar → Result BindingError Scalar
  coerce_kind kind v =
      if same_word kind "boolean"
      then as_boolean v
      else if same_word kind "float64"
      then as_float to_float v
      else if same_word kind "int64"
      then as_integer v
      else if same_word kind "text"
      then as_text v
      else err unknown_kind

  -- `_coerce_scalar`
  unfoldable pub coerce_scalar : ScalarParameter → Scalar → Result BindingError Scalar
  coerce_scalar p v =
      if is_there p.enum_name then coerce_enum p.enum_values v else coerce_kind p.kind v

  -- The loop of `bind_scalars`: the values, and the keywords left.
  unfoldable pub bind_all :
      List ScalarParameter
      → List Scalar
      → Dict Text Scalar
      → Result BindingError (List Scalar × Dict Text Scalar)
  bind_all [] positional remaining = ok ([], remaining)
  bind_all (p ∷ ps) [] remaining = do
    (v, left) ← keyword_value p remaining
    coerced ← coerce_scalar p v
    (values, unused) ← bind_all ps [] left
    ok (coerced ∷ values, unused)
  bind_all (p ∷ ps) (v ∷ positional) remaining = do
    raise_if
        (is_there (Dict.get p.name remaining)
          || is_there (Dict.get (python_parameter_name p.name) remaining))
        supplied_twice
    coerced ← coerce_scalar p v
    (values, unused) ← bind_all ps positional remaining
    ok (coerced ∷ values, unused)

  -- `bind_scalars`
  unfoldable pub bind_scalars :
      OperationMetadata → List Argument → Dict Text Scalar → Result BindingError (List Scalar)
  bind_scalars o args kwargs = do
    raise_if (ltb (length o.scalar_parameters) (length (values_of args))) too_many
    (values, unused) ← bind_all o.scalar_parameters (values_of args) kwargs
    raise_if (not (is_empty unused)) unexpected
    ok values
