-- ===== src/Invocation/Dtypes.antt =====
-- packages/wmfs/wmfs/invocation.py: `_validate_tensor_dtypes`.
use Prim.Native.String.{String}
use wmfs.Common.{
  not, ◌&&◌, some, none, List, [], ◌∷◌, string_eq, Result, ok, err, ◌>>=◌, ◌>>◌, raise_if, or_raise,
  if◌then◌else◌,
}
use wmfs.Common.Dict
use wmfs.Common.Dict.{Dict}
use wmfs.Common.Utf8.{Text}
use wmfs.Common.Text.{text_eq}
use wmfs.Metadata.Model.{TensorParameter, DtypeVariable, OperationMetadata}
use wmfs.Metadata.Words.{member, is_empty, same_word}
use wmfs.Invocation.Arguments.{
  ArgumentTensor, BindingError, other_binding, tensor_count, unknown_variable, unsupported_dtype,
}

-- The dtype that a variable has been bound to; a tensor of another dtype is refused.
abbrev pub bind_dtype : Text → String → Dict Text String → Result BindingError (Dict Text String)
bind_dtype name dtype bindings = elim (Dict.get name bindings) [
  | none ↦ ok (Dict.put name dtype bindings)
  | some previous ↦ if same_word previous dtype then ok bindings else err other_binding
]

-- {item.name: item for item in operation.dtype_variables}
abbrev pub variables_of : List DtypeVariable → Dict Text DtypeVariable → Dict Text DtypeVariable
variables_of [] variables = variables
variables_of (v ∷ vs) variables = variables_of vs (Dict.put v.name v variables)

-- One round of the loop of `_validate_tensor_dtypes`: the bindings after it.
unfoldable pub check_dtype :
    Dict Text DtypeVariable
    → TensorParameter
    → String
    → Dict Text String
    → Result BindingError (Dict Text String)
check_dtype variables p dtype bindings = elim p.dtype_variable [
  | none ↦
      if not (is_empty p.dtypes) && not (member dtype p.dtypes)
      then err unsupported_dtype
      else ok bindings
  | some name ↦ do
    v ← or_raise (Dict.get name variables) unknown_variable
    raise_if (not (member dtype v.dtypes)) unsupported_dtype
    bind_dtype v.name dtype bindings
]

-- The loop. There is a tensor for each parameter, as `bind_invocation` has seen to.
unfoldable pub check_dtypes :
    Dict Text DtypeVariable
    → List TensorParameter
    → List ArgumentTensor
    → Dict Text String
    → Result BindingError (Dict Text String)
check_dtypes variables [] [] bindings = ok bindings
check_dtypes variables (p ∷ ps) (t ∷ ts) bindings = do
  bound ← check_dtype variables p t.dtype bindings
  check_dtypes variables ps ts bound
check_dtypes variables _ _ bindings = err tensor_count

-- `_validate_tensor_dtypes`
unfoldable pub validate_tensor_dtypes :
    OperationMetadata → List ArgumentTensor → Result BindingError (Dict Text String)
validate_tensor_dtypes o tensors =
    check_dtypes (variables_of o.dtype_variables []) o.tensor_inputs tensors []
