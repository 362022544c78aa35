-- ===== src/Invocation/Model.antt =====
-- packages/wmfs/wmfs/invocation.py: `bind_invocation`, what it calls, and `plan_outputs`. The clocks
-- are left out.
use Prim.Native.String.{String}
use wmfs.Common.{
  ℕ, Bool, not, ◌&&◌, Option, some, none, List, [], ◌∷◌, ◌==◌, string_eq, Result, ok, ◌>>=◌, ◌>>◌,
  raise_if, any, length,
}
use wmfs.Common.Dict.{Dict}
use wmfs.Common.Int.{ℤ}
use wmfs.Common.Utf8.{Text}
use wmfs.Common.Text.{text_eq}
use wmfs.Metadata.Model.{Scalar, TensorParameter, OperationMetadata}
use wmfs.Metadata.Words.{is_there, same_word}
use wmfs.Outputs.Model.{OutputError, Descriptor, Spec, evaluate_outputs, complete_outputs}
use wmfs.Outputs.Reuse.{Out, bind_reusable_outputs}
use wmfs.Invocation.Arguments.{
  Argument, ArgumentTensor, BindingError, autograd_out, bind_scalars, tensor_count, tensors_of,
}
use wmfs.Invocation.Dtypes.{validate_tensor_dtypes}

pub record BoundTensor : Type 0 where
  pub tensor : ArgumentTensor
  pub writable : Bool

pub record BoundInvocation : Type 0 where
  pub operation : OperationMetadata
  pub tensor_inputs : List BoundTensor
  pub scalars : List Scalar
  pub out : Option Out

-- The tensors, each with the access of its parameter.
abbrev pub bound_tensors : List ArgumentTensor → List TensorParameter → List BoundTensor
bound_tensors (t ∷ ts) (p ∷ ps) =
    record { tensor = t; writable = same_word p.access "readWrite" } ∷ bound_tensors ts ps
bound_tensors _ _ = []

module _ (to_float : ℤ → Option ℕ) where
  -- `bind_invocation`. `grad_enabled` is `torch.is_grad_enabled()`.
  unfoldable pub bind_invocation :
      Bool
      → OperationMetadata
      → List Argument
      → Dict Text Scalar
      → Option Out
      → Result BindingError BoundInvocation
  bind_invocation grad_enabled o args kwargs out = do
    raise_if (not (length (tensors_of args) == length o.tensor_inputs)) tensor_count
    raise_if
        (is_there out
          && (grad_enabled && any (λ (t : ArgumentTensor). t.requires_grad) (tensors_of args)))
        autograd_out
    scalars ← bind_scalars to_float o args kwargs
    bindings ← validate_tensor_dtypes o (tensors_of args)
    ok (record {
      operation = o;
      tensor_inputs = bound_tensors (tensors_of args) o.tensor_inputs;
      scalars = scalars;
      out = out;
    })

pub record OutputPlanned : Type 0 where
  pub specs : List Spec
  pub reusable_outputs : Option (List Descriptor)

-- The tensors that the caller gives for the outputs, where it gives any.
unfoldable pub reuse_outputs :
    Bool → List Descriptor → List Spec → Option Out → Result OutputError OutputPlanned
reuse_outputs inference_mode inputs specs none =
    ok (record { specs = specs; reusable_outputs = none })
reuse_outputs inference_mode inputs specs (some out) = do
  outputs ← bind_reusable_outputs inference_mode specs inputs out
  ok (record { specs = specs; reusable_outputs = some outputs })

-- `plan_outputs`: the outputs that the metadata tells, then those that the worker has planned, then
-- the tensors that are given for them.
unfoldable pub plan_outputs :
    (Descriptor → Scalar → String)
    → Bool
    → BoundInvocation
    → List Descriptor
    → List (ℕ × Spec)
    → Result OutputError OutputPlanned
plan_outputs result_type inference_mode invocation inputs dynamic = do
  known ← evaluate_outputs result_type invocation.operation inputs invocation.scalars
  specs ← complete_outputs known dynamic
  reuse_outputs inference_mode inputs specs invocation.out
