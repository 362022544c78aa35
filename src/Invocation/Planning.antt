-- ===== src/Invocation/Planning.antt =====
-- A call whose arguments have been bound, of an operation whose metadata has been validated.
use Prim.Native.String.{String}
use mathlib.Core.Path.{subst}
use wmfs.Common.{
  ℕ, suc, Bool, not, ◌&&◌, Option, List, [], ◌∷◌, ◌==◌, ◌≡◌, refl, ap, sym, ◌∙◌, arith, ok,
  raise_if, ok_inj, first_ok, then-eq-ok, raise_if-pass, length, any,
}
use wmfs.Common.Dict.{Dict}
use wmfs.Common.Int.{ℤ}
use wmfs.Common.Utf8.{Text}
use wmfs.Metadata.Model.{Scalar, OperationMetadata, TensorParameter}
use wmfs.Metadata.Words.{is_there}
use wmfs.Metadata.Validate.{validate_operation_metadata}
use wmfs.Outputs.Model.{Descriptor, evaluate_outputs}
use wmfs.Outputs.Safety.{IsSafe}
use wmfs.Outputs.Evaluation.{HaveKinds, evaluate_outputs-IsSafe}
use wmfs.Outputs.Reuse.{Out}
use wmfs.Invocation.Arguments.{
  Argument, ArgumentTensor, tensors_of, bind_scalars, tensor_count, autograd_out,
}
use wmfs.Invocation.Dtypes.{validate_tensor_dtypes}
use wmfs.Invocation.Model.{bound_tensors, bind_invocation, BoundInvocation}
use wmfs.Invocation.Binding.{bind_scalars-HaveKinds}

length-bound_tensors :
    (ts : List ArgumentTensor) (ps : List TensorParameter)
    → length ts ≡ length ps
    → length (bound_tensors ts ps) ≡ length ps
length-bound_tensors [] [] h = refl
length-bound_tensors [] (p ∷ ps) h = absurd (ground arith)
length-bound_tensors (t ∷ ts) [] h = absurd (ground arith)
length-bound_tensors (t ∷ ts) (p ∷ ps) h = ap suc (length-bound_tensors ts ps (ground arith))

abbrev pub IsBound : OperationMetadata → BoundInvocation → Type 0
IsBound o i =
    (i.operation ≡ o)
    × (length i.tensor_inputs ≡ length o.tensor_inputs)
    × HaveKinds i.scalars o.scalar_parameters

IsBound-eq : (o : OperationMetadata) {i j : BoundInvocation} → i ≡ j → IsBound o i → IsBound o j
IsBound-eq o e b = subst (IsBound o) e b

-- What `bind_invocation` has made sure of.
pub bind_invocation-eq-ok :
    (to_float : ℤ → Option ℕ) (grad_enabled : Bool) (o : OperationMetadata) (args : List Argument)
    (kwargs : Dict Text Scalar) (out : Option Out) {invocation : BoundInvocation}
    → validate_operation_metadata o ≡ ok tt
    → bind_invocation to_float grad_enabled o args kwargs out ≡ ok invocation
    → IsBound o invocation
unfolding bind_invocation
bind_invocation-eq-ok to_float grad_enabled o args kwargs out valid h =
    let (counted, h1) =
      then-eq-ok (raise_if (not (length (tensors_of args) == length o.tensor_inputs)) tensor_count)
        _ h in
    let (plain, h2) =
      then-eq-ok
        (raise_if
          (is_there out
            && (grad_enabled && any (λ (t : ArgumentTensor). t.requires_grad) (tensors_of args)))
          autograd_out)
        _ h1 in
    let (scalars, bound, h3) = first_ok (bind_scalars to_float o args kwargs) _ h2 in
    let (bindings, checked, h4) = first_ok (validate_tensor_dtypes o (tensors_of args)) _ h3 in
    let counts : length (bound_tensors (tensors_of args) o.tensor_inputs) ≡ length o.tensor_inputs =
      length-bound_tensors (tensors_of args) o.tensor_inputs
        (ground (arith, raise_if-pass _ _ counted)) in
    IsBound-eq o (ok_inj h4)
      (refl, counts, bind_scalars-HaveKinds to_float o args kwargs valid bound)

-- Where `validate_operation_metadata` accepts an operation, `bind_invocation` binds a call of it and
-- there is a managed input for each tensor of the call, `evaluate_outputs` returns or raises one of
-- three errors: an input lacks an axis that is asked for, a shape is out of range, or a dtype variable
-- is one that no input has. No index is out of range, no expression is malformed, no minimum is empty
-- and no text is promoted.
pub evaluate_outputs-bind_invocation :
    (to_float : ℤ → Option ℕ) (result_type : Descriptor → Scalar → String) (grad_enabled : Bool)
    (o : OperationMetadata) (args : List Argument) (kwargs : Dict Text Scalar) (out : Option Out)
    (invocation : BoundInvocation) (inputs : List Descriptor)
    → validate_operation_metadata o ≡ ok tt
    → bind_invocation to_float grad_enabled o args kwargs out ≡ ok invocation
    → length inputs ≡ length invocation.tensor_inputs
    → IsSafe (evaluate_outputs result_type invocation.operation inputs invocation.scalars)
evaluate_outputs-bind_invocation to_float result_type grad_enabled o args kwargs out invocation
      inputs valid h counted =
    let bound = bind_invocation-eq-ok to_float grad_enabled o args kwargs out valid h in
    subst (λ op. IsSafe (evaluate_outputs result_type op inputs invocation.scalars)) (sym (bound.0))
      (evaluate_outputs-IsSafe result_type o inputs invocation.scalars valid (counted ∙ bound.1)
        bound.2)
