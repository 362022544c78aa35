-- ===== src/Outputs/Reuse.antt =====
-- packages/wmfs/wmfs/output_metadata.py: `bind_reusable_outputs`, which takes the tensors given as
-- `out` for the outputs of a call.
use wmfs.Common.{
  ℕ, Bool, true, false, not, ◌&&◌, ◌||◌, Option, none, List, [], ◌∷◌, map, ◌==◌, nat_eq, string_eq,
  Result, ok, err, ◌>>=◌, ◌>>◌, raise_if, or_raise, length, if◌then◌else◌,
}
use wmfs.Common.Int.{ℤ, same_int}
use wmfs.Metadata.Words.{member}
use wmfs.Outputs.Model.{
  OutputError, not_a_tuple, not_a_tensor, requires_grad, inference_tensor, unmanaged, wrong_spec,
  aliased, Descriptor, Spec,
}

-- What the code asks a tensor; `managed` is the descriptor of a live tensor of this runtime.
pub record Tensor : Type 0 where
  pub requires_grad : Bool
  pub is_inference : Bool
  pub managed : Option Descriptor

-- `none` is an object that is not a tensor.
pub data Out : Type 0 where
  single : Option Tensor → Out
  tuple : List (Option Tensor) → Out

-- The tensors of `out`.
unfoldable pub out_tensors : List Spec → Out → Result OutputError (List (Option Tensor))
out_tensors (spec ∷ []) (single value) = ok (value ∷ [])
out_tensors (spec ∷ []) (tuple values) = ok (none ∷ [])
out_tensors expected (single value) = err not_a_tuple
out_tensors expected (tuple values) =
    if length values == length expected then ok values else err not_a_tuple

unfoldable pub same_shape : List ℤ → List ℤ → Bool
same_shape [] [] = true
same_shape (a ∷ left) (b ∷ right) = same_int a b && same_shape left right
same_shape _ _ = false

-- The checks of a round on the descriptor of a managed tensor.
unfoldable pub accept_managed : List ℕ → List ℕ → Spec → Descriptor → Result OutputError Descriptor
accept_managed input_allocations output_allocations spec managed = do
  raise_if (not (same_shape managed.shape (spec.0)) || not (string_eq.beq managed.dtype (spec.1)))
      wrong_spec
  raise_if
      (member managed.allocation_id input_allocations
        || member managed.allocation_id output_allocations)
      aliased
  ok managed

-- The managed tensor that an object is. `inference_mode` is `torch.is_inference_mode_enabled()`.
unfoldable pub managed_of : Bool → Option Tensor → Result OutputError Descriptor
managed_of inference_mode value = do
  tensor ← or_raise value not_a_tensor
  raise_if (tensor.requires_grad) requires_grad
  raise_if (tensor.is_inference && not inference_mode) inference_tensor
  or_raise (tensor.managed) unmanaged

-- One round of the loop: the descriptor of the tensor that is taken.
unfoldable pub take_output :
    Bool → List ℕ → List ℕ → Option Tensor → Spec → Result OutputError Descriptor
take_output inference_mode input_allocations output_allocations value spec = do
  managed ← managed_of inference_mode value
  accept_managed input_allocations output_allocations spec managed

-- The loop. There is a tensor for each spec, as `out_tensors` has seen to; a specification without
-- a tensor, or the reverse, would be the `ValueError` of `zip(..., strict=True)`.
unfoldable pub take_outputs :
    Bool → List ℕ → List ℕ → List (Option Tensor) → List Spec → Result OutputError (List Descriptor)
take_outputs inference_mode input_allocations output_allocations [] [] = ok []
take_outputs inference_mode input_allocations output_allocations (value ∷ values) (spec ∷ specs) =
    do
      managed ← take_output inference_mode input_allocations output_allocations value spec
      rest ←
          take_outputs inference_mode input_allocations (managed.allocation_id ∷ output_allocations)
            values specs
      ok (managed ∷ rest)
take_outputs inference_mode input_allocations output_allocations _ _ = err not_a_tuple

-- `bind_reusable_outputs`
unfoldable pub bind_reusable_outputs :
    Bool → List Spec → List Descriptor → Out → Result OutputError (List Descriptor)
bind_reusable_outputs inference_mode expected inputs out = do
  tensors ← out_tensors expected out
  take_outputs inference_mode (map (λ (d : Descriptor). d.allocation_id) inputs) [] tensors expected
