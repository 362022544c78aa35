-- ===== src/Metadata/Validated.antt =====
-- What `validate_operation_metadata` has checked when it returns.
use wmfs.Common.{◌≡◌, ok, then-eq-ok, for_each}
use wmfs.Metadata.Model.{OperationMetadata}
use wmfs.Metadata.Validate.{
  validate_head, validate_scalar, validate_variables, validate_tensor_input, validate_plans,
  validate_operation_metadata,
}

pub validate_operation_metadata-eq-ok :
    (o : OperationMetadata)
    → validate_operation_metadata o ≡ ok tt
    → (for_each validate_scalar o.scalar_parameters ≡ ok tt)
      × (for_each (validate_tensor_input o) o.tensor_inputs ≡ ok tt)
      × (validate_plans o.tensor_outputs o.output_plans o ≡ ok tt)
unfolding validate_operation_metadata
validate_operation_metadata-eq-ok o h =
    let (head, h1) = then-eq-ok (validate_head o) _ h in
    let (scalars, h2) = then-eq-ok (for_each validate_scalar o.scalar_parameters) _ h1 in
    let (variables, h3) = then-eq-ok (validate_variables o.dtype_variables) _ h2 in
    let (tensors, plans) = then-eq-ok (for_each (validate_tensor_input o) o.tensor_inputs) _ h3 in
    (scalars, tensors, plans)
