-- ===== src/Metadata/Plugin.antt =====
-- packages/wmfs/wmfs/protocol/metadata.py: `validate_plugin_metadata` and `_validate_vjp`. The
-- fingerprint of the canonical document, a SHA-256 of its JSON, is a parameter.
use wmfs.Common.{
  ℕ, ◌+◌, Bool, not, ◌&&◌, ◌||◌, Option, some, none, List, [], ◌∷◌, map, ◌==◌, leb, ok, err, ◌>>=◌,
  ◌>>◌, raise_if, or_raise, for_each, any, length,
}
use wmfs.Common.Dict
use wmfs.Common.Dict.{Dict}
use wmfs.Common.Int.{ℤ, pos, is_negative, pos_part, same_int, integer_eq}
use wmfs.Common.Text.{text_eq}
use wmfs.Metadata.Model.{TensorParameter, ScalarParameter, Vjp, OperationMetadata, PluginMetadata}
use wmfs.Metadata.Words.{
  Checks, zero_operation_id, duplicate_ids, duplicate_names, unsupported_version, wrong_fingerprint,
  missing_vjp, nested_vjp, not_internal, vjp_not_read_only, no_cotangents, invalid_vjp, vjp_inputs,
  vjp_outputs, vjp_scalars, vjp_kinds, is_there, is_empty, same_word, has_duplicates,
}
use wmfs.Metadata.Validate.{is_kind, kind_at, validate_operation_metadata}

-- {item.operation_id: item for item in plugin.operations}
unfoldable pub operations_by_id :
    List OperationMetadata → Dict ℤ OperationMetadata → Dict ℤ OperationMetadata
operations_by_id [] ids = ids
operations_by_id (o ∷ os) ids = operations_by_id os (Dict.put o.operation_id o ids)

-- One round of the loop over the references.
unfoldable pub validate_indices : List ℤ → ℕ → Checks
validate_indices indices count =
    raise_if (has_duplicates indices || any (λ i. is_negative i || leb count (pos_part i)) indices)
      invalid_vjp

-- The loop over the scalar parameters of the target and those that are passed on to it. There are as
-- many of each, as has been checked.
unfoldable pub validate_kinds : List ScalarParameter → List ℤ → OperationMetadata → Checks
validate_kinds [] [] o = ok tt
validate_kinds (p ∷ ps) (i ∷ is) o = do
  raise_if (not (is_kind (kind_at o.scalar_parameters i) p.kind)) vjp_kinds
  validate_kinds ps is o
validate_kinds _ _ o = err vjp_kinds

unfoldable pub validate_target : OperationMetadata → Checks
validate_target target = do
  raise_if (is_there target.vjp) nested_vjp
  raise_if (not target.internal) not_internal
  raise_if (any (λ (p : TensorParameter). not (same_word p.access "readOnly")) target.tensor_inputs)
      vjp_not_read_only

unfoldable pub validate_references : OperationMetadata → Vjp → Checks
validate_references o vjp = do
  validate_indices vjp.saved_inputs (length o.tensor_inputs)
  validate_indices vjp.saved_outputs (length o.tensor_outputs)
  validate_indices vjp.output_cotangents (length o.tensor_outputs)
  validate_indices vjp.input_gradients (length o.tensor_inputs)
  validate_indices vjp.scalar_parameters (length o.scalar_parameters)

unfoldable pub validate_signature : OperationMetadata → Vjp → OperationMetadata → Checks
validate_signature o vjp target = do
  raise_if
      (not (
        length target.tensor_inputs
        == length vjp.saved_inputs + length vjp.saved_outputs + length vjp.output_cotangents))
      vjp_inputs
  raise_if (not (length target.tensor_outputs == length vjp.input_gradients)) vjp_outputs
  raise_if (not (length target.scalar_parameters == length vjp.scalar_parameters)) vjp_scalars
  validate_kinds target.scalar_parameters vjp.scalar_parameters o

-- The checks of `_validate_vjp` on a target. The target is another operation when it declares no VJP,
-- so `target is operation` adds nothing to the test after it.
unfoldable pub validate_pair : OperationMetadata → Vjp → OperationMetadata → Checks
validate_pair o vjp target = do
  validate_target target
  raise_if (is_empty vjp.output_cotangents || is_empty vjp.input_gradients) no_cotangents
  validate_references o vjp
  validate_signature o vjp target

-- `_validate_vjp`
unfoldable pub validate_vjp : Dict ℤ OperationMetadata → OperationMetadata → Option Vjp → Checks
validate_vjp operations o none = ok tt
validate_vjp operations o (some vjp) = do
  target ← or_raise (Dict.get vjp.operation_id operations) missing_vjp
  validate_pair o vjp target

unfoldable pub validate_operation : Dict ℤ OperationMetadata → OperationMetadata → Checks
validate_operation operations o = do validate_operation_metadata o; validate_vjp operations o o.vjp

unfoldable pub validate_ids : PluginMetadata → Checks
validate_ids plugin = do
  raise_if (any (λ (o : OperationMetadata). same_int o.operation_id (pos 0)) plugin.operations)
      zero_operation_id
  raise_if (has_duplicates (map (λ (o : OperationMetadata). o.operation_id) plugin.operations))
      duplicate_ids
  raise_if (has_duplicates (map (λ (o : OperationMetadata). o.name) plugin.operations))
      duplicate_names

module _ (metadata_fingerprint : PluginMetadata → ℕ) where
  -- `validate_plugin_metadata`
  unfoldable pub validate_plugin_metadata : PluginMetadata → Bool → Checks
  validate_plugin_metadata plugin validate_fingerprint = do
    validate_ids plugin
    for_each (validate_operation (operations_by_id plugin.operations [])) plugin.operations
    raise_if
        (not (same_int plugin.metadata_version (pos 1) || same_int plugin.metadata_version (pos 2)))
        unsupported_version
    raise_if (validate_fingerprint && not (plugin.fingerprint == metadata_fingerprint plugin))
        wrong_fingerprint
