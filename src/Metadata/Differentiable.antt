-- ===== src/Metadata/Differentiable.antt =====
-- The vector-Jacobian products of a plugin whose metadata has been validated.
use wmfs.Common.{
  ℕ, ◌+◌, ◌<◌, Bool, true, false, not, ◌||◌, Option, some, none, List, [], ◌∷◌, ◌==◌, leb, ◌≡◌,
  refl, ap, sym, ◌∙◌, ◌⊎◌, inl, inr, arith, ok, raise_if, or_raise, or_raise-eq-ok, for_each,
  for_each-eq-ok, first_ok, then-eq-ok, raise_if-pass, length, All, any, any-false, if-cases,
}
use wmfs.Common.Dict
use wmfs.Common.Dict.{Dict, get-put}
use wmfs.Common.Int.{ℤ, pos, negsuc, is_negative, pos_part, same_int, same_int-eq, integer_eq}
use wmfs.Metadata.Model.{Vjp, OperationMetadata, PluginMetadata}
use wmfs.Metadata.Words.{
  missing_vjp, nested_vjp, not_internal, no_cotangents, vjp_inputs, vjp_outputs, vjp_scalars,
  is_there, is_empty, has_duplicates,
}
use wmfs.Metadata.Validate.{validate_operation_metadata}
use wmfs.Metadata.Plugin.{
  operations_by_id, validate_indices, validate_target, validate_references, validate_signature,
  validate_pair, validate_vjp, validate_operation, validate_ids, validate_plugin_metadata,
}

-- Distinct indices, each of one of `count` items.
abbrev pub AreIndices : List ℤ → ℕ → Type 0
AreIndices indices count =
    (has_duplicates indices ≡ false)
    × All (λ i. (is_negative i ≡ false) × (pos_part i < count)) indices

abbrev pub IsAmong : OperationMetadata → List OperationMetadata → Type 0
IsAmong a [] = ⊥
IsAmong a (x ∷ xs) = (a ≡ x) ⊎ IsAmong a xs

-- The target can stand in for the VJP of the operation: it is internal, declares no VJP itself, takes
-- what the plan saves and the cotangents, gives the gradients, and every reference of the plan is to a
-- parameter of the operation.
abbrev pub IsVjpOf : OperationMetadata → Vjp → OperationMetadata → Type 0
IsVjpOf o vjp target =
    (target.vjp ≡ none)
    × (target.internal ≡ true)
    × (length target.tensor_inputs
        ≡ length vjp.saved_inputs + length vjp.saved_outputs + length vjp.output_cotangents)
    × (length target.tensor_outputs ≡ length vjp.input_gradients)
    × (length target.scalar_parameters ≡ length vjp.scalar_parameters)
    × AreIndices vjp.saved_inputs (length o.tensor_inputs)
    × AreIndices vjp.saved_outputs (length o.tensor_outputs)
    × AreIndices vjp.output_cotangents (length o.tensor_outputs)
    × AreIndices vjp.input_gradients (length o.tensor_inputs)
    × AreIndices vjp.scalar_parameters (length o.scalar_parameters)

in_range :
    (count : ℕ) (indices : List ℤ)
    → All (λ i. (is_negative i || leb count (pos_part i)) ≡ false) indices
    → All (λ i. (is_negative i ≡ false) × (pos_part i < count)) indices
in_range count [] h = tt
in_range count (pos n ∷ indices) h = ((refl, ground (arith, h.0)), in_range count indices h.1)
in_range count (negsuc n ∷ indices) h = absurd (cc (h.0))

validate_indices-AreIndices :
    (indices : List ℤ) (count : ℕ)
    → validate_indices indices count ≡ ok tt
    → AreIndices indices count
unfolding validate_indices
validate_indices-AreIndices indices count h =
    let passed : has_duplicates indices
          || any (λ i. is_negative i || leb count (pos_part i)) indices
        ≡ false =
      raise_if-pass _ _ h in
    (ground (arith, passed), in_range count indices (any-false _ indices (ground (arith, passed))))

is_there-none {ℓ} : {A : Type ℓ} (o : Option A) → is_there o ≡ false → o ≡ none
is_there-none none h = refl
is_there-none (some a) h = cc h

validate_target-eq-ok :
    (target : OperationMetadata)
    → validate_target target ≡ ok tt
    → (target.vjp ≡ none) × (target.internal ≡ true)
unfolding validate_target
validate_target-eq-ok target h =
    let (plain, h1) = then-eq-ok (raise_if (is_there target.vjp) nested_vjp) _ h in
    let (internal, h2) = then-eq-ok (raise_if (not target.internal) not_internal) _ h1 in
    (is_there-none target.vjp (raise_if-pass _ _ plain), ground (arith, raise_if-pass _ _ internal))

validate_signature-eq-ok :
    (o : OperationMetadata) (vjp : Vjp) (target : OperationMetadata)
    → validate_signature o vjp target ≡ ok tt
    → (length target.tensor_inputs
        ≡ length vjp.saved_inputs + length vjp.saved_outputs + length vjp.output_cotangents)
      × (length target.tensor_outputs ≡ length vjp.input_gradients)
      × (length target.scalar_parameters ≡ length vjp.scalar_parameters)
unfolding validate_signature
validate_signature-eq-ok o vjp target h =
    let (inputs, h1) =
      then-eq-ok
        (raise_if
          (not (
            length target.tensor_inputs
            == length vjp.saved_inputs + length vjp.saved_outputs + length vjp.output_cotangents))
          vjp_inputs)
        _ h in
    let (outputs, h2) =
      then-eq-ok
        (raise_if (not (length target.tensor_outputs == length vjp.input_gradients)) vjp_outputs) _
        h1 in
    let (scalars, h3) =
      then-eq-ok
        (raise_if (not (length target.scalar_parameters == length vjp.scalar_parameters))
          vjp_scalars)
        _ h2 in
    (
      ground (arith, raise_if-pass _ _ inputs),
      ground (arith, raise_if-pass _ _ outputs),
      ground (arith, raise_if-pass _ _ scalars),
    )

validate_pair-IsVjpOf :
    (o : OperationMetadata) (vjp : Vjp) (target : OperationMetadata)
    → validate_pair o vjp target ≡ ok tt
    → IsVjpOf o vjp target
unfolding validate_pair validate_references
validate_pair-IsVjpOf o vjp target h =
    let (target_ok, h1) = then-eq-ok (validate_target target) _ h in
    let (some_given, h2) =
      then-eq-ok
        (raise_if (is_empty vjp.output_cotangents || is_empty vjp.input_gradients) no_cotangents) _
        h1 in
    let (references, signature) = then-eq-ok (validate_references o vjp) _ h2 in
    let (r1, r1') = then-eq-ok (validate_indices vjp.saved_inputs _) _ references in
    let (r2, r2') = then-eq-ok (validate_indices vjp.saved_outputs _) _ r1' in
    let (r3, r3') = then-eq-ok (validate_indices vjp.output_cotangents _) _ r2' in
    let (r4, r5) = then-eq-ok (validate_indices vjp.input_gradients _) _ r3' in
    let first = validate_target-eq-ok target target_ok in
    let sizes = validate_signature-eq-ok o vjp target signature in
    (
      first.0,
      first.1,
      sizes.0,
      sizes.1,
      sizes.2,
      validate_indices-AreIndices vjp.saved_inputs _ r1,
      validate_indices-AreIndices vjp.saved_outputs _ r2,
      validate_indices-AreIndices vjp.output_cotangents _ r3,
      validate_indices-AreIndices vjp.input_gradients _ r4,
      validate_indices-AreIndices vjp.scalar_parameters _ r5,
    )

-- What is found by an ID is an operation of that ID.
operations_by_id-IsAmong :
    (os : List OperationMetadata) (ids : Dict ℤ OperationMetadata) (i : ℤ) (t : OperationMetadata)
    → Dict.get i (operations_by_id os ids) ≡ some t
    → (IsAmong t os × (t.operation_id ≡ i)) ⊎ (Dict.get i ids ≡ some t)
unfolding operations_by_id
operations_by_id-IsAmong [] ids i t h = inr h
operations_by_id-IsAmong (o ∷ os) ids i t h =
    elim (operations_by_id-IsAmong os (Dict.put o.operation_id o ids) i t h) [
      | inl (among, id) ↦ inl (inr among, id)
      | inr got ↦
          elim (if-cases (same_int o.operation_id i) (some o) (Dict.get i ids)
            (sym (get-put o.operation_id i o ids) ∙ got)) [
              | inl (same, e) ↦
                  let found : t ≡ o = cc e in
                  inl (
                    inl found,
                    ap (λ (m : OperationMetadata). m.operation_id) found
                        ∙ same_int-eq o.operation_id i same,
                  )
              | inr (_, e) ↦ inr e
            ]
    ]

-- The VJP that an operation declares, where it declares one, is that of an operation of the plugin.
abbrev pub HasVjp : List OperationMetadata → OperationMetadata → Option Vjp → Type 0
HasVjp os o none = Unit
HasVjp os o (some vjp) =
    (target : OperationMetadata) × IsAmong target os
    × (target.operation_id ≡ vjp.operation_id)
    × IsVjpOf o vjp target

validate_vjp-HasVjp :
    (os : List OperationMetadata) (o : OperationMetadata) (vjp : Option Vjp)
    → validate_vjp (operations_by_id os []) o vjp ≡ ok tt
    → HasVjp os o vjp
unfolding validate_vjp Dict.get
validate_vjp-HasVjp os o none h = tt
validate_vjp-HasVjp os o (some vjp) h =
    let (target, found, h1) =
      first_ok (or_raise (Dict.get vjp.operation_id (operations_by_id os [])) missing_vjp) _ h in
    elim (operations_by_id-IsAmong os [] vjp.operation_id target (or_raise-eq-ok _ _ found)) [
      | inl (among, id) ↦ (target, among, id, validate_pair-IsVjpOf o vjp target h1)
      | inr got ↦ absurd (cc got)
    ]

All-HasVjp :
    (os rest : List OperationMetadata)
    → All (λ o. validate_operation (operations_by_id os []) o ≡ ok tt) rest
    → All
        (λ (o : OperationMetadata). HasVjp os o o.vjp × (validate_operation_metadata o ≡ ok tt))
        rest
unfolding validate_operation
All-HasVjp os [] h = tt
All-HasVjp os (o ∷ rest) h =
    let (valid, vjp) = then-eq-ok (validate_operation_metadata o) _ (h.0) in
    ((validate_vjp-HasVjp os o o.vjp vjp, valid), All-HasVjp os rest h.1)

-- Where `validate_plugin_metadata` accepts a plugin, each of its operations is accepted by
-- `validate_operation_metadata`, and a VJP that an operation declares is that of an operation of the
-- plugin with its ID: it is internal, declares no VJP itself, takes as many tensors as are saved and
-- given as cotangents, gives as many as there are gradients, takes as many scalars as are passed on,
-- and the references of the plan are distinct and in range.
pub validate_plugin_metadata-HasVjp :
    (metadata_fingerprint : PluginMetadata → ℕ) (plugin : PluginMetadata)
    (validate_fingerprint : Bool)
    → validate_plugin_metadata metadata_fingerprint plugin validate_fingerprint ≡ ok tt
    → All
        (λ (o : OperationMetadata).
          HasVjp plugin.operations o o.vjp × (validate_operation_metadata o ≡ ok tt))
        plugin.operations
unfolding validate_plugin_metadata
validate_plugin_metadata-HasVjp metadata_fingerprint plugin validate_fingerprint h =
    let (ids, h1) = then-eq-ok (validate_ids plugin) _ h in
    let (each, h2) =
      then-eq-ok
        (for_each (validate_operation (operations_by_id plugin.operations [])) plugin.operations) _
        h1 in
    All-HasVjp plugin.operations plugin.operations (for_each-eq-ok _ plugin.operations each)
