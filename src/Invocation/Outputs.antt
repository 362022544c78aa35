-- ===== src/Invocation/Outputs.antt =====
-- `plan_outputs`: what holds of the outputs of a call when they have been planned.
use Prim.Native.String.{String}
use mathlib.Core.Path.{subst}
use wmfs.Common.{
  ℕ, Bool, false, Option, some, none, List, ◌≡◌, refl, ap, sym, ◌∙◌, nat_eq, ok, raise_if, ok_inj,
  first_ok, then-eq-ok, raise_if-pass, collect_all-All, length, get_elem?, All,
}
use wmfs.Metadata.Model.{Scalar, OperationMetadata, OutputPlan, KnownOutput}
use wmfs.Metadata.Words.{has_duplicates}
use wmfs.Outputs.Model.{
  Descriptor, Spec, is_bad_shape, invalid_shape, evaluate_shape, evaluate_dtype, evaluate_known,
  evaluate_plan, evaluate_outputs, complete_outputs,
}
use wmfs.Outputs.Completion.{IsShape, IsShaped, IsShape-is_bad_shape, complete_outputs-IsPlan}
use wmfs.Outputs.Reuse.{Out, bind_reusable_outputs}
use wmfs.Outputs.Aliasing.{AreOf, IsApart, allocations, bind_reusable_outputs-IsApart}
use wmfs.Invocation.Model.{BoundInvocation, OutputPlanned, reuse_outputs, plan_outputs}

module _ (result_type : Descriptor → Scalar → String) (o : OperationMetadata)
    (inputs : List Descriptor) (scalars : List Scalar) where
  evaluate_known-IsShape :
      (known : KnownOutput) {spec : Spec}
      → evaluate_known result_type known o inputs scalars ≡ ok spec
      → IsShape (spec.0)
  unfolding evaluate_known
  evaluate_known-IsShape known h =
      let (shape, _, h1) = first_ok (evaluate_shape known.shape inputs scalars) _ h in
      let (good, h2) = then-eq-ok (raise_if (is_bad_shape shape) invalid_shape) _ h1 in
      let (dtype, _, h3) =
        first_ok (evaluate_dtype result_type known.dtype o inputs scalars) _ h2 in
      subst (λ (s : Spec). IsShape (s.0)) (ok_inj h3)
        (IsShape-is_bad_shape shape (raise_if-pass _ _ good))

  evaluate_plan-IsShaped :
      (known : Option KnownOutput) {result : Option Spec}
      → evaluate_plan result_type o inputs scalars known ≡ ok result
      → IsShaped result
  unfolding evaluate_plan
  evaluate_plan-IsShaped none h = subst IsShaped (ok_inj h) tt
  evaluate_plan-IsShaped (some known) h =
      let (spec, evaluated, h1) =
        first_ok (evaluate_known result_type known o inputs scalars) _ h in
      subst IsShaped (ok_inj h1) (evaluate_known-IsShape known evaluated)

  evaluate_outputs-IsShaped :
      {known : List (Option Spec)}
      → evaluate_outputs result_type o inputs scalars ≡ ok known
      → (length known ≡ length o.output_plans) × All IsShaped known
  unfolding evaluate_outputs
  evaluate_outputs-IsShaped h =
      collect_all-All IsShaped _ o.output_plans
        (λ (plan : OutputPlan) result e. evaluate_plan-IsShaped plan.known e) h

-- The tensors that are reused have the planned shapes and dtypes, and alias neither an input nor each
-- other.
abbrev pub AreReused : List Spec → List Descriptor → Option (List Descriptor) → Type 0
AreReused specs inputs none = Unit
AreReused specs inputs (some ds) =
    AreOf specs ds
    × All (λ (d : Descriptor). IsApart d.allocation_id (allocations inputs)) ds
    × (has_duplicates (allocations ds) ≡ false)

abbrev pub IsPlanned :
    OperationMetadata → List Descriptor → List (ℕ × Spec) → OutputPlanned → Type 0
IsPlanned o inputs dynamic plan =
    (length plan.specs ≡ length o.output_plans)
    × All (λ (spec : Spec). IsShape (spec.0)) plan.specs
    × All (λ (p : ℕ × Spec). get_elem? plan.specs (p.0) ≡ some (p.1)) dynamic
    × AreReused plan.specs inputs plan.reusable_outputs

reuse_outputs-eq-ok :
    (mode : Bool) (inputs : List Descriptor) (specs : List Spec) (out : Option Out)
    {plan : OutputPlanned}
    → reuse_outputs mode inputs specs out ≡ ok plan
    → (plan.specs ≡ specs) × AreReused plan.specs inputs plan.reusable_outputs
unfolding reuse_outputs
reuse_outputs-eq-ok mode inputs specs none h =
    subst (λ (p : OutputPlanned). (p.specs ≡ specs) × AreReused p.specs inputs p.reusable_outputs)
      (ok_inj h) (refl, tt)
reuse_outputs-eq-ok mode inputs specs (some out) h =
    let (ds, bound, h1) = first_ok (bind_reusable_outputs mode specs inputs out) _ h in
    subst (λ (p : OutputPlanned). (p.specs ≡ specs) × AreReused p.specs inputs p.reusable_outputs)
      (ok_inj h1) (refl, bind_reusable_outputs-IsApart mode specs inputs out bound)

-- When `plan_outputs` returns, there is a specification for each output of the operation, with one to
-- sixteen dimensions that are all positive; each output that the worker planned has the specification
-- that the worker gave; and the tensors that are reused have the planned shapes and dtypes, lie in no
-- allocation of an input, and lie in different allocations.
pub plan_outputs-IsPlanned :
    (result_type : Descriptor → Scalar → String) (mode : Bool) (invocation : BoundInvocation)
    (inputs : List Descriptor) (dynamic : List (ℕ × Spec)) {plan : OutputPlanned}
    → plan_outputs result_type mode invocation inputs dynamic ≡ ok plan
    → IsPlanned invocation.operation inputs dynamic plan
unfolding plan_outputs
plan_outputs-IsPlanned result_type mode invocation inputs dynamic {plan} h =
    let (known, evaluated, h1) =
      first_ok (evaluate_outputs result_type invocation.operation inputs invocation.scalars) _ h in
    let (specs, completed, h2) = first_ok (complete_outputs known dynamic) _ h1 in
    let (count, shapes) =
      evaluate_outputs-IsShaped result_type invocation.operation inputs invocation.scalars
        evaluated in
    let done = complete_outputs-IsPlan known dynamic shapes completed in
    let (same, reused) = reuse_outputs-eq-ok mode inputs specs invocation.out h2 in
    let back = sym same in
    (
      ap length same ∙ done.0 ∙ count,
      subst (All (λ (spec : Spec). IsShape (spec.0))) back done.3,
      subst (λ ss. All (λ (p : ℕ × Spec). get_elem? ss (p.0) ≡ some (p.1)) dynamic) back done.2,
      reused,
    )
