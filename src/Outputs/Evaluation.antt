-- ===== src/Outputs/Evaluation.antt =====
-- `evaluate_outputs` on metadata that `validate_operation_metadata` has accepted.
use Prim.Native.String.{String}
use wmfs.Common.{
  zero, suc, Bool, true, false, Option, some, none, List, [], ◌∷◌, ◌≡◌, refl, ap, sym, ◌∙◌, inl,
  inr, arith, Result, ok, err, ◌>>=◌, ◌>>◌, raise_if, collect_all, then-eq-ok, raise_if-pass,
  length,
}
use wmfs.Common.Int.{ℤ, pos, negsuc}
use wmfs.Common.Utf8.{Text}
use wmfs.Common.Text.{text_eq}
use wmfs.Metadata.Model.{
  Scalar, boolean, float64, int64, text, other, TensorParameter, ScalarParameter, DtypeExpression,
  fixed, input, variable, promote_tensor_scalar, unknown_dtype, ShapeExpression,
  same_shape_as_input, dimensions, unknown_shape, KnownOutput, OutputPlan, OperationMetadata,
}
use wmfs.Metadata.Validate.{
  validate_index, validate_shape, validate_dtype, validate_known_output, validate_known,
  validate_plans, validate_operation_metadata, is_kind, kind_at,
}
use wmfs.Metadata.Validated.{validate_operation_metadata-eq-ok}
use wmfs.Outputs.Model.{
  OutputError, invalid_shape, Descriptor, item, evaluate_shape, evaluate_dtype, evaluate_known,
  evaluate_plan, evaluate_outputs, bound_dtype, is_named, is_text, is_bad_shape, Spec,
}
use wmfs.Outputs.Safety.{
  IsSafe, IsSafe-then, IsSafe-found, IsSafe-if, item-validate_index, operands-IsSafe,
}

-- The kind of parameter that a scalar is a value for.
abbrev pub scalar_kind : Scalar → String
scalar_kind (boolean b) = "boolean"
scalar_kind (float64 bits) = "float64"
scalar_kind (int64 n) = "int64"
scalar_kind (text t) = "text"
scalar_kind other = "other"

-- There is a scalar of its kind for each parameter.
abbrev pub HaveKinds : List Scalar → List ScalarParameter → Type 0
HaveKinds [] [] = Unit
HaveKinds (s ∷ ss) (p ∷ ps) = (p.kind ≡ scalar_kind s) × HaveKinds ss ps
HaveKinds _ _ = ⊥

pub HaveKinds-length :
    (ss : List Scalar) (ps : List ScalarParameter) → HaveKinds ss ps → length ss ≡ length ps
HaveKinds-length [] [] h = refl
HaveKinds-length (s ∷ ss) (p ∷ ps) h = ap suc (HaveKinds-length ss ps h.1)
HaveKinds-length [] (p ∷ ps) h = absurd h
HaveKinds-length (s ∷ ss) [] h = absurd h

kind_at-HaveKinds :
    (ss : List Scalar) (ps : List ScalarParameter) (i : ℤ) (s : Scalar)
    → HaveKinds ss ps
    → validate_index i (length ps) ≡ ok tt
    → item ss i ≡ some s
    → kind_at ps i ≡ some (scalar_kind s)
unfolding item validate_index
kind_at-HaveKinds [] [] (pos n) s h v e = absurd (ground arith)
kind_at-HaveKinds (t ∷ ss) (p ∷ ps) (pos zero) s h v e = cc (h.0, e)
kind_at-HaveKinds (t ∷ ss) (p ∷ ps) (pos (suc n)) s h v e =
    kind_at-HaveKinds ss ps (pos n) s h.1 (ground arith) e
kind_at-HaveKinds [] (p ∷ ps) (pos n) s h v e = absurd h
kind_at-HaveKinds (t ∷ ss) [] (pos n) s h v e = absurd h
kind_at-HaveKinds ss ps (negsuc n) s h v e = absurd (cc v)

is_text-scalar_kind :
    (s : Scalar) → is_kind (some (scalar_kind s)) "text" ≡ false → is_text s ≡ false
is_text-scalar_kind (boolean b) h = refl
is_text-scalar_kind (float64 bits) h = refl
is_text-scalar_kind (int64 n) h = refl
is_text-scalar_kind (text t) h = absurd (cc h)
is_text-scalar_kind other h = refl

IsSafe-bound_dtype :
    (name : Text) (ps : List TensorParameter) (ds : List Descriptor)
    → length ds ≡ length ps
    → IsSafe (bound_dtype name ps ds)
unfolding bound_dtype
IsSafe-bound_dtype name [] ds h = inr (inr refl)
IsSafe-bound_dtype name (p ∷ ps) [] h = absurd (ground arith)
IsSafe-bound_dtype name (p ∷ ps) (d ∷ ds) h =
    IsSafe-if (is_named name p.dtype_variable) _ _ tt (IsSafe-bound_dtype name ps ds (ground arith))

IsSafe-shape :
    (bad : Bool) (shape : List ℤ) (m : Result OutputError String)
    → IsSafe m
    → IsSafe {A = Spec} (raise_if bad invalid_shape >> (m >>= λ dtype. ok (shape, dtype)))
IsSafe-shape true shape m h = inr (inl refl)
IsSafe-shape false shape (ok dtype) h = tt
IsSafe-shape false shape (err e) h = h

module _ (result_type : Descriptor → Scalar → String) (o : OperationMetadata)
    (inputs : List Descriptor) (scalars : List Scalar)
    (inputs_bound : length inputs ≡ length o.tensor_inputs)
    (kinds : HaveKinds scalars o.scalar_parameters) where
  shape-IsSafe :
      (e : ShapeExpression) → validate_shape e o ≡ ok tt → IsSafe (evaluate_shape e inputs scalars)
  unfolding validate_shape evaluate_shape
  shape-IsSafe (same_shape_as_input i) h =
      IsSafe-found (item inputs i) _ _ (item-validate_index inputs i _ inputs_bound h) λ d e. tt
  shape-IsSafe (dimensions es) h =
      operands-IsSafe o inputs scalars inputs_bound
        (HaveKinds-length scalars o.scalar_parameters kinds) es 0 (then-eq-ok _ _ h).1
  shape-IsSafe unknown_shape h = absurd (cc h)

  dtype-IsSafe :
      (e : DtypeExpression)
      → validate_dtype e o ≡ ok tt
      → IsSafe (evaluate_dtype result_type e o inputs scalars)
  unfolding validate_dtype evaluate_dtype
  dtype-IsSafe (fixed dtype) h = tt
  dtype-IsSafe (input i) h =
      IsSafe-found (item inputs i) _ _ (item-validate_index inputs i _ inputs_bound h) λ d e. tt
  dtype-IsSafe (variable name) h = IsSafe-bound_dtype name o.tensor_inputs inputs inputs_bound
  dtype-IsSafe (promote_tensor_scalar i j) h =
      let (tensor_there, h1) = then-eq-ok _ _ h in
      let (scalar_there, h2) = then-eq-ok _ _ h1 in
      IsSafe-found (item scalars j) _ _
        (item-validate_index scalars j _ (HaveKinds-length scalars o.scalar_parameters kinds)
          scalar_there)
        λ s found.
          let named : kind_at o.scalar_parameters j ≡ some (scalar_kind s) =
            kind_at-HaveKinds scalars o.scalar_parameters j s kinds scalar_there found in
          let plain : is_text s ≡ false =
            is_text-scalar_kind s (ap (λ k. is_kind k "text") (sym named) ∙ raise_if-pass _ _ h2) in
          rw plain (
            IsSafe-found (item inputs i) _ _
              (item-validate_index inputs i _ inputs_bound tensor_there) λ d e. tt)
  dtype-IsSafe unknown_dtype h = absurd (cc h)

  known-IsSafe :
      (known : KnownOutput)
      → validate_known_output known o ≡ ok tt
      → IsSafe (evaluate_known result_type known o inputs scalars)
  unfolding validate_known_output evaluate_known
  known-IsSafe known h =
      let (shaped, typed) = then-eq-ok _ _ h in
      IsSafe-then _ _ (shape-IsSafe known.shape shaped)
        λ shape e. IsSafe-shape (is_bad_shape shape) shape _ (dtype-IsSafe known.dtype typed)

  plan-IsSafe :
      (known : Option KnownOutput)
      → validate_known known o ≡ ok tt
      → IsSafe (evaluate_plan result_type o inputs scalars known)
  unfolding evaluate_plan
  plan-IsSafe none h = tt
  plan-IsSafe (some known) h = IsSafe-then _ _ (known-IsSafe known h) λ spec e. tt

  plans-IsSafe :
      (ps : List TensorParameter) (plans : List OutputPlan)
      → validate_plans ps plans o ≡ ok tt
      → IsSafe (
          collect_all
            (λ (plan : OutputPlan). evaluate_plan result_type o inputs scalars plan.known)
            plans)
  unfolding validate_plans
  plans-IsSafe [] [] h = tt
  plans-IsSafe [] (plan ∷ plans) h = absurd (cc h)
  plans-IsSafe (p ∷ ps) [] h = absurd (cc h)
  plans-IsSafe (p ∷ ps) (plan ∷ plans) h =
      let (named, h1) = then-eq-ok _ _ h in
      let (first, rest) = then-eq-ok _ _ h1 in
      IsSafe-then _ _ (plan-IsSafe plan.known first)
        λ spec e. IsSafe-then _ _ (plans-IsSafe ps plans rest) λ specs e. tt

-- Where `validate_operation_metadata` accepts an operation, there is an input for each of its tensor
-- inputs and a scalar of its kind for each of its scalar parameters, `evaluate_outputs` returns or
-- raises one of three errors: an input lacks an axis that is asked for, a shape is out of range, or a
-- dtype variable is one that no input has. No index is out of range, no expression is malformed, no
-- minimum is empty and no text is promoted.
pub evaluate_outputs-IsSafe :
    (result_type : Descriptor → Scalar → String) (o : OperationMetadata) (inputs : List Descriptor)
    (scalars : List Scalar)
    → validate_operation_metadata o ≡ ok tt
    → length inputs ≡ length o.tensor_inputs
    → HaveKinds scalars o.scalar_parameters
    → IsSafe (evaluate_outputs result_type o inputs scalars)
unfolding evaluate_outputs
evaluate_outputs-IsSafe result_type o inputs scalars h inputs_bound kinds =
    plans-IsSafe result_type o inputs scalars inputs_bound kinds o.tensor_outputs o.output_plans
      (validate_operation_metadata-eq-ok o h).2
