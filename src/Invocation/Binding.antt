-- ===== src/Invocation/Binding.antt =====
-- What the arguments of a call are when they have been bound.
use Prim.Native.String.{String}
use mathlib.Core.Path.{subst}
use wmfs.Common.{
  ℕ, true, not, ◌||◌, Option, some, none, List, [], ◌∷◌, ◌≡◌, sym, ◌∙◌, inl, inr, arith, ok,
  raise_if, for_each-eq-ok, ok_inj, first_ok, then-eq-ok, raise_if-pass, All, if-cases, string_eq,
}
use wmfs.Common.Dict.{Dict}
use wmfs.Common.Int.{ℤ}
use wmfs.Common.Utf8.{Text}
use wmfs.Metadata.Model.{Scalar, ScalarParameter, OperationMetadata}
use wmfs.Metadata.Words.{same_word, is_there, is_empty, invalid_enum}
use wmfs.Metadata.Validate.{
  validate_default, validate_enum, validate_scalar, validate_operation_metadata,
}
use wmfs.Metadata.Validated.{validate_operation_metadata-eq-ok}
use wmfs.Outputs.Evaluation.{scalar_kind, HaveKinds}
use wmfs.Invocation.Arguments.{
  as_boolean, as_integer, as_text, as_float, coerce_enum, coerce_kind, coerce_scalar, keyword_value,
  bind_all, bind_scalars, Argument, values_of, unexpected,
}

as_boolean-kind : (v : Scalar) {c : Scalar} → as_boolean v ≡ ok c → scalar_kind c ≡ "boolean"
as_boolean-kind v h = ground arith

as_float-kind :
    (to_float : ℤ → Option ℕ) (v : Scalar) {c : Scalar}
    → as_float to_float v ≡ ok c
    → scalar_kind c ≡ "float64"
as_float-kind to_float v h = ground arith

coerce_enum-kind :
    (values : List Text) (v : Scalar) {c : Scalar}
    → coerce_enum values v ≡ ok c
    → scalar_kind c ≡ "int64"
unfolding coerce_enum
coerce_enum-kind values v h = ground arith

as_integer-kind : (v : Scalar) {c : Scalar} → as_integer v ≡ ok c → scalar_kind c ≡ "int64"
as_integer-kind v h = ground arith

as_text-kind : (v : Scalar) {c : Scalar} → as_text v ≡ ok c → scalar_kind c ≡ "text"
as_text-kind v h = ground arith

same_word-eq : (a b : String) → same_word a b ≡ true → a ≡ b
same_word-eq a b h = (string_eq.beq_iff a b).0 h

coerce_kind-kind :
    (to_float : ℤ → Option ℕ) (kind : String) (v : Scalar) {c : Scalar}
    → coerce_kind to_float kind v ≡ ok c
    → kind ≡ scalar_kind c
unfolding coerce_kind
coerce_kind-kind to_float kind v h = elim (if-cases (same_word kind "boolean") _ _ h) [
  | inl (is, got) ↦ same_word-eq kind "boolean" is ∙ sym (as_boolean-kind v got)
  | inr (_, h1) ↦ elim (if-cases (same_word kind "float64") _ _ h1) [
    | inl (is, got) ↦ same_word-eq kind "float64" is ∙ sym (as_float-kind to_float v got)
    | inr (_, h2) ↦ elim (if-cases (same_word kind "int64") _ _ h2) [
      | inl (is, got) ↦ same_word-eq kind "int64" is ∙ sym (as_integer-kind v got)
      | inr (_, h3) ↦ elim (if-cases (same_word kind "text") _ _ h3) [
        | inl (is, got) ↦ same_word-eq kind "text" is ∙ sym (as_text-kind v got)
        | inr (_, h4) ↦ absurd (cc h4)
      ]
    ]
  ]
]

validate_enum-kind :
    (name : Option Text) (p : ScalarParameter)
    → validate_enum name p ≡ ok tt
    → is_there name ≡ true
    → p.kind ≡ "int64"
unfolding validate_enum
validate_enum-kind none p h there = absurd (cc there)
validate_enum-kind (some name) p h there =
    let (kinds, _) =
      then-eq-ok (raise_if (not (same_word p.kind "int64") || is_empty p.enum_values) invalid_enum)
        _ h in
    same_word-eq p.kind "int64" (ground (arith, raise_if-pass _ _ kinds))

coerce_scalar-kind :
    (to_float : ℤ → Option ℕ) (p : ScalarParameter) (v : Scalar) {c : Scalar}
    → validate_scalar p ≡ ok tt
    → coerce_scalar to_float p v ≡ ok c
    → p.kind ≡ scalar_kind c
unfolding validate_scalar coerce_scalar
coerce_scalar-kind to_float p v valid h = elim (if-cases (is_there p.enum_name) _ _ h) [
  | inl (there, got) ↦
      validate_enum-kind p.enum_name p (then-eq-ok (validate_default p) _ valid).1 there
      ∙ sym (coerce_enum-kind p.enum_values v got)
  | inr (_, got) ↦ coerce_kind-kind to_float p.kind v got
]

-- The loop of `bind_scalars` gives a value of its kind to each parameter.
bind_all-HaveKinds :
    (to_float : ℤ → Option ℕ) (ps : List ScalarParameter) (positional : List Scalar)
    (remaining : Dict Text Scalar) {result : List Scalar × Dict Text Scalar}
    → All (λ p. validate_scalar p ≡ ok tt) ps
    → bind_all to_float ps positional remaining ≡ ok result
    → HaveKinds (result.0) ps
unfolding bind_all
bind_all-HaveKinds to_float [] positional remaining valid h =
    subst (λ r. HaveKinds (r.0) []) (ok_inj h) tt
bind_all-HaveKinds to_float (p ∷ ps) [] remaining valid h =
    let (chosen, _, h1) = first_ok (keyword_value p remaining) _ h in
    let (c, coerced, h2) = first_ok (coerce_scalar to_float p (chosen.0)) _ h1 in
    let (rest, bound, h3) = first_ok (bind_all to_float ps [] (chosen.1)) _ h2 in
    let kinds : HaveKinds (c ∷ rest.0) (p ∷ ps) = (
      coerce_scalar-kind to_float p (chosen.0) valid.0 coerced,
      bind_all-HaveKinds to_float ps [] (chosen.1) valid.1 bound,
    ) in
    subst (λ r. HaveKinds (r.0) (p ∷ ps)) (ok_inj h3) kinds
bind_all-HaveKinds to_float (p ∷ ps) (v ∷ positional) remaining valid h =
    let (once, h1) = then-eq-ok _ _ h in
    let (c, coerced, h2) = first_ok (coerce_scalar to_float p v) _ h1 in
    let (rest, bound, h3) = first_ok (bind_all to_float ps positional remaining) _ h2 in
    let kinds : HaveKinds (c ∷ rest.0) (p ∷ ps) = (
      coerce_scalar-kind to_float p v valid.0 coerced,
      bind_all-HaveKinds to_float ps positional remaining valid.1 bound,
    ) in
    subst (λ r. HaveKinds (r.0) (p ∷ ps)) (ok_inj h3) kinds

pub bind_scalars-HaveKinds :
    (to_float : ℤ → Option ℕ) (o : OperationMetadata) (args : List Argument)
    (kwargs : Dict Text Scalar) {scalars : List Scalar}
    → validate_operation_metadata o ≡ ok tt
    → bind_scalars to_float o args kwargs ≡ ok scalars
    → HaveKinds scalars o.scalar_parameters
unfolding bind_scalars
bind_scalars-HaveKinds to_float o args kwargs valid h =
    let (few, h1) = then-eq-ok _ _ h in
    let (bound, found, h2) =
      first_ok (bind_all to_float o.scalar_parameters (values_of args) kwargs) _ h1 in
    let (empty, h3) = then-eq-ok (raise_if (not (is_empty (bound.1))) unexpected) _ h2 in
    subst (λ ss. HaveKinds ss o.scalar_parameters) (ok_inj h3)
      (bind_all-HaveKinds to_float o.scalar_parameters (values_of args) kwargs
        (for_each-eq-ok validate_scalar o.scalar_parameters
          (validate_operation_metadata-eq-ok o valid).0)
        found)
