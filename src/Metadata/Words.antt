-- ===== src/Metadata/Words.antt =====
-- packages/wmfs/wmfs/protocol/metadata.py: the errors, the limits and the words of the validators, and
-- the tests of lists that they share. Each exception is a `ValueError` with its message; a word is
-- compared with `==`.
use Prim.Native.String.{String}
use wmfs.Common.{
  ℕ, Bool, true, false, ◌||◌, Option, some, none, List, [], ◌∷◌, Eq, string_eq, Result,
}
use wmfs.Common.Text.{text_eq}

pub data MetadataError : Type 0 where
  invalid_operation_id plans_mismatch too_many_outputs dynamic_from_mutable : MetadataError
  reserved_out invalid_kind required_with_default optional_without_default : MetadataError
  invalid_default invalid_enum duplicate_enum_values invalid_enum_default : MetadataError
  duplicate_variables invalid_dtypes unknown_variable plan_name invalid_rank : MetadataError
  unknown_shape_kind invalid_dtype invalid_index text_promotion unknown_dtype_kind : MetadataError
  too_deep not_positive invalid_axis empty_minimum not_boolean unknown_kind : MetadataError
  zero_operation_id duplicate_ids duplicate_names unsupported_version wrong_fingerprint :
      MetadataError
  missing_vjp nested_vjp not_internal vjp_not_read_only no_cotangents invalid_vjp : MetadataError
  vjp_inputs vjp_outputs vjp_scalars vjp_kinds : MetadataError

-- What a validator does: it returns nothing, or raises.
abbrev pub Checks : Type 0
Checks = Result MetadataError (Unit {0})

abbrev pub max_expression_depth : ℕ
max_expression_depth = 16

abbrev pub max_outputs : ℕ
max_outputs = 8

abbrev pub max_rank : ℕ
max_rank = 16

-- x in xs
abbrev pub member {ℓ} : {A : Type ℓ} ⦃e : Eq A⦄ → A → List A → Bool
member ⦃e⦄ x [] = false
member ⦃e⦄ x (y ∷ ys) = e.beq y x || member x ys

-- len(xs) != len(set(xs))
abbrev pub has_duplicates {ℓ} : {A : Type ℓ} ⦃e : Eq A⦄ → List A → Bool
has_duplicates [] = false
has_duplicates (x ∷ xs) = member x xs || has_duplicates xs

abbrev pub same_word : String → String → Bool
same_word a b = string_eq.beq a b

abbrev pub supported_output_dtypes : List String
supported_output_dtypes = "float32" ∷ "float64" ∷ "int64" ∷ "uint8" ∷ []

abbrev pub scalar_kinds : List String
scalar_kinds = "boolean" ∷ "float64" ∷ "int64" ∷ "text" ∷ []

abbrev pub is_there {ℓ} : {A : Type ℓ} → Option A → Bool
is_there none = false
is_there (some a) = true

abbrev pub is_empty {ℓ} : {A : Type ℓ} → List A → Bool
is_empty [] = true
is_empty (x ∷ xs) = false
