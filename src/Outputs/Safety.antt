-- ===== src/Outputs/Safety.antt =====
-- What validated metadata cannot do when it is evaluated.
use wmfs.Common.{
  ℕ, zero, suc, ◌+◌, ◌<◌, Bool, true, false, ◌||◌, Option, some, none, List, [], ◌∷◌, leb, ◌≡◌,
  refl, ◌⊎◌, inl, arith, Result, ok, err, ◌>>=◌, ◌>>◌, or_raise, then-eq-ok, raise_if-pass, length,
  get_elem?, if◌then◌else◌,
}
use wmfs.Common.Int.{ℤ, pos, negsuc, is_negative, pos_part}
use wmfs.Metadata.Model.{
  Scalar, DimensionExpression, constant, input_axis, minimum, select, unknown_dimension, Dimensions,
  none_left, dimension, OperationMetadata,
}
use wmfs.Metadata.Words.{max_rank}
use wmfs.Metadata.Validate.{validate_index, validate_dimension, validate_operands}
use wmfs.Outputs.Model.{
  OutputError, missing_axis, invalid_shape, unbound_variable, Descriptor, item, axis_of,
  evaluate_dimension, evaluate_operands, minimum_of, is_true,
}

-- The errors that remain: an axis that an input does not have, a shape that is out of range, and a
-- dtype variable that no input has.
abbrev pub IsCallError : OutputError → Type 0
IsCallError e = (e ≡ missing_axis) ⊎ ((e ≡ invalid_shape) ⊎ (e ≡ unbound_variable))

abbrev pub IsSafe {ℓ} : {A : Type ℓ} → Result OutputError A → Type 0
IsSafe (ok a) = Unit
IsSafe (err e) = IsCallError e

pub IsSafe-then {ℓ κ} :
    {A : Type ℓ} {B : Type κ} (m : Result OutputError A) (k : A → Result OutputError B)
    → IsSafe m
    → ((a : A) → m ≡ ok a → IsSafe (k a))
    → IsSafe (m >>= k)
IsSafe-then (ok a) k h next = next a refl
IsSafe-then (err e) k h next = h

pub get_elem?-lt {ℓ} :
    {A : Type ℓ} (xs : List A) (n : ℕ) → n < length xs → (a : A) × (get_elem? xs n ≡ some a)
get_elem?-lt [] n h = absurd (ground arith)
get_elem?-lt (x ∷ xs) zero h = (x, refl)
get_elem?-lt (x ∷ xs) (suc n) h = get_elem?-lt xs n (ground arith)

-- An index that has been validated is one of the sequence.
pub item-validate_index {ℓ} :
    {A : Type ℓ} (xs : List A) (i : ℤ) (count : ℕ)
    → length xs ≡ count
    → validate_index i count ≡ ok tt
    → (a : A) × (item xs i ≡ some a)
unfolding item validate_index
item-validate_index xs (pos n) count e h = get_elem?-lt xs n (ground arith)
item-validate_index xs (negsuc n) count e h = absurd (ground arith)

IsSafe-axis_of :
    (axis : ℤ) (shape : List ℤ)
    → (is_negative axis || leb max_rank (pos_part axis)) ≡ false
    → IsSafe (axis_of axis shape)
unfolding axis_of
IsSafe-axis_of (pos n) shape h = found (get_elem? shape n)
  where
    found : (o : Option ℤ) → IsSafe (or_raise o missing_axis)
    found none = inl refl
    found (some a) = tt
IsSafe-axis_of (negsuc n) shape h = absurd (ground arith)

pub IsSafe-if {ℓ} :
    {A : Type ℓ} (b : Bool) (x y : Result OutputError A)
    → IsSafe x
    → IsSafe y
    → IsSafe (if b then x else y)
IsSafe-if true x y hx hy = hx
IsSafe-if false x y hx hy = hy

-- An item that is there is the value of its lookup.
pub IsSafe-found {ℓ κ} :
    {A : Type ℓ} {B : Type κ} (o : Option A) (e : OutputError) (k : A → Result OutputError B)
    → ((a : A) × (o ≡ some a))
    → ((a : A) → o ≡ some a → IsSafe (k a))
    → IsSafe (or_raise o e >>= k)
IsSafe-found none e k found next = absurd (cc (found.1))
IsSafe-found (some a) e k found next = next a refl

IsSafe-cons {ℓ} :
    {A : Type ℓ} (m : Result OutputError A) (n : Result OutputError (List A))
    → IsSafe m
    → IsSafe n
    → IsSafe (m >>= λ value. n >>= λ values. ok (value ∷ values))
IsSafe-cons (ok a) (ok rest) hm hn = tt
IsSafe-cons (ok a) (err e) hm hn = hn
IsSafe-cons (err e) n hm hn = hm

IsSafe-minimum :
    (m : Result OutputError ℤ) (n : Result OutputError (List ℤ))
    → IsSafe m
    → IsSafe n
    → IsSafe ((m >>= λ value. n >>= λ values. ok (value ∷ values)) >>= λ values. minimum_of values)
IsSafe-minimum (ok a) (ok rest) hm hn = tt
IsSafe-minimum (ok a) (err e) hm hn = hn
IsSafe-minimum (err e) n hm hn = hm

module _ (o : OperationMetadata) (inputs : List Descriptor) (scalars : List Scalar)
    (inputs_bound : length inputs ≡ length o.tensor_inputs)
    (scalars_bound : length scalars ≡ length o.scalar_parameters) where
  mutual
    unfolding evaluate_dimension validate_dimension

    pub dimension-IsSafe :
        (e : DimensionExpression) (depth : ℕ)
        → validate_dimension e o depth ≡ ok tt
        → IsSafe (evaluate_dimension e inputs scalars)
    dimension-IsSafe (constant n) depth h = tt
    dimension-IsSafe (input_axis i axis) depth h =
        let (deep, h1) = then-eq-ok _ _ h in
        let (there, h2) = then-eq-ok _ _ h1 in
        IsSafe-found (item inputs i) _ _ (item-validate_index inputs i _ inputs_bound there)
          λ d found. IsSafe-axis_of axis d.shape (raise_if-pass _ _ h2)
    dimension-IsSafe (minimum none_left) depth h = absurd (ground arith)
    dimension-IsSafe (minimum (dimension e es)) depth h =
        let (deep, h1) = then-eq-ok _ _ h in
        let (first, rest) = then-eq-ok _ _ h1 in
        IsSafe-minimum _ _ (dimension-IsSafe e _ first) (operands-IsSafe es _ rest)
    dimension-IsSafe (select i t f) depth h =
        let (deep, h1) = then-eq-ok _ _ h in
        let (there, h2) = then-eq-ok _ _ h1 in
        let branches : (validate_dimension t o (depth + 1) >> validate_dimension f o (depth + 1))
            ≡ ok tt =
          (then-eq-ok _ _ h2).1 in
        let (when_true, when_false) = then-eq-ok _ _ branches in
        IsSafe-found (item scalars i) _ _ (item-validate_index scalars i _ scalars_bound there)
          λ s found.
            IsSafe-if (is_true s) _ _ (dimension-IsSafe t (depth + 1) when_true)
              (dimension-IsSafe f (depth + 1) when_false)
    dimension-IsSafe unknown_dimension depth h = absurd (ground arith)

    pub operands-IsSafe :
        (es : Dimensions) (depth : ℕ)
        → validate_operands es o depth ≡ ok tt
        → IsSafe (evaluate_operands es inputs scalars)
    operands-IsSafe none_left depth h = tt
    operands-IsSafe (dimension e es) depth h =
        let (first, rest) = then-eq-ok _ _ h in
        IsSafe-cons _ _ (dimension-IsSafe e depth first) (operands-IsSafe es depth rest)
