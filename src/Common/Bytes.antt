-- ===== src/Common/Bytes.antt =====
-- Byte strings, and what the sources use of Python's `struct`: unsigned little-endian fields.
use Prim.Native.Nat.{ℕ, zero, suc, ◌+◌, ◌*◌, ◌/◌, ◌%◌, ◌<◌, ◌≤◌}
use mathlib.Core.Path.{◌≡◌, refl, sym, ap, ◌∙◌}
use mathlib.Core.List.{List, [], ◌∷◌, ◌++◌, append_assoc}
use mathlib.Core.Option.{Option, none, some}
use mathlib.Core.Path.{ap₂, subst}
use native.Mathlib.Omega.{arith}
use wmfs.Common.Tests.{ltb, if◌then◌else◌, ltb→lt, Bool-cases, Option-cases}
use mathlib.Core.Logic.{inl, inr}
use wmfs.Common.Lists.{
  drop_front, take_front, length, take, drop, All, All-take, All-drop, length-take, length-drop,
  take-append-drop, length-append,
}

abbrev pub Bytes : Type 0
Bytes = List ℕ

abbrev pub IsBytes : Bytes → Type 0
IsBytes bs = All (λ b. b < 256) bs

-- The number of values of `w` bytes.
abbrev pub bound : ℕ → ℕ
bound zero = 1
bound (suc w) = 256 * bound w

unfoldable pub le_bytes : ℕ → ℕ → Bytes
le_bytes zero n = []
le_bytes (suc w) n = n % 256 ∷ le_bytes w (n / 256)

unfoldable pub le_value : Bytes → ℕ
le_value [] = 0
le_value (b ∷ bs) = b + 256 * le_value bs

pub length-le_bytes : (w n : ℕ) → length (le_bytes w n) ≡ w
unfolding le_bytes
length-le_bytes zero n = refl
length-le_bytes (suc w) n = ap suc (length-le_bytes w (n / 256))

pub le_value-le_bytes : (w n : ℕ) → n < bound w → le_value (le_bytes w n) ≡ n
unfolding le_bytes le_value
le_value-le_bytes zero n h = omega arith
le_value-le_bytes (suc w) n h = omega (arith, le_value-le_bytes w (n / 256) (omega arith))

pub le_bytes-le_value : (bs : Bytes) → IsBytes bs → le_bytes (length bs) (le_value bs) ≡ bs
unfolding le_bytes le_value
le_bytes-le_value [] h = refl
le_bytes-le_value (b ∷ bs) h =
    ap₂ ◌∷◌ (omega (arith, h.0))
      (ap (le_bytes (length bs)) (omega (arith, h.0)) ∙ le_bytes-le_value bs h.1)

pub le_value-lt : (bs : Bytes) → IsBytes bs → le_value bs < bound (length bs)
unfolding le_value
le_value-lt [] h = omega arith
le_value-lt (b ∷ bs) h = omega (arith, h.0, le_value-lt bs h.1)

-- `struct.pack` for fields of the widths, each with its value; `none` is `struct.error`.
unfoldable pub pack : List (ℕ × ℕ) → Option Bytes
pack [] = some []
pack ((w, n) ∷ fields) =
    let rest : Option Bytes = (elim (pack fields) [
      | none ↦ none
      | some bs ↦ some (le_bytes w n ++ bs)
    ]) in
    if ltb n (bound w) then rest else none

-- `struct.unpack_from` at the start of a byte string that is long enough.
unfoldable pub unpack : List ℕ → Bytes → List ℕ
unpack [] bs = []
unpack (w ∷ widths) bs = le_value (take w bs) ∷ unpack widths (drop w bs)

abbrev pub size_of : List ℕ → ℕ
size_of [] = 0
size_of (w ∷ widths) = size_of widths + w

abbrev pub widths_of : List (ℕ × ℕ) → List ℕ
widths_of [] = []
widths_of ((w, n) ∷ fields) = w ∷ widths_of fields

abbrev pub values_of : List (ℕ × ℕ) → List ℕ
values_of [] = []
values_of ((w, n) ∷ fields) = n ∷ values_of fields

-- Every value fits its field.
abbrev pub Fit : List (ℕ × ℕ) → Type 0
Fit [] = Unit {0}
Fit ((w, n) ∷ fields) = (n < bound w) × Fit fields

-- What `pack` makes where every value fits.
unfoldable pub packed : List (ℕ × ℕ) → Bytes
packed [] = []
packed ((w, n) ∷ fields) = le_bytes w n ++ packed fields

pub pack-Fit : (fields : List (ℕ × ℕ)) → Fit fields → pack fields ≡ some (packed fields)
unfolding pack packed
pack-Fit [] h = refl
pack-Fit ((w, n) ∷ fields) h = ground (arith, pack-Fit fields h.1, h.0)

pub pack-eq-some :
    (fields : List (ℕ × ℕ)) {bs : Bytes} → pack fields ≡ some bs → Fit fields × (packed fields ≡ bs)
unfolding pack packed
pack-eq-some [] h = (tt, ground arith)
pack-eq-some ((w, n) ∷ fields) h = elim (Option-cases (pack fields)) [
  | inl bad ↦ absurd (ground arith)
  | inr (rest, good) ↦ elim (Bool-cases (ltb n (bound w))) [
    | inl small ↦ (
      (ltb→lt _ _ small, (pack-eq-some fields good).0),
      ap (λ bs. le_bytes w n ++ bs) ((pack-eq-some fields good).1) ∙ ground arith,
    )
    | inr large ↦ absurd (ground arith)
  ]
]

pub length-packed : (fields : List (ℕ × ℕ)) → length (packed fields) ≡ size_of (widths_of fields)
unfolding packed
length-packed [] = refl
length-packed ((w, n) ∷ fields) =
    omega (
      arith,
      length-append (le_bytes w n) (packed fields),
      length-le_bytes w n,
      length-packed fields,
    )

-- Unpacking gives back the values that were packed, whatever follows them.
pub unpack-packed :
    (fields : List (ℕ × ℕ)) (rest : Bytes)
    → Fit fields
    → unpack (widths_of fields) (packed fields ++ rest) ≡ values_of fields
unfolding unpack packed
unpack-packed [] rest h = refl
unpack-packed ((w, n) ∷ fields) rest h =
    let e = append_assoc (le_bytes w n) (packed fields) rest in
    let front = take_front w (le_bytes w n) (packed fields ++ rest) (length-le_bytes w n) in
    let back = drop_front w (le_bytes w n) (packed fields ++ rest) (length-le_bytes w n) in
    ap₂ ◌∷◌ (ap (λ bs. le_value (take w bs)) e ∙ ap le_value front ∙ le_value-le_bytes w n h.0) (
      ap (λ bs. unpack (widths_of fields) (drop w bs)) e
      ∙ ap (unpack (widths_of fields)) back
      ∙ unpack-packed fields rest h.1)

-- The bytes are the packing of the fields, and the values are read back from them.
abbrev pub Holds : List (ℕ × ℕ) → Bytes → Type 0
Holds fields bs =
    (length bs ≡ size_of (widths_of fields))
    × ((rest : Bytes) → unpack (widths_of fields) (bs ++ rest) ≡ values_of fields)

pub pack-Holds : (fields : List (ℕ × ℕ)) {bs : Bytes} → pack fields ≡ some bs → Holds fields bs
pack-Holds fields h =
    let (fits, same) = pack-eq-some fields h in
    subst (Holds fields) same (length-packed fields, λ rest. unpack-packed fields rest fits)

-- The fields of the widths at the start of a byte string.
abbrev pub fields_at : List ℕ → Bytes → List (ℕ × ℕ)
fields_at [] bs = []
fields_at (w ∷ widths) bs = (w, le_value (take w bs)) ∷ fields_at widths (drop w bs)

pub values_of-fields_at :
    (widths : List ℕ) (bs : Bytes) → values_of (fields_at widths bs) ≡ unpack widths bs
unfolding unpack
values_of-fields_at [] bs = refl
values_of-fields_at (w ∷ widths) bs =
    ap (λ vs. le_value (take w bs) ∷ vs) (values_of-fields_at widths (drop w bs))

front_length : (w n : ℕ) (bs : Bytes) → n + w ≤ length bs → length (take w bs) ≡ w
front_length w n bs h = omega (arith, length-take w bs)

pub fields_at-Fit :
    (widths : List ℕ) (bs : Bytes)
    → IsBytes bs
    → size_of widths ≤ length bs
    → Fit (fields_at widths bs)
fields_at-Fit [] bs h g = tt
fields_at-Fit (w ∷ widths) bs h g = (
  rw (front_length w (size_of widths) bs g) at (le_value-lt (take w bs) (All-take _ w bs h)),
  fields_at-Fit widths (drop w bs) (All-drop _ w bs h) (omega (arith, length-drop w bs)),
)

drop-nil : (v : ℕ) → drop {A = ℕ} v [] ≡ []
drop-nil zero = refl
drop-nil (suc v) = refl

pub drop-drop : (v w : ℕ) (bs : Bytes) → drop v (drop w bs) ≡ drop (v + w) bs
drop-drop v zero bs = let e : v ≡ v + 0 = omega arith in ap (λ k. drop k bs) e
drop-drop v (suc w) [] = drop-nil v ∙ sym (drop-nil (v + suc w))
drop-drop v (suc w) (b ∷ bs) =
    let e : suc (v + w) ≡ v + suc w = omega arith in drop-drop v w bs ∙ ap (λ k. drop k (b ∷ bs)) e

-- A byte string that is long enough starts with the packing of what is read from it.
pub packed-fields_at :
    (widths : List ℕ) (bs : Bytes)
    → IsBytes bs
    → size_of widths ≤ length bs
    → packed (fields_at widths bs) ++ drop (size_of widths) bs ≡ bs
unfolding packed
packed-fields_at [] bs h g = refl
packed-fields_at (w ∷ widths) bs h g =
    let first : le_bytes w (le_value (take w bs)) ≡ take w bs =
      ap (λ k. le_bytes k (le_value (take w bs))) (sym (front_length w (size_of widths) bs g))
      ∙ le_bytes-le_value (take w bs) (All-take _ w bs h) in
    let later =
      packed-fields_at widths (drop w bs) (All-drop _ w bs h) (omega (arith, length-drop w bs)) in
    append_assoc (le_bytes w (le_value (take w bs))) _ _
    ∙ ap (λ front. front ++ (packed (fields_at widths (drop w bs)) ++ drop (size_of widths + w) bs))
        first
    ∙ ap (λ rest. take w bs ++ (packed (fields_at widths (drop w bs)) ++ rest))
        (sym (drop-drop (size_of widths) w bs))
    ∙ ap (λ rest. take w bs ++ rest) later
    ∙ take-append-drop w bs
