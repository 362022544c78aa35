-- ===== src/Ring/Record.antt =====
-- packages/wmfs/wmfs/transport/ring.py: a record of the ring and the tables of its encoding. A field
-- of a record that is packed unsigned is natural.
pub mod Signed
pub mod Encode
pub mod Decode
pub mod Items
pub mod Scalars
pub mod Areas
pub mod Layout
pub mod RoundTrip
pub mod Transport
mod Tests
use Prim.Native.String.{String}
use wmfs.Common.{
  ℕ, ◌+◌, ◌*◌, ◌-◌, ◌%◌, ◌^◌, Bool, true, false, Option, some, none, List, [], ◌∷◌, ◌++◌, ltb, Eq,
  string_eq, nat_eq, if◌then◌else◌, replicate, length,
}
use wmfs.Common.Dict
use wmfs.Common.Dict.{Dict}
use wmfs.Common.Int.{ℤ, pos, negsuc}
use wmfs.Common.Utf8.{Text}
use wmfs.Metadata.Model.{Scalar, boolean, float64, int64, text, other}
use wmfs.Common.Bytes.{Bytes}

-- The exceptions of `encode` and of `decode`.
pub data RecordError : Type 0 where
  zero_identity too_many invalid_rank unsupported_dtype struct_error : RecordError
  unsupported_scalar text_too_long invalid_output_rank unsupported_output invalid_profile :
      RecordError
  not_unicode invalid_size invalid_identity reserved_bytes count_exceeded : RecordError
  invalid_tensor rank_padding invalid_dtype invalid_scalar invalid_scalar_kind : RecordError
  text_padding invalid_boolean invalid_output invalid_output_dtype invalid_error : RecordError
  error_padding : RecordError

pub record Tensor : Type 0 where
  pub buffer_id : ℕ
  pub generation : ℕ
  pub allocation_id : ℕ
  pub offset : ℕ
  pub byte_length : ℕ
  pub dtype : String
  pub shape : List ℤ
  pub strides : List ℤ
  pub kind : ℕ
  pub parameter : ℕ
  pub writable : Bool

-- A scalar's kind is that of its value; the value of another class is of no kind that is supported.
pub record ScalarItem : Type 0 where
  pub parameter : ℕ
  pub value : Scalar

pub record PlannedOutput : Type 0 where
  pub output : ℕ
  pub shape : List ℤ
  pub dtype : String

pub record Record : Type 0 where
  pub kind : ℕ
  pub generation : ℕ
  pub submission_id : ℕ
  pub invocation_id : ℕ
  pub operation_id : ℕ
  pub status : ℕ
  pub flags : ℕ
  pub tensors : List Tensor
  pub scalars : List ScalarItem
  pub outputs : List PlannedOutput
  pub profile : List ℕ
  pub error_type : Text
  pub error_message : Text

-- `_DTYPE_TO_ID`
abbrev pub dtype_to_id : Dict String ℕ
dtype_to_id =
    ("bool", 1)
    ∷ ("int8", 2)
    ∷ ("uint8", 3)
    ∷ ("int16", 4)
    ∷ ("int32", 5)
    ∷ ("int64", 6)
    ∷ ("float16", 7)
    ∷ ("float32", 8)
    ∷ ("float64", 9)
    ∷ ("bfloat16", 10)
    ∷ []

-- {value: key for key, value in d.items()}
abbrev pub flipped {ℓ κ} : {K : Type ℓ} {V : Type κ} → Dict K V → Dict V K
flipped [] = []
flipped ((k, v) ∷ d) = (v, k) ∷ flipped d

-- `_ID_TO_DTYPE`
abbrev pub id_to_dtype : Dict ℕ String
id_to_dtype = flipped dtype_to_id

-- `_SCALAR_TO_ID` of the kind of a value
abbrev pub scalar_id : Scalar → Option ℕ
scalar_id (boolean b) = some 1
scalar_id (float64 bits) = some 2
scalar_id (int64 n) = some 3
scalar_id (text t) = some 4
scalar_id other = none

-- A number for `struct`'s "q": its two's complement, or a number that fits no field.
unfoldable pub to_unsigned : ℤ → ℕ
to_unsigned (pos n) = if ltb n (2 ^ 63) then n else 2 ^ 64
to_unsigned (negsuc n) = if ltb n (2 ^ 63) then 2 ^ 64 - 1 - n else 2 ^ 64

-- What "q" reads.
unfoldable pub of_unsigned : ℕ → ℤ
of_unsigned n = if ltb n (2 ^ 63) then pos n else negsuc (2 ^ 64 - 1 - n)

-- int(value) & ((1 << 64) - 1)
unfoldable pub masked : ℤ → ℕ
masked (pos n) = n % 2 ^ 64
masked (negsuc n) = 2 ^ 64 - 1 - n % 2 ^ 64

abbrev pub header_widths : List ℕ
header_widths = 4 ∷ 4 ∷ 8 ∷ 8 ∷ 8 ∷ 4 ∷ 4 ∷ 2 ∷ 2 ∷ 2 ∷ 2 ∷ 4 ∷ []

abbrev pub tensor_widths : List ℕ
tensor_widths = 8 ∷ 8 ∷ 8 ∷ 8 ∷ 8 ∷ 4 ∷ 2 ∷ 2 ∷ 4 ∷ 2 ∷ 2 ∷ []

abbrev pub scalar_widths : List ℕ
scalar_widths = 2 ∷ 2 ∷ 4 ∷ 8 ∷ 4 ∷ 4 ∷ []

abbrev pub output_widths : List ℕ
output_widths = 4 ∷ 4 ∷ 2 ∷ 2 ∷ 4 ∷ []

abbrev pub profile_widths : List ℕ
profile_widths = 8 ∷ 8 ∷ 8 ∷ 8 ∷ 8 ∷ 8 ∷ 8 ∷ 8 ∷ []

abbrev pub error_head_widths : List ℕ
error_head_widths = 4 ∷ 4 ∷ 4 ∷ 4 ∷ []

-- "<16q"
abbrev pub shape_widths : List ℕ
shape_widths = replicate 16 8

-- Zeroed bytes
unfoldable pub zeros : ℕ → Bytes
zeros n = replicate n 0

-- Bytes at the start of a zeroed area of a size.
unfoldable pub area : ℕ → Bytes → Bytes
area size bs = bs ++ zeros (size - length bs)
