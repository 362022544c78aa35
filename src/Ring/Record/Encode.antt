-- ===== src/Ring/Record/Encode.antt =====
-- packages/wmfs/wmfs/transport/ring.py: `encode`. Its areas follow each other without a gap, so the
-- zeroed `bytearray` with what is written into it is their concatenation.
use wmfs.Common.{
  ℕ, ◌+◌, ◌*◌, Bool, true, false, not, ◌||◌, List, [], ◌∷◌, ◌++◌, ◌==◌, ltb, string_eq, length,
  take, Result, ok, ◌>>=◌, ◌>>◌, raise_if, or_raise, collect_all,
}
use wmfs.Common.Dict
use wmfs.Common.Utf8.{Text, utf8_encode}
use wmfs.Common.Bytes.{Bytes, pack}
use wmfs.Metadata.Model.{Scalar, boolean, float64, int64, text, other}
use wmfs.Ring.Record.{
  RecordError, zero_identity, too_many, invalid_rank, unsupported_dtype, struct_error,
  unsupported_scalar, text_too_long, invalid_output_rank, unsupported_output, invalid_profile,
  not_unicode, Tensor, ScalarItem, PlannedOutput, Record, dtype_to_id, scalar_id, masked, zeros,
  area,
}
use wmfs.Ring.Record.Signed.{signed_fields, padded}

-- `struct.pack_into`
unfoldable pub packed_or_error : List (ℕ × ℕ) → Result RecordError Bytes
packed_or_error fields = or_raise (pack fields) struct_error

abbrev pub as_flag : Bool → ℕ
as_flag true = 1
as_flag false = 0

abbrev pub tensor_fields : Tensor → ℕ → List (ℕ × ℕ)
tensor_fields t dtype =
    (8, t.buffer_id)
    ∷ (8, t.generation)
    ∷ (8, t.allocation_id)
    ∷ (8, t.offset)
    ∷ (8, t.byte_length)
    ∷ (4, dtype)
    ∷ (2, length t.shape)
    ∷ (2, t.kind)
    ∷ (4, as_flag t.writable)
    ∷ (2, t.parameter)
    ∷ (2, 0)
    ∷ []

-- One round of the loop over the tensors.
unfoldable pub encode_tensor : Tensor → Result RecordError Bytes
encode_tensor t = do
  raise_if
      (length t.shape == 0 || (ltb 16 (length t.shape) || not (length t.shape == length t.strides)))
      invalid_rank
  dtype ← or_raise (Dict.get t.dtype dtype_to_id) unsupported_dtype
  head ← packed_or_error (tensor_fields t dtype)
  shape ← packed_or_error (signed_fields (padded t.shape))
  strides ← packed_or_error (signed_fields (padded t.strides))
  ok (head ++ (shape ++ strides))

abbrev pub bits_of : Scalar → ℕ
bits_of (boolean b) = as_flag b
bits_of (float64 bits) = bits
bits_of (int64 n) = masked n
bits_of (text t) = 0
bits_of other = 0

-- The bytes of a text of at most 256; there are none for the value of another kind.
unfoldable pub text_of : Scalar → Result RecordError Bytes
text_of (text t) = do
  bs ← or_raise (utf8_encode t) not_unicode
  raise_if (ltb 256 (length bs)) text_too_long
  ok bs
text_of _ = ok []

abbrev pub scalar_fields : ScalarItem → ℕ → ℕ → List (ℕ × ℕ)
scalar_fields s kind size =
    (2, s.parameter) ∷ (2, kind) ∷ (4, 0) ∷ (8, bits_of s.value) ∷ (4, size) ∷ (4, 0) ∷ []

-- One round of the loop over the scalars.
unfoldable pub encode_scalar : ScalarItem → Result RecordError Bytes
encode_scalar s = do
  kind ← or_raise (scalar_id s.value) unsupported_scalar
  bs ← text_of s.value
  head ← packed_or_error (scalar_fields s kind (length bs))
  ok (head ++ area 256 bs)

abbrev pub output_fields : PlannedOutput → ℕ → List (ℕ × ℕ)
output_fields o dtype = (4, dtype) ∷ (4, 0) ∷ (2, length o.shape) ∷ (2, o.output) ∷ (4, 0) ∷ []

-- One round of the loop over the outputs.
unfoldable pub encode_output : PlannedOutput → Result RecordError Bytes
encode_output o = do
  raise_if (length o.shape == 0 || ltb 16 (length o.shape)) invalid_output_rank
  dtype ← or_raise (Dict.get o.dtype dtype_to_id) unsupported_output
  head ← packed_or_error (output_fields o dtype)
  shape ← packed_or_error (signed_fields (padded o.shape))
  ok (head ++ shape)

abbrev pub record_header_fields : Record → List (ℕ × ℕ)
record_header_fields r =
    (4, r.kind)
    ∷ (4, r.flags)
    ∷ (8, r.generation)
    ∷ (8, r.submission_id)
    ∷ (8, r.invocation_id)
    ∷ (4, r.operation_id)
    ∷ (4, r.status)
    ∷ (2, length r.tensors)
    ∷ (2, length r.scalars)
    ∷ (2, length r.outputs)
    ∷ (2, 0)
    ∷ (4, 0)
    ∷ []

abbrev pub eight_bytes : List ℕ → List (ℕ × ℕ)
eight_bytes [] = []
eight_bytes (n ∷ ns) = (8, n) ∷ eight_bytes ns

-- b"".join(parts)
abbrev pub join : List Bytes → Bytes
join [] = []
join (bs ∷ parts) = bs ++ join parts

abbrev pub error_head_fields : Bytes → Bytes → List (ℕ × ℕ)
error_head_fields encoded_type encoded_message =
    (4, length (take 64 encoded_type))
    ∷ (4, length (take 1024 encoded_message))
    ∷ (4, as_flag (ltb 64 (length encoded_type)) + 2 * as_flag (ltb 1024 (length encoded_message)))
    ∷ (4, 0)
    ∷ []

-- The area of the error, from its two texts.
unfoldable pub encode_error_area : Text → Text → Result RecordError Bytes
encode_error_area error_type error_message = do
  encoded_type ← or_raise (utf8_encode error_type) not_unicode
  encoded_message ← or_raise (utf8_encode error_message) not_unicode
  head ← packed_or_error (error_head_fields encoded_type encoded_message)
  ok (head ++ (area 64 (take 64 encoded_type) ++ area 1024 (take 1024 encoded_message)))

unfoldable pub encode_profile : List ℕ → Result RecordError Bytes
encode_profile profile = do
  raise_if (not (length profile == 8)) invalid_profile
  packed_or_error (eight_bytes profile)

-- `encode`
unfoldable pub encode : Record → Result RecordError Bytes
encode r = do
  raise_if (r.generation == 0 || r.submission_id == 0) zero_identity
  raise_if (ltb 16 (length r.tensors) || (ltb 16 (length r.scalars) || ltb 16 (length r.outputs)))
      too_many
  header ← packed_or_error (record_header_fields r)
  tensors ← collect_all encode_tensor r.tensors
  scalars ← collect_all encode_scalar r.scalars
  outputs ← collect_all encode_output r.outputs
  profile ← encode_profile r.profile
  error ← encode_error_area r.error_type r.error_message
  ok (
      area 128 header
      ++ (area 4992 (join tensors)
          ++ (area 4480 (join scalars)
              ++ (area 2304 (join outputs) ++ (profile ++ (error ++ zeros 3312))))))
