-- ===== src/Ring/Record/Decode.antt =====
-- packages/wmfs/wmfs/transport/ring.py: `decode`.
use wmfs.Common.{
  ℕ, zero, suc, not, ◌||◌, List, [], ◌∷◌, ◌==◌, ltb, nat_eq, if◌then◌else◌, map, any, length, take,
  drop, get_or, Result, ok, err, ◌>>=◌, ◌>>◌, raise_if, or_raise,
}
use wmfs.Common.Dict
use wmfs.Common.Int.{ℤ}
use wmfs.Common.Utf8.{Text, utf8_decode}
use wmfs.Common.Bytes.{Bytes, unpack}
use wmfs.Metadata.Model.{Scalar, boolean, float64, int64, text}
use wmfs.Ring.Record.{
  RecordError, not_unicode, invalid_size, invalid_identity, reserved_bytes, count_exceeded,
  invalid_tensor, rank_padding, invalid_dtype, invalid_scalar, invalid_scalar_kind, text_padding,
  invalid_boolean, invalid_output, invalid_output_dtype, invalid_error, error_padding, Tensor,
  ScalarItem, PlannedOutput, Record, id_to_dtype, of_unsigned, header_widths, tensor_widths,
  scalar_widths, output_widths, profile_widths, error_head_widths, shape_widths,
}
use wmfs.Ring.Record.Signed.{is_nonzero, is_nonzero_int}

-- struct.unpack_from("<16q", ...)
abbrev pub unpack_shape : Bytes → List ℤ
unpack_shape bs = map of_unsigned (unpack shape_widths bs)

-- A tensor, from the values that have been unpacked.
unfoldable pub tensor_of : List ℕ → List ℤ → List ℤ → Result RecordError Tensor
tensor_of v shape strides =
    let rank = get_or v 6 0 in
    do
      raise_if (not (get_or v 10 0 == 0) || (rank == 0 || (ltb 16 rank || ltb 1 (get_or v 8 0))))
          invalid_tensor
      raise_if (any is_nonzero_int (drop rank shape) || any is_nonzero_int (drop rank strides))
          rank_padding
      dtype ← or_raise (Dict.get (get_or v 5 0) id_to_dtype) invalid_dtype
      ok (record {
        buffer_id = get_or v 0 0;
        generation = get_or v 1 0;
        allocation_id = get_or v 2 0;
        offset = get_or v 3 0;
        byte_length = get_or v 4 0;
        dtype = dtype;
        shape = take rank shape;
        strides = take rank strides;
        kind = get_or v 7 0;
        parameter = get_or v 9 0;
        writable = not (get_or v 8 0 == 0);
      })

-- One round of the loop over the tensors, at the offset of the tensor.
unfoldable pub decode_tensor : Bytes → Result RecordError Tensor
decode_tensor bs =
    tensor_of (unpack tensor_widths bs) (unpack_shape (drop 56 bs)) (unpack_shape (drop 184 bs))

-- The value of a scalar of the kind that an ID names.
unfoldable pub scalar_value : ℕ → ℕ → ℕ → Bytes → Result RecordError Scalar
scalar_value kind bits size area =
    if kind == 1
    then (if ltb 1 bits || not (size == 0)
        then err invalid_boolean
        else ok (boolean (not (bits == 0))))
    else if kind == 2
    then ok (float64 bits)
    else if kind == 3
    then ok (int64 (of_unsigned bits))
    else (or_raise (utf8_decode (take size area)) not_unicode >>= λ t. ok (text t))

unfoldable pub scalar_of : List ℕ → Bytes → Result RecordError ScalarItem
scalar_of v text_area =
    let kind = get_or v 1 0 in
    let size = get_or v 4 0 in
    do
      raise_if (not (get_or v 2 0 == 0) || (not (get_or v 5 0 == 0) || ltb 256 size)) invalid_scalar
      raise_if (kind == 0 || ltb 4 kind) invalid_scalar_kind
      raise_if (any is_nonzero (drop size text_area)) text_padding
      value ← scalar_value kind (get_or v 3 0) size text_area
      ok (record { parameter = get_or v 0 0; value = value })

-- One round of the loop over the scalars.
unfoldable pub decode_scalar : Bytes → Result RecordError ScalarItem
decode_scalar bs = scalar_of (unpack scalar_widths bs) (take 256 (drop 24 bs))

unfoldable pub output_of : List ℕ → List ℤ → Result RecordError PlannedOutput
output_of v shape =
    let rank = get_or v 2 0 in
    do
      raise_if
          (not (get_or v 1 0 == 0)
            || (not (get_or v 4 0 == 0)
                || (rank == 0 || (ltb 16 rank || any is_nonzero_int (drop rank shape)))))
          invalid_output
      dtype ← or_raise (Dict.get (get_or v 0 0) id_to_dtype) invalid_output_dtype
      ok (record { output = get_or v 3 0; shape = take rank shape; dtype = dtype })

-- One round of the loop over the outputs.
unfoldable pub decode_output : Bytes → Result RecordError PlannedOutput
decode_output bs = output_of (unpack output_widths bs) (unpack_shape (drop 16 bs))

-- A loop over the slots of an area: a slot of `size` bytes for each round.
unfoldable pub read_slots {ℓ} :
    {A : Type ℓ} → (Bytes → Result RecordError A) → ℕ → ℕ → Bytes → Result RecordError (List A)
read_slots decode_item size zero bs = ok []
read_slots decode_item size (suc count) bs = do
  x ← decode_item bs
  xs ← read_slots decode_item size count (drop size bs)
  ok (x ∷ xs)

unfoldable pub error_of : List ℕ → Bytes → Bytes → Result RecordError (Text × Text)
error_of v type_area message_area = do
  raise_if
      (not (get_or v 3 0 == 0)
        || (ltb 3 (get_or v 2 0) || (ltb 64 (get_or v 0 0) || ltb 1024 (get_or v 1 0))))
      invalid_error
  raise_if
      (any is_nonzero (drop (get_or v 0 0) type_area)
        || any is_nonzero (drop (get_or v 1 0) message_area))
      error_padding
  error_type ← or_raise (utf8_decode (take (get_or v 0 0) type_area)) not_unicode
  error_message ← or_raise (utf8_decode (take (get_or v 1 0) message_area)) not_unicode
  ok (error_type, error_message)

-- The area of the error.
unfoldable pub decode_error_area : Bytes → Result RecordError (Text × Text)
decode_error_area bs =
    error_of (unpack error_head_widths bs) (take 64 (drop 16 bs)) (take 1024 (drop 80 bs))

-- The checks of the header that has been unpacked.
unfoldable pub check_header : List ℕ → Bytes → ℕ → Result RecordError (Unit {0})
check_header v packet generation = do
  raise_if (not (get_or v 2 0 == generation) || get_or v 3 0 == 0) invalid_identity
  raise_if
      (not (get_or v 10 0 == 0)
        || (not (get_or v 11 0 == 0)
            || (any is_nonzero (take 76 (drop 52 packet)) || any is_nonzero (drop 13072 packet))))
      reserved_bytes
  raise_if (ltb 16 (get_or v 7 0) || (ltb 16 (get_or v 8 0) || ltb 16 (get_or v 9 0)))
      count_exceeded

unfoldable pub record_of : List ℕ → Bytes → ℕ → Result RecordError Record
record_of v packet generation = do
  check_header v packet generation
  tensors ← read_slots decode_tensor 312 (get_or v 7 0) (drop 128 packet)
  scalars ← read_slots decode_scalar 280 (get_or v 8 0) (drop 5120 packet)
  outputs ← read_slots decode_output 144 (get_or v 9 0) (drop 9600 packet)
  (error_type, error_message) ← decode_error_area (drop 11968 packet)
  ok (record {
    kind = get_or v 0 0;
    generation = generation;
    submission_id = get_or v 3 0;
    invocation_id = get_or v 4 0;
    operation_id = get_or v 5 0;
    status = get_or v 6 0;
    flags = get_or v 1 0;
    tensors = tensors;
    scalars = scalars;
    outputs = outputs;
    profile = unpack profile_widths (drop 11904 packet);
    error_type = error_type;
    error_message = error_message;
  })

-- `decode`
unfoldable pub decode : Bytes → ℕ → Result RecordError Record
decode packet generation = do
  raise_if (not (length packet == 16384)) invalid_size
  record_of (unpack header_widths packet) packet generation
