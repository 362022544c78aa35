-- ===== src/Ring/Record/Tests.antt =====
-- A record with an item of each sort.
use wmfs.Common.{true, false, some, [], ◌∷◌, ◌≡◌, refl, Result, ok, err, arith, length}
use wmfs.Common.Dict
use wmfs.Common.Int.{pos, negsuc}
use wmfs.Common.Bytes.{Bytes, pack, unpack, le_bytes, le_value}
use wmfs.Common.Utf8.{utf8_encode, encode_char}
use wmfs.Metadata.Model.{boolean, int64, text}
use wmfs.Ring.Model.{Ring, write_slot, try_push, try_pop, counters}
use wmfs.Ring.Window.{pending, window}
use wmfs.Ring.Record.{
  RecordError, invalid_identity, Tensor, Record, zeros, area, to_unsigned, masked,
}
use wmfs.Ring.Record.Signed.{padded}
use wmfs.Ring.Record.Encode.{
  encode, encode_tensor, packed_or_error, encode_scalar, text_of, encode_output, encode_profile,
  encode_error_area,
}
use wmfs.Ring.Record.Decode.{decode, record_of, check_header}
use wmfs.Ring.Record.RoundTrip.{IsExact, decode-encode}
use wmfs.Ring.Record.Transport.{record_codec, try_pop-encode}

abbrev matrix : Tensor
matrix = record {
  buffer_id = 3;
  generation = 1;
  allocation_id = 9;
  offset = 64;
  byte_length = 24;
  dtype = "float32";
  shape = pos 2 ∷ pos 3 ∷ [];
  strides = pos 3 ∷ pos 1 ∷ [];
  kind = 1;
  parameter = 0;
  writable = true;
}

abbrev sample : Record
sample = record {
  kind = 1;
  generation = 7;
  submission_id = 4;
  invocation_id = 5;
  operation_id = 2;
  status = 0;
  flags = 1;
  tensors = matrix ∷ [];
  scalars =
      record { parameter = 0; value = boolean true }
      ∷ record { parameter = 1; value = int64 (negsuc 4) }
      ∷ record { parameter = 2; value = text (233 ∷ []) }
      ∷ [];
  outputs = record { output = 1; shape = pos 6 ∷ []; dtype = "int64" } ∷ [];
  profile = 1 ∷ 2 ∷ 3 ∷ 4 ∷ 5 ∷ 6 ∷ 7 ∷ 8 ∷ [];
  error_type = 69 ∷ [];
  error_message = 111 ∷ 107 ∷ [];
}

abbrev bytes_of : Result RecordError Bytes → Bytes
bytes_of (ok packet) = packet
bytes_of (err e) = []

sample_encoded : encode sample ≡ ok (bytes_of (encode sample))
unfolding encode packed_or_error pack encode_tensor Dict.get padded to_unsigned encode_scalar
    text_of masked utf8_encode encode_char encode_output encode_profile encode_error_area
sample_encoded = refl

sample-IsExact : IsExact sample
unfolding utf8_encode encode_char
sample-IsExact = ((tt, (omega arith, (tt, tt))), omega arith, omega arith)

abbrev packet : Bytes
packet = bytes_of (encode sample)

decode-encode_example : (length packet ≡ 16384) × (decode packet 7 ≡ ok sample)
decode-encode_example = decode-encode sample sample-IsExact sample_encoded

-- A record of another generation is refused.
stale_refused : decode packet 8 ≡ err invalid_identity
unfolding decode record_of check_header unpack le_value le_bytes zeros area encode packed_or_error
    pack encode_tensor Dict.get padded to_unsigned encode_scalar text_of masked utf8_encode
    encode_char encode_output encode_profile encode_error_area
stale_refused = refl

abbrev empty_ring : Ring Bytes
empty_ring = record {
  capacity = 2;
  generation = 7;
  producer = 3;
  consumer = 3;
  closed = false;
  slots = λ i. [];
  data_event = 0;
  space_event = 0;
}

abbrev pushed : Ring Bytes
pushed = record empty_ring {
  slots = write_slot empty_ring.slots 1 packet;
  producer = 4;
  data_event = 1;
}

empty_pending : pending empty_ring ≡ []
unfolding pending window
empty_pending = refl

pushed_once : try_push empty_ring packet ≡ ok (some pushed)
unfolding try_push counters
pushed_once = refl

try_pop-encode_example :
    (after : Ring Bytes) × (try_pop (record_codec 7) pushed ≡ ok (some (sample, after)))
    × (pending after ≡ [])
try_pop-encode_example =
    try_pop-encode empty_ring sample
      (record { room = omega arith; ordered = omega arith; bounded = omega arith }) (omega arith)
      empty_pending sample-IsExact refl sample_encoded pushed_once
