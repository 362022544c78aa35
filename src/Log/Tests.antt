-- ===== src/Log/Tests.antt =====
-- packages/wmfs-plugin/wmfs_plugin/log_codec.py: a record with a field of each kind, one that is cut
-- and one with a field without a name.
use wmfs.Common.{◌≤◌, true, [], ◌∷◌, ◌≡◌, refl, Result, ok, err, arith, length}
use wmfs.Common.Dict
use wmfs.Common.Int.{pos, negsuc}
use wmfs.Common.Text.{same_text}
use wmfs.Common.Utf8.{utf8_encode, encode_char, utf8_decode, decode_from}
use wmfs.Common.Bytes.{Bytes, pack, unpack, le_bytes, le_value}
use wmfs.Ring.Record.{masked}
use wmfs.Log.{
  LogError, invalid_field, boolean, integer, real, string, LogRecord, is_level, is_finite,
}
use wmfs.Log.Encode.{
  fit_text, front_bytes, is_log_integer, kind_and_bits, value_text, encode_log_field,
  encode_log_fields, with_truncated, log_packet, encode_log_record,
}
use wmfs.Log.Decode.{
  log_field_of, decode_log_field, decode_log_fields, check_log_header, log_record_of,
  decode_log_record,
}
use wmfs.Log.Bounds.{encode_log_record-fits}
use wmfs.Log.RoundTrip.{HasRoom, decode_log_record-encode_log_record}

abbrev opened : LogRecord
opened = record {
  level = 20;
  message = 111 ∷ 107 ∷ [];
  category = 233 ∷ [];
  fields =
      (110 ∷ [], integer (negsuc 2))
      ∷ (117 ∷ [], integer (pos 9))
      ∷ (98 ∷ [], boolean true)
      ∷ (102 ∷ [], real 4607182418800017408)
      ∷ (115 ∷ [], string (120 ∷ 8364 ∷ []))
      ∷ [];
  sequence = 3;
  time_ns = 1000;
  context = record { session = 1; submission = 2; invocation = 3; operation = 4 };
  flags = 0;
  dropped_before = 0;
}

abbrev made : Result LogError Bytes → Bytes
made (ok packet) = packet
made (err e) = []

opened_encoded : encode_log_record opened 65536 ≡ ok (made (encode_log_record opened 65536))
unfolding encode_log_record is_level fit_text utf8_encode encode_log_fields encode_log_field
    kind_and_bits is_log_integer value_text pack encode_char masked le_bytes is_finite log_packet
    with_truncated
opened_encoded = refl

opened-HasRoom : HasRoom opened 65536
unfolding utf8_encode encode_char Dict.get same_text
opened-HasRoom = (
  omega arith,
  omega arith,
  omega arith,
  (
    (omega arith, omega arith),
    (
      (omega arith, omega arith),
      ((omega arith, omega arith), ((omega arith, omega arith), ((omega arith, omega arith), tt))),
    ),
  ),
  (refl, (refl, (refl, (refl, (refl, tt))))),
  omega arith,
)

decode_log_record-encode_log_record_example :
    decode_log_record (made (encode_log_record opened 65536)) ≡ ok opened
decode_log_record-encode_log_record_example =
    decode_log_record-encode_log_record opened 65536 opened-HasRoom opened_encoded

-- With room for three bytes of text, the message is cut and no field is left.
cut_encoded : encode_log_record opened 103 ≡ ok (made (encode_log_record opened 103))
unfolding encode_log_record is_level fit_text utf8_encode encode_log_fields encode_log_field
    kind_and_bits is_log_integer value_text pack encode_char masked front_bytes le_bytes log_packet
    with_truncated
cut_encoded = refl

cut_whole : length (made (encode_log_record opened 103)) ≡ 103
unfolding encode_log_record is_level fit_text utf8_encode encode_log_fields encode_log_field
    kind_and_bits is_log_integer value_text pack encode_char masked front_bytes le_bytes log_packet
    with_truncated
cut_whole = refl

encode_log_record-fits_example :
    (100 ≤ length (made (encode_log_record opened 103)))
    × (length (made (encode_log_record opened 103)) ≤ 103)
    × (103 ≤ 65536)
encode_log_record-fits_example = encode_log_record-fits opened 103 cut_encoded

-- A field without a name is encoded, and its packet is refused.
abbrev nameless : LogRecord
nameless = record opened { fields = ([], boolean true) ∷ [] }

nameless_encoded : encode_log_record nameless 65536 ≡ ok (made (encode_log_record nameless 65536))
unfolding encode_log_record is_level fit_text utf8_encode encode_log_fields encode_log_field
    kind_and_bits value_text pack encode_char le_bytes log_packet with_truncated
nameless_encoded = refl

nameless_refused : decode_log_record (made (encode_log_record nameless 65536)) ≡ err invalid_field
unfolding encode_log_record is_level fit_text utf8_encode encode_log_fields encode_log_field
    kind_and_bits value_text pack encode_char le_bytes log_packet with_truncated decode_log_record
    log_record_of check_log_header unpack le_value utf8_decode decode_from decode_log_fields
    decode_log_field log_field_of
nameless_refused = refl
