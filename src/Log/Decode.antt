-- ===== src/Log/Decode.antt =====
-- packages/wmfs-plugin/wmfs_plugin/log_codec.py: `decode_log_record`. What is read from an offset is
-- read from the bytes behind it.
use wmfs.Common.{
  ℕ, zero, suc, ◌+◌, Bool, true, false, not, ◌&&◌, ◌||◌, Option, some, none, List, [], ◌==◌, ltb,
  if◌then◌else◌, length, take, drop, get_or, Result, ok, err, ◌>>=◌, ◌>>◌, raise_if, or_raise,
}
use wmfs.Common.Dict
use wmfs.Common.Dict.{Dict}
use wmfs.Common.Int.{pos}
use wmfs.Common.Utf8.{Text, utf8_decode}
use wmfs.Common.Text.{text_eq}
use wmfs.Common.Bytes.{Bytes, unpack}
use wmfs.Ring.Record.{of_unsigned}
use wmfs.Log.{
  LogError, invalid_packet_size, invalid_header, invalid_header_value, invalid_text_bounds,
  text_not_utf8, truncated_field, invalid_field, field_not_utf8, inconsistent_field,
  invalid_boolean_field, non_finite_field, trailing_data, LogValue, boolean, integer, real, string,
  LogRecord, is_level, is_finite, log_magic, log_header_widths, log_field_widths,
}

-- The value of a field of one of the five kinds.
unfoldable pub log_value : ℕ → ℕ → Text → Result LogError LogValue
log_value kind bits text =
    if kind == 1
    then (if ltb 1 bits then err invalid_boolean_field else ok (boolean (not (bits == 0))))
    else if kind == 2
    then ok (integer (of_unsigned bits))
    else if kind == 3
    then ok (integer (pos bits))
    else if kind == 4
    then (if is_finite bits then ok (real bits) else err non_finite_field)
    else ok (string text)

-- name in fields
abbrev pub is_stored : Text → Dict Text LogValue → Bool
is_stored name fields = is_some (Dict.get name fields)
  where
    is_some : Option LogValue → Bool
    is_some none = false
    is_some (some v) = true

-- A field from the values that have been unpacked, and what is behind it.
unfoldable pub log_field_of :
    List ℕ → Bytes → Dict Text LogValue → Result LogError ((Text × LogValue) × Bytes)
log_field_of v bs fields =
    let kind = get_or v 0 0 in
    let name_size = get_or v 2 0 in
    let text_size = get_or v 3 0 in
    do
      raise_if
          ((kind == 0 || ltb 5 kind)
            || (not (get_or v 1 0 == 0)
                || (not (get_or v 5 0 == 0)
                    || (name_size == 0
                        || (ltb 255 name_size || ltb (length bs) (name_size + text_size))))))
          invalid_field
      name ← or_raise (utf8_decode (take name_size bs)) field_not_utf8
      text ← or_raise (utf8_decode (take text_size (drop name_size bs))) field_not_utf8
      raise_if
          (is_stored name fields
            || ((not (kind == 5) && not (text_size == 0))
                || (kind == 5 && not (get_or v 4 0 == 0))))
          inconsistent_field
      value ← log_value kind (get_or v 4 0) text
      ok ((name, value), drop text_size (drop name_size bs))

-- One round of the loop over the fields.
unfoldable pub decode_log_field :
    Bytes → Dict Text LogValue → Result LogError ((Text × LogValue) × Bytes)
decode_log_field bs fields = do
  raise_if (ltb (length bs) 24) truncated_field
  log_field_of (unpack log_field_widths bs) (drop 24 bs) fields

-- The loop over the fields, with what is behind the last one.
unfoldable pub decode_log_fields :
    ℕ → Bytes → Dict Text LogValue → Result LogError (Dict Text LogValue × Bytes)
decode_log_fields zero bs fields = ok (fields, bs)
decode_log_fields (suc count) bs fields = do
  ((name, value), rest) ← decode_log_field bs fields
  decode_log_fields count rest (Dict.put name value fields)

-- The checks of the header that has been unpacked.
unfoldable pub check_log_header : List ℕ → ℕ → Result LogError (Unit {0})
check_log_header v size = do
  raise_if
      (not (get_or v 0 0 == log_magic)
        || (not (get_or v 1 0 == 1)
            || (ltb 0 (get_or v 2 0) || (not (get_or v 3 0 == 100) || not (get_or v 4 0 == size)))))
      invalid_header
  raise_if
      (ltb 3 (get_or v 5 0)
        || (not (is_level (get_or v 6 0)) || (ltb 32 (get_or v 7 0) || not (get_or v 10 0 == 0))))
      invalid_header_value
  raise_if
      (ltb 1024 (get_or v 8 0)
        || (ltb 32768 (get_or v 9 0) || ltb size (100 + get_or v 8 0 + get_or v 9 0)))
      invalid_text_bounds

unfoldable pub log_record_of : List ℕ → Bytes → Result LogError LogRecord
log_record_of v packet =
    let body = drop 100 packet in
    do
      check_log_header v (length packet)
      category ← or_raise (utf8_decode (take (get_or v 8 0) body)) text_not_utf8
      message ←
          or_raise (utf8_decode (take (get_or v 9 0) (drop (get_or v 8 0) body))) text_not_utf8
      (fields, rest) ←
          decode_log_fields (get_or v 7 0) (drop (get_or v 9 0) (drop (get_or v 8 0) body)) []
      raise_if (not (length rest == 0)) trailing_data
      ok (record {
        level = get_or v 6 0;
        message = message;
        category = category;
        fields = fields;
        sequence = get_or v 11 0;
        time_ns = get_or v 12 0;
        context = record {
          session = get_or v 13 0;
          submission = get_or v 14 0;
          invocation = get_or v 15 0;
          operation = get_or v 16 0;
        };
        flags = get_or v 5 0;
        dropped_before = get_or v 17 0;
      })

-- `decode_log_record`
unfoldable pub decode_log_record : Bytes → Result LogError LogRecord
decode_log_record packet = do
  raise_if (ltb (length packet) 100 || ltb 65536 (length packet)) invalid_packet_size
  log_record_of (unpack log_header_widths packet) packet
