-- ===== src/Log/Encode.antt =====
-- packages/wmfs-plugin/wmfs_plugin/log_codec.py: `_text` and `encode_log_record`. A `bytearray` that
-- is extended is the concatenation of what it is extended by.
use wmfs.Common.{
  ℕ, ◌+◌, ◌-◌, ◌^◌, Bool, true, false, not, ◌&&◌, ◌||◌, List, [], ◌∷◌, ◌++◌, ◌==◌, ltb, leb,
  if◌then◌else◌, length, take, Result, ok, err, ◌>>=◌, ◌>>◌, raise_if, or_raise,
}
use Prim.Native.Nat.{min, ◌%◌}
use wmfs.Common.Int.{ℤ, pos, negsuc, is_negative}
use wmfs.Common.Utf8.{Text, utf8_encode, encode_char}
use wmfs.Common.Bytes.{Bytes, pack}
use wmfs.Ring.Record.{masked}
use wmfs.Ring.Record.Encode.{as_flag, join}
use wmfs.Log.{
  LogError, invalid_level, integer_out_of_range, float_not_finite, unsupported_field, unknown_flags,
  not_encodable, struct_error, LogValue, boolean, integer, real, string, unsupported, LogRecord,
  is_level, is_finite, log_magic,
}

-- encoded[:limit].decode("utf-8", "ignore").encode(), of a text's encoding: the characters that are
-- whole within the limit. The bytes of the next one that the cut has left are ignored.
unfoldable pub front_bytes : ℕ → Text → Bytes
front_bytes limit [] = []
front_bytes limit (c ∷ cs) =
    let rest = front_bytes (limit - length (encode_char c)) cs in
    if leb (length (encode_char c)) limit then encode_char c ++ rest else []

-- `_text`
unfoldable pub fit_text : Text → ℕ → Result LogError (Bytes × Bool)
fit_text value limit = do
  encoded ← or_raise (utf8_encode value) not_encodable
  ok (if leb (length encoded) limit then (encoded, false) else (front_bytes limit value, true))

-- -(1 << 63) <= value <= 0xFFFFFFFFFFFFFFFF
unfoldable pub is_log_integer : ℤ → Bool
is_log_integer (pos n) = ltb n (2 ^ 64)
is_log_integer (negsuc n) = ltb n (2 ^ 63)

-- `kind` and `bits` of a value
unfoldable pub kind_and_bits : LogValue → Result LogError (ℕ × ℕ)
kind_and_bits (boolean b) = ok (1, as_flag b)
kind_and_bits (integer z) = do
  raise_if (not (is_log_integer z)) integer_out_of_range
  ok (if is_negative z then 2 else 3, masked z)
kind_and_bits (real bits) = do raise_if (not (is_finite bits)) float_not_finite; ok (4, bits)
kind_and_bits (string t) = ok (5, 0)
kind_and_bits unsupported = err unsupported_field

-- `text` of a value and whether it is cut
unfoldable pub value_text : LogValue → ℕ → Result LogError (Bytes × Bool)
value_text (string t) available = fit_text t available
value_text _ available = ok ([], false)

abbrev pub log_field_head : ℕ → ℕ → Bytes → Bytes → List (ℕ × ℕ)
log_field_head kind bits name_data text =
    (2, kind) ∷ (2, 0) ∷ (4, length name_data) ∷ (4, length text) ∷ (8, bits) ∷ (4, 0) ∷ []

-- `part` of a field and whether a text of it is cut, where `used` bytes are before it.
unfoldable pub encode_log_field : ℕ → ℕ → Text × LogValue → Result LogError (Bytes × Bool)
encode_log_field limit used (name, value) = do
  (name_data, name_cut) ← fit_text name 255
  (kind, bits) ← kind_and_bits value
  (text, text_cut) ← value_text value (limit - used - 24 - length name_data)
  head ← or_raise (pack (log_field_head kind bits name_data text)) struct_error
  ok (head ++ (name_data ++ text), name_cut || text_cut)

-- The loop over the fields, which a field ends that has no room.
unfoldable pub encode_log_fields :
    ℕ → ℕ → List (Text × LogValue) → Result LogError (List Bytes × Bool)
encode_log_fields limit used [] = ok ([], false)
encode_log_fields limit used (item ∷ items) = do
  (part, cut) ← encode_log_field limit used item
  let rest = encode_log_fields limit (used + length part) items in
      if ltb limit (used + length part)
      then ok ([], true)
      else (rest >>= λ found. ok (part ∷ found.0, cut || found.1))

-- record.flags | (FLAG_TRUNCATED if truncated else 0)
unfoldable pub with_truncated : ℕ → Bool → ℕ
with_truncated flags truncated = if truncated && flags % 2 == 0 then flags + 1 else flags

abbrev pub log_header : LogRecord → ℕ → Bytes → Bytes → List Bytes → List (ℕ × ℕ)
log_header r flags category message parts =
    (8, log_magic)
    ∷ (2, 1)
    ∷ (2, 0)
    ∷ (4, 100)
    ∷ (4, 100 + length (category ++ (message ++ join parts)))
    ∷ (4, flags)
    ∷ (4, r.level)
    ∷ (4, length parts)
    ∷ (4, length category)
    ∷ (4, length message)
    ∷ (4, 0)
    ∷ (8, r.sequence)
    ∷ (8, r.time_ns)
    ∷ (8, r.context.session)
    ∷ (8, r.context.submission)
    ∷ (8, r.context.invocation)
    ∷ (8, r.context.operation)
    ∷ (8, r.dropped_before)
    ∷ []

-- The packet of the parts that have been made.
unfoldable pub log_packet : LogRecord → ℕ → Bytes → Bytes → List Bytes → Result LogError Bytes
log_packet r flags category message parts = do
  raise_if (ltb 3 flags) unknown_flags
  header ← or_raise (pack (log_header r flags category message parts)) struct_error
  ok (header ++ (category ++ (message ++ join parts)))

-- `encode_log_record`
unfoldable pub encode_log_record : LogRecord → ℕ → Result LogError Bytes
encode_log_record r limit = do
  raise_if (not (is_level r.level) || (ltb limit 100 || ltb 65536 limit)) invalid_level
  (category, category_cut) ← fit_text r.category (min 1024 (limit - 100))
  (message, message_cut) ← fit_text r.message (min 32768 (limit - 100 - length category))
  (parts, fields_cut) ←
      encode_log_fields limit (100 + (length category + length message)) (take 32 r.fields)
  log_packet r
      (with_truncated r.flags
        (ltb 32 (length r.fields) || (category_cut || (message_cut || fields_cut))))
      category message parts
