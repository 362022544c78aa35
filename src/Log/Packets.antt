-- ===== src/Log/Packets.antt =====
-- packages/wmfs-plugin/wmfs_plugin/log_codec.py: the packet of the parts of a record.
use wmfs.Common.{
  ℕ, ◌+◌, ◌≤◌, true, false, not, ◌||◌, some, List, [], ◌++◌, ltb, ◌==◌, ◌≡◌, refl, sym, ap, ◌∙◌,
  arith, length, take, drop, length-append, drop_front, take_front, ok, raise_if, or_raise,
  or_raise-eq-ok, ok_inj, first_ok, then-eq-ok, raise_if-pass,
}
use wmfs.Common.Utf8.{utf8_encode}
use wmfs.Common.Utf8.RoundTrip.{utf8_decode-encode}
use wmfs.Common.Text.{text_eq}
use wmfs.Common.Bytes.{Bytes, pack, pack-Holds, values_of}
use wmfs.Ring.Record.Encode.{join}
use wmfs.Log.{LogRecord, is_level, struct_error, unknown_flags}
use wmfs.Log.Encode.{log_header, log_packet}
use wmfs.Log.Decode.{decode_log_fields, check_log_header, log_record_of, decode_log_record}

-- The checks of a header that has been packed.
checked_log_header :
    (r : LogRecord) (category message : Bytes) (parts : List Bytes) (size : ℕ)
    → size ≡ 100 + length (category ++ (message ++ join parts))
    → ltb 3 r.flags ≡ false
    → is_level r.level ≡ true
    → length parts ≤ 32
    → length category ≤ 1024
    → length message ≤ 32768
    → check_log_header (values_of (log_header r r.flags category message parts)) size ≡ ok tt
unfolding check_log_header
checked_log_header r category message parts size total flags level count short long =
    let whole = length-append category (message ++ join parts) in
    let behind = length-append message (join parts) in
    let same : (not (100 + length (category ++ (message ++ join parts)) == size)) ≡ false =
      ground (arith, total) in
    let few : ltb 32 (length parts) ≡ false = ground (arith, count) in
    let small_category : ltb 1024 (length category) ≡ false = ground (arith, short) in
    let small_message : ltb 32768 (length message) ≡ false = ground (arith, long) in
    let inside : ltb size (100 + length category + length message) ≡ false =
      ground (arith, total, whole, behind) in
    rw (same, flags, level, few, small_category, small_message, inside) refl

-- The record that a packet of its parts is read as.
pub decode-log_packet :
    (r : LogRecord) (category message : Bytes) (parts : List Bytes) {packet : Bytes}
    → log_packet r r.flags category message parts ≡ ok packet
    → length packet ≤ 65536
    → is_level r.level ≡ true
    → length parts ≤ 32
    → length category ≤ 1024
    → length message ≤ 32768
    → utf8_encode r.category ≡ some category
    → utf8_encode r.message ≡ some message
    → decode_log_fields (length parts) (join parts) [] ≡ ok (r.fields, [])
    → decode_log_record packet ≡ ok r
unfolding log_packet decode_log_record log_record_of
decode-log_packet r category message parts {packet} h fits level count short long encodes_category
      encodes_message read =
    let (known, h1) = then-eq-ok (raise_if (ltb 3 r.flags) unknown_flags) _ h in
    let (header, packs, h2) =
      first_ok (or_raise (pack (log_header r r.flags category message parts)) struct_error) _ h1 in
    let held =
      pack-Holds (log_header r r.flags category message parts)
        (or_raise-eq-ok _ struct_error packs) in
    let body = category ++ (message ++ join parts) in
    let total : length (header ++ body) ≡ 100 + length body =
      omega (arith, length-append header body, held.0) in
    let sized : (ltb (length (header ++ body)) 100 || ltb 65536 (length (header ++ body))) ≡ false =
      let same = ap length (ok_inj h2) in ground (arith, total, same, fits) in
    let checks =
      checked_log_header r category message parts (length (header ++ body)) total
        (raise_if-pass _ _ known) level count short long in
    let behind : drop 100 (header ++ body) ≡ body = drop_front 100 header body held.0 in
    let category_front : take (length category) body ≡ category =
      take_front _ category (message ++ join parts) refl in
    let category_back : drop (length category) body ≡ message ++ join parts =
      drop_front _ category (message ++ join parts) refl in
    let message_front : take (length message) (message ++ join parts) ≡ message =
      take_front _ message (join parts) refl in
    let message_back : drop (length message) (message ++ join parts) ≡ join parts =
      drop_front _ message (join parts) refl in
    let category_text = utf8_decode-encode r.category encodes_category in
    let message_text = utf8_decode-encode r.message encodes_message in
    ap decode_log_record (sym (ok_inj h2))
    ∙ rw
        (
          sized,
          held.1 body,
          checks,
          behind,
          category_front,
          category_back,
          message_front,
          message_back,
          category_text,
          message_text,
          read,
        )
        refl
