-- ===== src/Log/Bounds.antt =====
-- packages/wmfs-plugin/wmfs_plugin/log_codec.py: a packet is within the limit, whatever is cut.
use mathlib.Core.Path.{subst}
use Prim.Native.Nat.{min}
use wmfs.Common.{
  ℕ, ◌+◌, ◌-◌, ◌≤◌, Bool, not, ◌||◌, List, [], ◌∷◌, ◌++◌, ltb, Bool-cases, inl, inr, ◌≡◌, sym, ap,
  ◌∙◌, arith, length, take, length-append, ok, raise_if, or_raise, or_raise-eq-ok, ok_inj, first_ok,
  then-eq-ok, raise_if-pass,
}
use wmfs.Common.Utf8.{Text}
use wmfs.Common.Bytes.{Bytes, pack, pack-Holds}
use wmfs.Ring.Record.Encode.{join}
use wmfs.Log.{LogValue, LogRecord, is_level, invalid_level, struct_error, unknown_flags}
use wmfs.Log.Encode.{
  fit_text, encode_log_field, encode_log_fields, log_header, log_packet, encode_log_record,
}
use wmfs.Log.Fronts.{fit_text-fits}

-- The loop over the fields never goes over the limit, and there is no more than one part for each.
pub encode_log_fields-fits :
    (limit used : ℕ) (items : List (Text × LogValue)) {parts : List Bytes} {cut : Bool}
    → encode_log_fields limit used items ≡ ok (parts, cut)
    → used ≤ limit
    → (used + length (join parts) ≤ limit) × (length parts ≤ length items)
unfolding encode_log_fields
encode_log_fields-fits limit used [] {parts} {cut} h room =
    let none_left : [] ≡ parts = ap (λ (p : List Bytes × Bool). p.0) (ok_inj h) in
    subst (λ ps. (used + length (join ps) ≤ limit) × (length ps ≤ 0)) none_left
      (omega arith, omega arith)
encode_log_fields-fits limit used (item ∷ items) {parts} {cut} h room =
    let ((part, part_cut), made, h1) = first_ok (encode_log_field limit used item) _ h in
    elim (Bool-cases (ltb limit (used + length part))) [
      | inl full ↦
          let none_left : [] ≡ parts =
            ap (λ (p : List Bytes × Bool). p.0) (ok_inj (rw full at h1)) in
          subst (λ ps. (used + length (join ps) ≤ limit) × (length ps ≤ length (item ∷ items)))
            none_left (omega arith, omega arith)
      | inr fits ↦
          let (found, others, h2) =
            first_ok (encode_log_fields limit (used + length part) items) _ (rw fits at h1) in
          let (rest, count) =
            encode_log_fields-fits limit (used + length part) items others (ground arith) in
          let same : part ∷ found.0 ≡ parts = ap (λ (p : List Bytes × Bool). p.0) (ok_inj h2) in
          subst (λ ps. (used + length (join ps) ≤ limit) × (length ps ≤ length (item ∷ items))) same
            (omega (arith, rest, length-append part (join (found.0))), omega (arith, count))
    ]

pub length-log_packet :
    (r : LogRecord) (flags : ℕ) (category message : Bytes) (parts : List Bytes) {packet : Bytes}
    → log_packet r flags category message parts ≡ ok packet
    → length packet ≡ 100 + (length category + length message + length (join parts))
unfolding log_packet
length-log_packet r flags category message parts {packet} h =
    let (known, h1) = then-eq-ok (raise_if (ltb 3 flags) unknown_flags) _ h in
    let (header, packs, h2) =
      first_ok (or_raise (pack (log_header r flags category message parts)) struct_error) _ h1 in
    let held =
      pack-Holds (log_header r flags category message parts)
        (or_raise-eq-ok _ struct_error packs) in
    ap length (sym (ok_inj h2))
    ∙ omega (
      arith,
      length-append header (category ++ (message ++ join parts)),
      length-append category (message ++ join parts),
      length-append message (join parts),
      held.0,
    )

-- A packet that encode_log_record makes has at least 100 bytes and no more than the limit, which is
-- at most 65536, whatever has been cut to make it fit.
pub encode_log_record-fits :
    (r : LogRecord) (limit : ℕ) {packet : Bytes}
    → encode_log_record r limit ≡ ok packet
    → (100 ≤ length packet) × (length packet ≤ limit) × (limit ≤ 65536)
unfolding encode_log_record
encode_log_record-fits r limit {packet} h =
    let (valid, h1) =
      then-eq-ok
        (raise_if (not (is_level r.level) || (ltb limit 100 || ltb 65536 limit)) invalid_level) _
        h in
    let low : 100 ≤ limit = ground (arith, raise_if-pass _ _ valid) in
    let high : limit ≤ 65536 = ground (arith, raise_if-pass _ _ valid) in
    let ((category, category_cut), fits_category, h2) =
      first_ok (fit_text r.category (min 1024 (limit - 100))) _ h1 in
    let ((message, message_cut), fits_message, h3) =
      first_ok (fit_text r.message (min 32768 (limit - 100 - length category))) _ h2 in
    let ((parts, fields_cut), made, h4) =
      first_ok
        (encode_log_fields limit (100 + (length category + length message)) (take 32 r.fields)) _
        h3 in
    let c = fit_text-fits r.category (min 1024 (limit - 100)) fits_category in
    let m = fit_text-fits r.message (min 32768 (limit - 100 - length category)) fits_message in
    let f =
      encode_log_fields-fits limit (100 + (length category + length message)) (take 32 r.fields)
        made (omega (arith, c, m, low)) in
    let size = length-log_packet r _ category message parts h4 in
    (omega (arith, size), omega (arith, size, f.0), high)
