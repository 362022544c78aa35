-- ===== src/Log/RoundTrip.antt =====
-- packages/wmfs-plugin/wmfs_plugin/log_codec.py: a log record that has room is read back.
use mathlib.Core.Path.{subst}
use Prim.Native.Nat.{min}
use wmfs.Common.{
  ℕ, suc, ◌+◌, ◌-◌, ◌≤◌, ◌<◌, Bool, true, false, not, ◌||◌, none, List, [], ◌∷◌, ◌++◌, append_assoc,
  append-nil, ltb, ◌≡◌, refl, sym, ap, ◌∙◌, arith, length, take, take-all, ok, raise_if, ok_inj,
  first_ok, then-eq-ok, raise_if-pass, All,
}
use wmfs.Common.Dict
use wmfs.Common.Dict.{Dict, UniqueKeys, UniqueKeys-fresh, put-fresh}
use wmfs.Common.Utf8.{Text}
use wmfs.Common.Text.{encoded_length, text_eq}
use wmfs.Common.Bytes.{Bytes}
use wmfs.Ring.Record.Encode.{join}
use wmfs.Log.{LogValue, LogRecord, is_level, invalid_level}
use wmfs.Log.Encode.{
  fit_text, encode_log_field, encode_log_fields, with_truncated, log_packet, encode_log_record,
}
use wmfs.Log.Decode.{decode_log_field, decode_log_fields, decode_log_record}
use wmfs.Log.Fronts.{fit_text-whole}
use wmfs.Log.Fields.{field_size, decode_log_field-encode_log_field}
use wmfs.Log.Bounds.{encode_log_record-fits}
use wmfs.Log.Packets.{decode-log_packet}

abbrev pub fields_size : List (Text × LogValue) → ℕ
fields_size [] = 0
fields_size (item ∷ items) = field_size item + fields_size items

abbrev pub IsNamed : Text × LogValue → Type 0
IsNamed (name, v) = (0 < encoded_length name) × (encoded_length name ≤ 255)

-- The record fits the limit as it is.
abbrev pub HasRoom : LogRecord → ℕ → Type 0
HasRoom r limit =
    (encoded_length r.category ≤ 1024)
    × (encoded_length r.message ≤ 32768)
    × (length r.fields ≤ 32)
    × All IsNamed r.fields
    × UniqueKeys r.fields
    × (100 + (encoded_length r.category + encoded_length r.message) + fields_size r.fields ≤ limit)

-- A field that is read and is new goes behind those that have been read.
one_more :
    (n : ℕ) (name : Text) (v : LogValue) (bs rest : Bytes) (seen : Dict Text LogValue)
    → decode_log_field bs seen ≡ ok ((name, v), rest)
    → Dict.get name seen ≡ none
    → decode_log_fields (suc n) bs seen ≡ decode_log_fields n rest (seen ++ (name, v) ∷ [])
unfolding decode_log_fields
one_more n name v bs rest seen read fresh =
    rw read (ap (decode_log_fields n rest) (put-fresh name v seen fresh))

-- Fields that have room are encoded whole, and are read back behind those that have been read.
pub decode_log_fields-encode_log_fields :
    (limit used : ℕ) (items : List (Text × LogValue)) {parts : List Bytes} {cut : Bool}
    → encode_log_fields limit used items ≡ ok (parts, cut)
    → All IsNamed items
    → used + fields_size items ≤ limit
    → (length parts ≡ length items)
      × (cut ≡ false)
      × ((rest : Bytes) (seen : Dict Text LogValue)
          → UniqueKeys (seen ++ items)
          → decode_log_fields (length items) (join parts ++ rest) seen ≡ ok (seen ++ items, rest))
unfolding encode_log_fields decode_log_fields
decode_log_fields-encode_log_fields limit used [] {parts} {cut} h named room =
    let same = ok_inj h in
    let none_left : [] ≡ parts = ap (λ (p : List Bytes × Bool). p.0) same in
    let whole : false ≡ cut = ap (λ (p : List Bytes × Bool). p.1) same in
    (
      ap length (sym none_left),
      sym whole,
      λ rest seen unique.
          ap (λ ps. ok (seen, join ps ++ rest)) (sym none_left)
          ∙ ap (λ d. ok (d, rest)) (sym (append-nil seen)),
    )
decode_log_fields-encode_log_fields limit used ((name, v) ∷ items) {parts} {cut} h named room =
    let ((part, part_cut), made, h1) = first_ok (encode_log_field limit used (name, v)) _ h in
    let (size, part_whole, read) =
      decode_log_field-encode_log_field limit used name v made (named.0.0) (named.0.1)
        (omega (arith, room)) in
    let fits : ltb limit (used + length part) ≡ false = ground (arith, size, room) in
    let (found, others, h2) =
      first_ok (encode_log_fields limit (used + length part) items) _ (rw fits at h1) in
    let (count, rest_whole, read_rest) =
      decode_log_fields-encode_log_fields limit (used + length part) items others named.1
        (omega (arith, size, room)) in
    let same = ok_inj h2 in
    let bytes : part ∷ found.0 ≡ parts = ap (λ (p : List Bytes × Bool). p.0) same in
    let flag : (part_cut || found.1) ≡ cut = ap (λ (p : List Bytes × Bool). p.1) same in
    (
      ap length (sym bytes) ∙ ap suc count,
      sym flag ∙ rw (part_whole, rest_whole) refl,
      λ rest seen unique.
          let fresh = UniqueKeys-fresh name v seen items unique in
          let whole : (part ++ join (found.0)) ++ rest ≡ part ++ (join (found.0) ++ rest) =
            append_assoc part (join (found.0)) rest in
          let shifted : (seen ++ (name, v) ∷ []) ++ items ≡ seen ++ (name, v) ∷ items =
            append_assoc seen ((name, v) ∷ []) items in
          let tail =
            read_rest rest (seen ++ (name, v) ∷ []) (subst UniqueKeys (sym shifted) unique) in
          ap (λ ps. decode_log_fields (suc (length items)) (join ps ++ rest) seen) (sym bytes)
          ∙ ap (λ bs. decode_log_fields (suc (length items)) bs seen) whole
          ∙ one_more (length items) name v _ (join (found.0) ++ rest) seen
              (read (join (found.0) ++ rest) seen fresh) fresh
          ∙ tail
          ∙ ap (λ d. ok (d, rest)) shifted,
    )

untruncated :
    (flags : ℕ) (a b c d : Bool)
    → a ≡ false
    → b ≡ false
    → c ≡ false
    → d ≡ false
    → with_truncated flags (a || (b || (c || d))) ≡ flags
unfolding with_truncated
untruncated flags a b c d ha hb hc hd = rw (ha, hb, hc, hd) refl

-- A record that encode_log_record encodes is what decode_log_record makes of the packet, where the
-- record has room: at most 32 fields, no two of a name, each name of 1 to 255 bytes in UTF-8, a
-- category of at most 1024 and a message of at most 32768 bytes, and the limit is not less than the
-- header, the two texts and the fields together.
pub decode_log_record-encode_log_record :
    (r : LogRecord) (limit : ℕ) {packet : Bytes}
    → HasRoom r limit
    → encode_log_record r limit ≡ ok packet
    → decode_log_record packet ≡ ok r
unfolding encode_log_record
decode_log_record-encode_log_record r limit {packet} (short, long, few, named, unique, room) h =
    let bounds = encode_log_record-fits r limit h in
    let (valid, h1) =
      then-eq-ok
        (raise_if (not (is_level r.level) || (ltb limit 100 || ltb 65536 limit)) invalid_level) _
        h in
    let level : is_level r.level ≡ true = ground (arith, raise_if-pass _ _ valid) in
    let ((category, category_cut), fits_category, h2) =
      first_ok (fit_text r.category (min 1024 (limit - 100))) _ h1 in
    let ((message, message_cut), fits_message, h3) =
      first_ok (fit_text r.message (min 32768 (limit - 100 - length category))) _ h2 in
    let ((parts, fields_cut), made, h4) =
      first_ok
        (encode_log_fields limit (100 + (length category + length message)) (take 32 r.fields)) _
        h3 in
    let (category_bytes, category_size, category_whole) =
      fit_text-whole r.category (min 1024 (limit - 100)) fits_category
        (omega (arith, short, room)) in
    let (message_bytes, message_size, message_whole) =
      fit_text-whole r.message (min 32768 (limit - 100 - length category)) fits_message
        (omega (arith, long, room, category_size)) in
    let all_fields : take 32 r.fields ≡ r.fields = take-all 32 r.fields few in
    let made_all =
      subst
        (λ items.
          encode_log_fields limit (100 + (length category + length message)) items
          ≡ ok (parts, fields_cut))
        all_fields made in
    let (count, fields_whole, read) =
      decode_log_fields-encode_log_fields limit (100 + (length category + length message)) r.fields
        made_all named (omega (arith, room, category_size, message_size)) in
    let no_more : ltb 32 (length r.fields) ≡ false = ground (arith, few) in
    let same_flags =
      untruncated r.flags _ _ _ _ no_more category_whole message_whole fields_whole in
    let h5 = subst (λ flags. log_packet r flags category message parts ≡ ok packet) same_flags h4 in
    let fields : decode_log_fields (length parts) (join parts) [] ≡ ok (r.fields, []) =
      ap (λ n. decode_log_fields n (join parts) []) count
      ∙ ap (λ bs. decode_log_fields (length r.fields) bs []) (sym (append-nil (join parts)))
      ∙ read [] [] unique in
    decode-log_packet r category message parts h5 (omega (arith, bounds)) level
      (omega (arith, count, few)) (omega (arith, category_size, short))
      (omega (arith, message_size, long)) category_bytes message_bytes fields
