-- ===== src/Log/Fields.antt =====
-- packages/wmfs-plugin/wmfs_plugin/log_codec.py: a field that has room is read back.
use mathlib.Core.Path.{subst}
use wmfs.Common.{
  ℕ, ◌+◌, ◌-◌, ◌≤◌, ◌<◌, Bool, true, false, not, ◌&&◌, ◌||◌, some, none, [], ◌++◌, append_assoc,
  ◌==◌, ltb, ◌≡◌, refl, sym, ap, ◌∙◌, arith, length, take, drop, length-append, drop_front,
  take_front, ok, raise_if, or_raise, or_raise-eq-ok, ok_inj, first_ok, then-eq-ok, raise_if-pass,
}
use wmfs.Common.Dict
use wmfs.Common.Dict.{Dict}
use wmfs.Common.Int.{pos, negsuc}
use wmfs.Common.Utf8.{Text, utf8_encode, utf8_decode}
use wmfs.Common.Utf8.RoundTrip.{utf8_decode-encode}
use wmfs.Common.Text.{encoded_length, text_eq}
use wmfs.Common.Bytes.{Bytes, pack, values_of, pack-Holds}
use wmfs.Ring.Record.{of_unsigned, masked}
use wmfs.Log.{
  LogValue, boolean, integer, real, string, unsupported, is_finite, integer_out_of_range,
  float_not_finite, struct_error,
}
use wmfs.Log.Encode.{
  fit_text, is_log_integer, kind_and_bits, value_text, log_field_head, encode_log_field,
}
use wmfs.Log.Decode.{log_value, is_stored, log_field_of, decode_log_field}
use wmfs.Log.Fronts.{fit_text-whole}

-- The number of bytes of a value's text, and of a field.
abbrev pub value_size : LogValue → ℕ
value_size (string t) = encoded_length t
value_size _ = 0

abbrev pub field_size : Text × LogValue → ℕ
field_size (name, value) = 24 + (encoded_length name + value_size value)

-- What the decoder asks of the kind, the bits and the text of a value, and that it reads the value.
abbrev ReadsValue : LogValue → ℕ → ℕ → Bytes → Type 0
ReadsValue v kind bits text =
    (t : Text) × (utf8_decode text ≡ some t)
    × (log_value kind bits t ≡ ok v)
    × ((kind == 0 || ltb 5 kind) ≡ false)
    × (((not (kind == 5) && not (length text == 0)) || (kind == 5 && not (bits == 0))) ≡ false)

decodes_empty : utf8_decode [] ≡ some []
unfolding utf8_encode
decodes_empty = utf8_decode-encode [] refl

-- A value without a text, from its kind and its bits.
plain :
    (v : LogValue) (kind bits : ℕ) {k : ℕ} {n : ℕ} {text : Bytes} {cut : Bool}
    → ◌≡◌ {A = ℕ × ℕ} (kind, bits) (k, n)
    → ◌≡◌ {A = Bytes × Bool} ([], false) (text, cut)
    → ReadsValue v kind bits []
    → ReadsValue v k n text × (length text ≡ 0) × (cut ≡ false)
plain v kind bits {k} {n} {text} {cut} same empty h =
    let bytes : [] ≡ text = ap (λ (p : Bytes × Bool). p.0) empty in
    let whole : false ≡ cut = ap (λ (p : Bytes × Bool). p.1) empty in
    (
      subst (λ b. ReadsValue v k n b) bytes (subst (λ (p : ℕ × ℕ). ReadsValue v p.0 p.1 []) same h),
      ap length (sym bytes),
      sym whole,
    )

of_unsigned-masked :
    (n : ℕ) → is_log_integer (negsuc n) ≡ true → of_unsigned (masked (negsuc n)) ≡ negsuc n
unfolding of_unsigned masked is_log_integer
of_unsigned-masked n h = ground (arith, h)

masked-pos : (n : ℕ) → is_log_integer (pos n) ≡ true → masked (pos n) ≡ n
unfolding masked is_log_integer
masked-pos n h = ground (arith, h)

pub value_text-reads :
    (v : LogValue) (available : ℕ) {kind bits : ℕ} {text : Bytes} {cut : Bool}
    → kind_and_bits v ≡ ok (kind, bits)
    → value_text v available ≡ ok (text, cut)
    → value_size v ≤ available
    → ReadsValue v kind bits text × (length text ≡ value_size v) × (cut ≡ false)
unfolding kind_and_bits value_text log_value
value_text-reads (boolean true) available h e room =
    plain (boolean true) 1 1 (ok_inj h) (ok_inj e) ([], decodes_empty, refl, refl, refl)
value_text-reads (boolean false) available h e room =
    plain (boolean false) 1 0 (ok_inj h) (ok_inj e) ([], decodes_empty, refl, refl, refl)
value_text-reads (integer (pos n)) available h e room =
    let (fits, h1) =
      then-eq-ok (raise_if (not (is_log_integer (pos n))) integer_out_of_range) _ h in
    let inside : is_log_integer (pos n) ≡ true = ground (arith, raise_if-pass _ _ fits) in
    plain (integer (pos n)) 3 (masked (pos n)) (ok_inj h1) (ok_inj e)
      ([], decodes_empty, ap (λ m. ok (integer (pos m))) (masked-pos n inside), refl, refl)
value_text-reads (integer (negsuc n)) available h e room =
    let (fits, h1) =
      then-eq-ok (raise_if (not (is_log_integer (negsuc n))) integer_out_of_range) _ h in
    let inside : is_log_integer (negsuc n) ≡ true = ground (arith, raise_if-pass _ _ fits) in
    plain (integer (negsuc n)) 2 (masked (negsuc n)) (ok_inj h1) (ok_inj e)
      ([], decodes_empty, ap (λ z. ok (integer z)) (of_unsigned-masked n inside), refl, refl)
value_text-reads (real bits) available h e room =
    let (fits, h1) = then-eq-ok (raise_if (not (is_finite bits)) float_not_finite) _ h in
    let finite : is_finite bits ≡ true = ground (arith, raise_if-pass _ _ fits) in
    plain (real bits) 4 bits (ok_inj h1) (ok_inj e) ([], decodes_empty, rw finite refl, refl, refl)
value_text-reads (string t) available {kind} {bits} {text} h e room =
    let (encodes, size, whole) = fit_text-whole t available e room in
    (
      subst (λ (p : ℕ × ℕ). ReadsValue (string t) p.0 p.1 text) (ok_inj h)
          (t, utf8_decode-encode t encodes, refl, refl, refl),
      size,
      whole,
    )
value_text-reads unsupported available h e room = absurd (cc h)

-- The field that its parts are read as, with what is behind it.
log_field_of-head :
    (name : Text) (v : LogValue) (kind bits : ℕ) (name_data text rest : Bytes)
    (fields : Dict Text LogValue)
    → utf8_encode name ≡ some name_data
    → 0 < length name_data
    → length name_data ≤ 255
    → ReadsValue v kind bits text
    → Dict.get name fields ≡ none
    → log_field_of
        (values_of (log_field_head kind bits name_data text))
        (name_data ++ (text ++ rest))
        fields
      ≡ ok ((name, v), rest)
unfolding log_field_of
log_field_of-head name v kind bits name_data text rest fields encodes some_name short
      (t, decodes, value, known, consistent) fresh =
    let front : take (length name_data) (name_data ++ (text ++ rest)) ≡ name_data =
      take_front _ name_data (text ++ rest) refl in
    let back : drop (length name_data) (name_data ++ (text ++ rest)) ≡ text ++ rest =
      drop_front _ name_data (text ++ rest) refl in
    let text_front : take (length text) (text ++ rest) ≡ text = take_front _ text rest refl in
    let text_back : drop (length text) (text ++ rest) ≡ rest = drop_front _ text rest refl in
    let named = utf8_decode-encode name encodes in
    let nonempty : (length name_data == 0) ≡ false = ground (arith, some_name) in
    let small : ltb 255 (length name_data) ≡ false = ground (arith, short) in
    let size : length (name_data ++ (text ++ rest))
        ≡ length name_data + (length text + length rest) =
      omega (arith, length-append name_data (text ++ rest), length-append text rest) in
    let inside : ltb (length (name_data ++ (text ++ rest))) (length name_data + length text)
        ≡ false =
      ground (arith, size) in
    let absent : is_stored name fields ≡ false = rw fresh refl in
    rw
      (
        known, nonempty, small, inside, front, back, text_front, text_back, named, decodes, absent,
        consistent, value,
      )
      refl

log_field_of-part :
    (name : Text) (v : LogValue) (kind bits : ℕ) (head name_data text : Bytes) (rest : Bytes)
    (fields : Dict Text LogValue)
    → utf8_encode name ≡ some name_data
    → 0 < length name_data
    → length name_data ≤ 255
    → ReadsValue v kind bits text
    → pack (log_field_head kind bits name_data text) ≡ some head
    → Dict.get name fields ≡ none
    → decode_log_field ((head ++ (name_data ++ text)) ++ rest) fields ≡ ok ((name, v), rest)
unfolding decode_log_field
log_field_of-part name v kind bits head name_data text rest fields encodes some_name short reads
      packs fresh =
    let held = pack-Holds (log_field_head kind bits name_data text) packs in
    let tail = name_data ++ (text ++ rest) in
    let whole : (head ++ (name_data ++ text)) ++ rest ≡ head ++ tail =
      append_assoc head (name_data ++ text) rest
      ∙ ap (λ bs. head ++ bs) (append_assoc name_data text rest) in
    let long : ltb (length (head ++ tail)) 24 ≡ false =
      let size = length-append head tail in ground (arith, size, held.0) in
    let behind : drop 24 (head ++ tail) ≡ tail = drop_front 24 head tail held.0 in
    let read =
      log_field_of-head name v kind bits name_data text rest fields encodes some_name short reads
        fresh in
    rw (whole, long, held.1 tail, behind) read

-- A field that has room is encoded whole, and it is read back from its bytes.
pub decode_log_field-encode_log_field :
    (limit used : ℕ) (name : Text) (v : LogValue) {part : Bytes} {cut : Bool}
    → encode_log_field limit used (name, v) ≡ ok (part, cut)
    → 0 < encoded_length name
    → encoded_length name ≤ 255
    → used + field_size (name, v) ≤ limit
    → (length part ≡ field_size (name, v))
      × (cut ≡ false)
      × ((rest : Bytes) (fields : Dict Text LogValue)
          → Dict.get name fields ≡ none
          → decode_log_field (part ++ rest) fields ≡ ok ((name, v), rest))
unfolding encode_log_field
decode_log_field-encode_log_field limit used name v {part} {cut} h some_name short room =
    let ((name_data, name_cut), fits, h1) = first_ok (fit_text name 255) _ h in
    let ((kind, bits), known, h2) = first_ok (kind_and_bits v) _ h1 in
    let ((text, text_cut), valued, h3) =
      first_ok (value_text v (limit - used - 24 - length name_data)) _ h2 in
    let (head, packs, h4) =
      first_ok (or_raise (pack (log_field_head kind bits name_data text)) struct_error) _ h3 in
    let (encodes, name_size, name_whole) = fit_text-whole name 255 fits short in
    let (reads, text_size, text_whole) =
      value_text-reads v (limit - used - 24 - length name_data) known valued
        (omega (arith, name_size, room)) in
    let packed_head =
      or_raise-eq-ok (pack (log_field_head kind bits name_data text)) struct_error packs in
    let held = pack-Holds (log_field_head kind bits name_data text) packed_head in
    let same = ok_inj h4 in
    let bytes : head ++ (name_data ++ text) ≡ part = ap (λ (p : Bytes × Bool). p.0) same in
    let flag : (name_cut || text_cut) ≡ cut = ap (λ (p : Bytes × Bool). p.1) same in
    (
      ap length (sym bytes)
          ∙ omega (
            arith,
            length-append head (name_data ++ text),
            length-append name_data text,
            held.0,
            name_size,
            text_size,
          ),
      sym flag ∙ rw (name_whole, text_whole) refl,
      λ rest fields fresh.
          ap (λ p. decode_log_field (p ++ rest) fields) (sym bytes)
          ∙ log_field_of-part name v kind bits head name_data text rest fields encodes
              (omega (arith, name_size, some_name)) (omega (arith, name_size, short)) reads
              packed_head fresh,
    )
