-- ===== src/Ring/Record/Areas.antt =====
-- The areas of a record: loops over slots, the profile and the error.
use mathlib.Core.Path.{subst}
use wmfs.Common.{
  ℕ, suc, ◌*◌, ◌-◌, ◌≤◌, false, not, some, List, [], ◌∷◌, ◌++◌, append_assoc, ◌==◌, ltb, ◌≡◌, refl,
  sym, ap, ◌∙◌, arith, any, replicate, length, take, drop, length-append, length-take, drop_front,
  take_front, take-all, Result, ok, raise_if, or_raise, or_raise-eq-ok, collect_all, ok_inj,
  first_ok, then-eq-ok, raise_if-pass, All,
}
use wmfs.Common.Utf8.{Text, utf8_encode, utf8_decode}
use wmfs.Common.Utf8.RoundTrip.{utf8_decode-encode}
use wmfs.Common.Text.{encoded_length, encoded_length-eq}
use wmfs.Common.Bytes.{Bytes, values_of, widths_of, size_of, unpack, drop-drop}
use wmfs.Ring.Record.{RecordError, area, not_unicode, invalid_profile, profile_widths}
use wmfs.Ring.Record.Signed.{length-area, take-area, drop-area, any-zeros, is_nonzero}
use wmfs.Ring.Record.Encode.{
  packed_or_error, join, error_head_fields, encode_error_area, encode_profile, eight_bytes,
}
use wmfs.Ring.Record.Decode.{read_slots, error_of, decode_error_area}
use wmfs.Ring.Record.Items.{packed_or_error-Holds}

-- A loop reads back what a loop has written, whatever follows it.
pub read_slots-collect_all {ℓ κ} :
    {A : Type ℓ} (Fits : A → Type κ) (write : A → Result RecordError Bytes)
    (read : Bytes → Result RecordError A) (size : ℕ)
    → ((x : A) (bs : Bytes) (rest : Bytes)
        → Fits x
        → write x ≡ ok bs
        → (length bs ≡ size) × (read (bs ++ rest) ≡ ok x))
    → (xs : List A) {parts : List Bytes} (rest : Bytes) → All Fits xs
    → collect_all write xs ≡ ok parts
    → (length (join parts) ≡ length xs * size)
      × (read_slots read size (length xs) (join parts ++ rest) ≡ ok xs)
unfolding read_slots
read_slots-collect_all Fits write read size slot [] {parts} rest fits h =
    subst (λ ps. (length (join ps) ≡ 0 * size) × (read_slots read size 0 (join ps ++ rest) ≡ ok []))
      (ok_inj h) (omega arith, refl)
read_slots-collect_all Fits write read size slot (x ∷ xs) {parts} rest fits h =
    let (bs, written, h1) = first_ok (write x) _ h in
    let (others, more, h2) = first_ok (collect_all write xs) _ h1 in
    let one = slot x bs (join others ++ rest) (fits.0) written in
    let all = read_slots-collect_all Fits write read size slot xs rest fits.1 more in
    let whole : (bs ++ join others) ++ rest ≡ bs ++ (join others ++ rest) =
      append_assoc bs (join others) rest in
    let later : drop size (bs ++ (join others ++ rest)) ≡ join others ++ rest =
      drop_front size bs (join others ++ rest) (one.0) in
    let count : length (bs ++ join others) ≡ suc (length xs) * size =
      omega (arith, length-append bs (join others), one.0, all.0) in
    subst
      (λ ps.
        (length (join ps) ≡ suc (length xs) * size)
        × (read_slots read size (suc (length xs)) (join ps ++ rest) ≡ ok (x ∷ xs)))
      (ok_inj h2) (count, rw (whole, one.1, later, all.1) refl)

-- The profile is read back.
widths_of-eight_bytes : (ns : List ℕ) → widths_of (eight_bytes ns) ≡ replicate (length ns) 8
widths_of-eight_bytes [] = refl
widths_of-eight_bytes (n ∷ ns) = ap (λ ws. 8 ∷ ws) (widths_of-eight_bytes ns)

values_of-eight_bytes : (ns : List ℕ) → values_of (eight_bytes ns) ≡ ns
values_of-eight_bytes [] = refl
values_of-eight_bytes (n ∷ ns) = ap (λ vs. n ∷ vs) (values_of-eight_bytes ns)

pub unpack-encode_profile :
    (profile : List ℕ) {bs : Bytes} (rest : Bytes)
    → encode_profile profile ≡ ok bs
    → (length bs ≡ 64) × (unpack profile_widths (bs ++ rest) ≡ profile)
unfolding encode_profile
unpack-encode_profile profile {bs} rest h =
    let (eight, h1) = then-eq-ok (raise_if (not (length profile == 8)) invalid_profile) _ h in
    let count : length profile ≡ 8 = ground (arith, raise_if-pass _ _ eight) in
    let widths : widths_of (eight_bytes profile) ≡ profile_widths =
      widths_of-eight_bytes profile ∙ ap (λ n. replicate n 8) count in
    let held = packed_or_error-Holds (eight_bytes profile) h1 in
    (
      held.0 ∙ ap size_of widths,
      ap (λ ws. unpack ws (bs ++ rest)) (sym widths) ∙ held.1 rest ∙ values_of-eight_bytes profile,
    )

-- A text that its area has room for is not cut.
error_of-fields :
    (error_type error_message : Text) (a b : Bytes)
    → utf8_encode error_type ≡ some a
    → utf8_encode error_message ≡ some b
    → length a ≤ 64
    → length b ≤ 1024
    → error_of (values_of (error_head_fields a b)) (area 64 (take 64 a)) (area 1024 (take 1024 b))
      ≡ ok (error_type, error_message)
unfolding error_of
error_of-fields error_type error_message a b ea eb short_a short_b =
    let whole_a = take-all 64 a short_a in
    let whole_b = take-all 1024 b short_b in
    let long_a : ltb 64 (length a) ≡ false = ground (arith, short_a) in
    let long_b : ltb 1024 (length b) ≡ false = ground (arith, short_b) in
    let clean_a : any is_nonzero (drop (length a) (area 64 a)) ≡ false =
      ap (any is_nonzero) (drop-area 64 a) ∙ any-zeros (64 - length a) in
    let clean_b : any is_nonzero (drop (length b) (area 1024 b)) ≡ false =
      ap (any is_nonzero) (drop-area 1024 b) ∙ any-zeros (1024 - length b) in
    let text_a : utf8_decode (take (length a) (area 64 a)) ≡ some error_type =
      ap utf8_decode (take-area 64 a) ∙ utf8_decode-encode error_type ea in
    let text_b : utf8_decode (take (length b) (area 1024 b)) ≡ some error_message =
      ap utf8_decode (take-area 1024 b) ∙ utf8_decode-encode error_message eb in
    rw (whole_a, whole_b, long_a, long_b, clean_a, clean_b, text_a, text_b) refl

error_slot :
    (error_type error_message : Text) (a b head rest : Bytes) {bs : Bytes}
    → utf8_encode error_type ≡ some a
    → utf8_encode error_message ≡ some b
    → length a ≤ 64
    → length b ≤ 1024
    → packed_or_error (error_head_fields a b) ≡ ok head
    → head ++ (area 64 (take 64 a) ++ area 1024 (take 1024 b)) ≡ bs
    → (length bs ≡ 1104) × (decode_error_area (bs ++ rest) ≡ ok (error_type, error_message))
unfolding decode_error_area
error_slot error_type error_message a b head rest ea eb short_a short_b h e =
    let held = packed_or_error-Holds (error_head_fields a b) h in
    let first = area 64 (take 64 a) in
    let second = area 1024 (take 1024 b) in
    let size_a : length first ≡ 64 = length-area 64 (take 64 a) (omega (arith, length-take 64 a)) in
    let size_b : length second ≡ 1024 =
      length-area 1024 (take 1024 b) (omega (arith, length-take 1024 b)) in
    let whole : (head ++ (first ++ second)) ++ rest ≡ head ++ (first ++ (second ++ rest)) =
      append_assoc head (first ++ second) rest
      ∙ ap (λ x. head ++ x) (append_assoc first second rest) in
    let at_type : drop 16 (head ++ (first ++ (second ++ rest))) ≡ first ++ (second ++ rest) =
      drop_front 16 head (first ++ (second ++ rest)) (held.0) in
    let type_area : take 64 (first ++ (second ++ rest)) ≡ first =
      take_front 64 first (second ++ rest) size_a in
    let at_message : drop 80 (head ++ (first ++ (second ++ rest))) ≡ second ++ rest =
      sym (drop-drop 64 16 (head ++ (first ++ (second ++ rest))))
      ∙ ap (drop 64) at_type
      ∙ drop_front 64 first (second ++ rest) size_a in
    let message_area : take 1024 (second ++ rest) ≡ second = take_front 1024 second rest size_b in
    let parts : decode_error_area (head ++ (first ++ (second ++ rest)))
        ≡ error_of (values_of (error_head_fields a b)) first second =
      rw (at_type, at_message, type_area, message_area, held.1 (first ++ (second ++ rest))) refl in
    subst
      (λ x. (length x ≡ 1104) × (decode_error_area (x ++ rest) ≡ ok (error_type, error_message))) e
      (
        omega (
          arith,
          length-append head (first ++ second),
          length-append first second,
          held.0,
          size_a,
          size_b,
        ),
        ap decode_error_area whole
            ∙ parts
            ∙ error_of-fields error_type error_message a b ea eb short_a short_b,
      )

pub decode_error_area-encode_error_area :
    (error_type error_message : Text) {bs : Bytes} (rest : Bytes)
    → encoded_length error_type ≤ 64
    → encoded_length error_message ≤ 1024
    → encode_error_area error_type error_message ≡ ok bs
    → (length bs ≡ 1104) × (decode_error_area (bs ++ rest) ≡ ok (error_type, error_message))
unfolding encode_error_area
decode_error_area-encode_error_area error_type error_message rest short_type short_message h =
    let (a, made_a, h1) = first_ok (or_raise (utf8_encode error_type) not_unicode) _ h in
    let (b, made_b, h2) = first_ok (or_raise (utf8_encode error_message) not_unicode) _ h1 in
    let (head, packed_head, h3) = first_ok (packed_or_error (error_head_fields a b)) _ h2 in
    let ea : utf8_encode error_type ≡ some a = or_raise-eq-ok _ _ made_a in
    let eb : utf8_encode error_message ≡ some b = or_raise-eq-ok _ _ made_b in
    error_slot error_type error_message a b head rest ea eb
      (omega (arith, short_type, encoded_length-eq error_type a ea))
      (omega (arith, short_message, encoded_length-eq error_message b eb)) packed_head (ok_inj h3)
