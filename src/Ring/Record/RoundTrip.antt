-- ===== src/Ring/Record/RoundTrip.antt =====
-- A record is read back from its 16384 bytes.
use mathlib.Core.Path.{subst}
use wmfs.Common.{
  ℕ, ◌*◌, ◌≤◌, false, not, ◌||◌, List, [], ◌∷◌, ◌++◌, ◌==◌, ltb, ◌≡◌, refl, ap, ◌∙◌, arith, any,
  length, take, drop, ok, raise_if, collect_all, ok_inj, first_ok, then-eq-ok, raise_if-pass, All,
}
use wmfs.Common.Text.{encoded_length}
use wmfs.Common.Bytes.{Bytes, values_of, unpack}
use wmfs.Ring.Record.{
  ScalarItem, Record, area, zeros, zero_identity, too_many, profile_widths, header_widths,
}
use wmfs.Ring.Record.Signed.{length-area, any-zeros, length-zeros, is_nonzero}
use wmfs.Ring.Record.Encode.{
  packed_or_error, join, record_header_fields, encode_tensor, encode_scalar, encode_output,
  encode_profile, encode_error_area, encode,
}
use wmfs.Ring.Record.Decode.{
  read_slots, decode_tensor, decode_scalar, decode_output, decode_error_area, check_header,
  record_of, decode,
}
use wmfs.Ring.Record.Items.{packed_or_error-Holds, decode_tensor-encode_tensor}
use wmfs.Ring.Record.Scalars.{IsInRange, decode_scalar-encode_scalar, decode_output-encode_output}
use wmfs.Ring.Record.Areas.{
  read_slots-collect_all, unpack-encode_profile, decode_error_area-encode_error_area,
}
use wmfs.Ring.Record.Layout.{
  Parts, at_tensors, at_scalars, at_outputs, at_profile, at_error, at_tail, length-Parts,
  reserved_zero, unpack-area, from_area,
}

-- What is in a record that its encoding neither wraps nor cuts.
abbrev pub IsExact : Record → Type 0
IsExact r =
    All (λ (s : ScalarItem). IsInRange s.value) r.scalars
    × (encoded_length r.error_type ≤ 64)
    × (encoded_length r.error_message ≤ 1024)

All-Unit {ℓ} : {A : Type ℓ} (xs : List A) → All (λ x. Unit {0}) xs
All-Unit [] = tt
All-Unit (x ∷ xs) = (tt, All-Unit xs)

same_identity :
    (generation submission : ℕ)
    → (generation == 0 || submission == 0) ≡ false
    → (not (generation == generation) || submission == 0) ≡ false
same_identity generation submission h = ground (arith, h)

slots_fit :
    (m n k : ℕ)
    → (ltb 16 m || (ltb 16 n || ltb 16 k)) ≡ false
    → (m * 312 ≤ 4992) × (n * 280 ≤ 4480) × (k * 144 ≤ 2304)
slots_fit m n k h =
    let low : m ≤ 16 = ground (arith, h) in
    let mid : n ≤ 16 = ground (arith, h) in
    let high : k ≤ 16 = ground (arith, h) in
    (omega (arith, low), omega (arith, mid), omega (arith, high))

-- The record that its parts are read as.
record_of-Parts :
    (r : Record) (a b c d e f g : Bytes)
    → drop 13072 (Parts a b c d e f g) ≡ zeros 3312
    → any is_nonzero (take 76 (drop 52 (Parts a b c d e f g))) ≡ false
    → (r.generation == 0 || r.submission_id == 0) ≡ false
    → (ltb 16 (length r.tensors) || (ltb 16 (length r.scalars) || ltb 16 (length r.outputs)))
      ≡ false
    → read_slots decode_tensor 312 (length r.tensors) (drop 128 (Parts a b c d e f g))
      ≡ ok r.tensors
    → read_slots decode_scalar 280 (length r.scalars) (drop 5120 (Parts a b c d e f g))
      ≡ ok r.scalars
    → read_slots decode_output 144 (length r.outputs) (drop 9600 (Parts a b c d e f g))
      ≡ ok r.outputs
    → decode_error_area (drop 11968 (Parts a b c d e f g)) ≡ ok (r.error_type, r.error_message)
    → unpack profile_widths (drop 11904 (Parts a b c d e f g)) ≡ r.profile
    → record_of (values_of (record_header_fields r)) (Parts a b c d e f g) r.generation ≡ ok r
unfolding record_of check_header
record_of-Parts r a b c d e f g tail reserved nonzero few tensors scalars outputs error profile =
    let clean : any is_nonzero (drop 13072 (Parts a b c d e f g)) ≡ false =
      ap (any is_nonzero) tail ∙ any-zeros 3312 in
    let identity : (not (r.generation == r.generation) || r.submission_id == 0) ≡ false =
      same_identity r.generation r.submission_id nonzero in
    rw (identity, reserved, clean, few, tensors, scalars, outputs, error, profile) refl

decode-parts :
    (r : Record) (header : Bytes) (tensors scalars outputs : List Bytes) (profile error : Bytes)
    → IsExact r
    → (r.generation == 0 || r.submission_id == 0) ≡ false
    → (ltb 16 (length r.tensors) || (ltb 16 (length r.scalars) || ltb 16 (length r.outputs)))
      ≡ false
    → packed_or_error (record_header_fields r) ≡ ok header
    → collect_all encode_tensor r.tensors ≡ ok tensors
    → collect_all encode_scalar r.scalars ≡ ok scalars
    → collect_all encode_output r.outputs ≡ ok outputs
    → encode_profile r.profile ≡ ok profile
    → encode_error_area r.error_type r.error_message ≡ ok error
    → (length (
          Parts
            (area 128 header)
            (area 4992 (join tensors))
            (area 4480 (join scalars))
            (area 2304 (join outputs))
            profile
            error
            (zeros 3312))
        ≡ 16384)
      × (decode
            (Parts
              (area 128 header)
              (area 4992 (join tensors))
              (area 4480 (join scalars))
              (area 2304 (join outputs))
              profile
              error
              (zeros 3312))
            r.generation
          ≡ ok r)
unfolding decode
decode-parts r header tensors scalars outputs profile error exact nonzero few h1 h2 h3 h4 h5 h6 =
    let head = packed_or_error-Holds (record_header_fields r) h1 in
    let ts = λ (rest : Bytes).
      read_slots-collect_all (λ t. Unit {0}) encode_tensor decode_tensor 312
        (λ t bs rest f e. decode_tensor-encode_tensor t rest e) r.tensors rest (All-Unit r.tensors)
        h2 in
    let ss = λ (rest : Bytes).
      read_slots-collect_all (λ (s : ScalarItem). IsInRange s.value) encode_scalar decode_scalar 280
        (λ s bs rest f e. decode_scalar-encode_scalar s rest f e) r.scalars rest (exact.0) h3 in
    let os = λ (rest : Bytes).
      read_slots-collect_all (λ o. Unit {0}) encode_output decode_output 144
        (λ o bs rest f e. decode_output-encode_output o rest e) r.outputs rest (All-Unit r.outputs)
        h4 in
    let ps = λ (rest : Bytes). unpack-encode_profile r.profile rest h5 in
    let es = λ (rest : Bytes).
      decode_error_area-encode_error_area r.error_type r.error_message rest (exact.1) (exact.2)
        h6 in
    let fit = slots_fit (length r.tensors) (length r.scalars) (length r.outputs) few in
    let a = area 128 header in
    let b = area 4992 (join tensors) in
    let c = area 4480 (join scalars) in
    let d = area 2304 (join outputs) in
    let la : length a ≡ 128 = length-area 128 header (omega (arith, head.0)) in
    let lb : length b ≡ 4992 = length-area 4992 (join tensors) (omega (arith, (ts []).0, fit.0)) in
    let lc : length c ≡ 4480 = length-area 4480 (join scalars) (omega (arith, (ss []).0, fit.1)) in
    let ld : length d ≡ 2304 = length-area 2304 (join outputs) (omega (arith, (os []).0, fit.2)) in
    let le : length profile ≡ 64 = (ps []).0 in
    let lf : length error ≡ 1104 = (es []).0 in
    let size =
      length-Parts a b c d profile error (zeros 3312) la lb lc ld le lf (length-zeros 3312) in
    let sized : (not (length (Parts a b c d profile error (zeros 3312)) == 16384)) ≡ false =
      ground (arith, size) in
    let z = zeros 3312 in
    let values : unpack header_widths (Parts a b c d profile error z)
        ≡ values_of (record_header_fields r) =
      unpack-area header_widths 128 header _ (head.1) in
    let tensors_back : read_slots decode_tensor 312 (length r.tensors)
          (drop 128 (Parts a b c d profile error z))
        ≡ ok r.tensors =
      ap (read_slots decode_tensor 312 (length r.tensors))
        (at_tensors a b c d profile error z la lb lc ld le lf)
      ∙ from_area decode_tensor 312 4992 (length r.tensors) (join tensors) _
          (λ rest. (ts rest).1) in
    let scalars_back : read_slots decode_scalar 280 (length r.scalars)
          (drop 5120 (Parts a b c d profile error z))
        ≡ ok r.scalars =
      ap (read_slots decode_scalar 280 (length r.scalars))
        (at_scalars a b c d profile error z la lb lc ld le lf)
      ∙ from_area decode_scalar 280 4480 (length r.scalars) (join scalars) _
          (λ rest. (ss rest).1) in
    let outputs_back : read_slots decode_output 144 (length r.outputs)
          (drop 9600 (Parts a b c d profile error z))
        ≡ ok r.outputs =
      ap (read_slots decode_output 144 (length r.outputs))
        (at_outputs a b c d profile error z la lb lc ld le lf)
      ∙ from_area decode_output 144 2304 (length r.outputs) (join outputs) _
          (λ rest. (os rest).1) in
    let error_back =
      ap decode_error_area (at_error a b c d profile error z la lb lc ld le lf) ∙ (es z).1 in
    let profile_back =
      ap (unpack profile_widths) (at_profile a b c d profile error z la lb lc ld le lf)
      ∙ (ps (error ++ z)).1 in
    let read =
      record_of-Parts r a b c d profile error z (at_tail a b c d profile error z la lb lc ld le lf)
        (reserved_zero header _ (head.0)) nonzero few tensors_back scalars_back outputs_back
        error_back profile_back in
    (size, rw (sized, values) read)

-- A record that `encode` encodes is what `decode` makes of its bytes, which are 16384, for the
-- generation of the record, where each integer scalar has room in 64 bits, the error's type has at
-- most 64 bytes in UTF-8 and its message at most 1024.
pub decode-encode :
    (r : Record) {packet : Bytes}
    → IsExact r
    → encode r ≡ ok packet
    → (length packet ≡ 16384) × (decode packet r.generation ≡ ok r)
unfolding encode decode
decode-encode r {packet} exact h =
    let (nonzero, h1) =
      then-eq-ok (raise_if (r.generation == 0 || r.submission_id == 0) zero_identity) _ h in
    let (few, h2) =
      then-eq-ok
        (raise_if
          (ltb 16 (length r.tensors) || (ltb 16 (length r.scalars) || ltb 16 (length r.outputs)))
          too_many)
        _ h1 in
    let (header, made_header, h3) = first_ok (packed_or_error (record_header_fields r)) _ h2 in
    let (tensors, made_tensors, h4) = first_ok (collect_all encode_tensor r.tensors) _ h3 in
    let (scalars, made_scalars, h5) = first_ok (collect_all encode_scalar r.scalars) _ h4 in
    let (outputs, made_outputs, h6) = first_ok (collect_all encode_output r.outputs) _ h5 in
    let (profile, made_profile, h7) = first_ok (encode_profile r.profile) _ h6 in
    let (error, made_error, h8) = first_ok (encode_error_area r.error_type r.error_message) _ h7 in
    subst (λ p. (length p ≡ 16384) × (decode p r.generation ≡ ok r)) (ok_inj h8)
      (decode-parts r header tensors scalars outputs profile error exact (raise_if-pass _ _ nonzero)
        (raise_if-pass _ _ few) made_header made_tensors made_scalars made_outputs made_profile
        made_error)
