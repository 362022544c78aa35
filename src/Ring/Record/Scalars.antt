-- ===== src/Ring/Record/Scalars.antt =====
-- The slots of the scalars and of the planned outputs.
use mathlib.Core.Path.{subst}
use wmfs.Common.{
  ℕ, ◌-◌, ◌^◌, ◌≤◌, ◌<◌, true, false, ◌||◌, some, [], ◌++◌, append_assoc, ◌==◌, ltb, nat_eq,
  string_eq, ◌≡◌, refl, ap, ◌∙◌, arith, any, length, take, drop, length-append, drop_front,
  take_front, ok, raise_if, or_raise, or_raise-eq-ok, ok_inj, first_ok, then-eq-ok, raise_if-pass,
}
use wmfs.Common.Dict
use wmfs.Common.Int.{ℤ, pos, negsuc}
use wmfs.Common.Utf8.{Text, utf8_encode, utf8_decode}
use wmfs.Common.Utf8.RoundTrip.{utf8_decode-encode}
use wmfs.Common.Bytes.{Bytes, values_of}
use wmfs.Metadata.Model.{Scalar, boolean, float64, int64, text, other}
use wmfs.Ring.Record.{
  ScalarItem, PlannedOutput, dtype_to_id, id_to_dtype, scalar_id, of_unsigned, masked, area,
  unsupported_scalar, unsupported_output, invalid_output_rank, not_unicode, text_too_long,
}
use wmfs.Ring.Record.Signed.{
  signed_fields, padded, length-area, drop-area, take-area, any-zeros, is_nonzero, is_nonzero_int,
}
use wmfs.Ring.Record.Encode.{
  packed_or_error, scalar_fields, encode_scalar, text_of, bits_of, output_fields, encode_output,
}
use wmfs.Ring.Record.Decode.{scalar_value, scalar_of, decode_scalar, output_of, decode_output}
use wmfs.Ring.Record.Items.{
  packed_or_error-Holds, unpack_shape-padded, take-padded, drop-padded, id_to_dtype-dtype_to_id,
}

-- An integer that "q" has room for; `encode` wraps any other.
abbrev pub IsInRange : Scalar → Type 0
IsInRange (int64 (pos n)) = n < 2 ^ 63
IsInRange (int64 (negsuc n)) = n < 2 ^ 63
IsInRange _ = Unit

of_unsigned-masked : (z : ℤ) → IsInRange (int64 z) → of_unsigned (masked z) ≡ z
unfolding of_unsigned masked
of_unsigned-masked (pos n) h = ground (arith, h)
of_unsigned-masked (negsuc n) h = ground (arith, h)

text_of-text :
    (t : Text) {bs : Bytes}
    → text_of (text t) ≡ ok bs
    → (utf8_encode t ≡ some bs) × (length bs ≤ 256)
unfolding text_of
text_of-text t {bs} h =
    let (encoded, made, h1) = first_ok (or_raise (utf8_encode t) not_unicode) _ h in
    let (short, h2) = then-eq-ok (raise_if (ltb 256 (length encoded)) text_too_long) _ h1 in
    subst (λ b. (utf8_encode t ≡ some b) × (length b ≤ 256)) (ok_inj h2)
      (or_raise-eq-ok _ _ made, ground (arith, raise_if-pass _ _ short))

abbrev ReadsBack : Scalar → ℕ → Bytes → Type 0
ReadsBack v k bs =
    (scalar_value k (bits_of v) (length bs) (area 256 bs) ≡ ok v)
    × (length bs ≤ 256)
    × ((k == 0 || ltb 4 k) ≡ false)

-- Without a text, the kind and the bits are enough.
plain :
    (v : Scalar) (i k : ℕ) {bs : Bytes}
    → some i ≡ some k
    → [] ≡ bs
    → ReadsBack v i []
    → ReadsBack v k bs
plain v i k {bs} same empty h =
    let number : i ≡ k = cc same in
    subst (ReadsBack v k) empty (subst (λ j. ReadsBack v j []) number h)

scalar_value-bits_of :
    (v : Scalar) (k : ℕ) {bs : Bytes}
    → scalar_id v ≡ some k
    → text_of v ≡ ok bs
    → IsInRange v
    → ReadsBack v k bs
unfolding scalar_value text_of
scalar_value-bits_of (boolean true) k id e r =
    plain (boolean true) 1 k id (ok_inj e) (refl, omega arith, refl)
scalar_value-bits_of (boolean false) k id e r =
    plain (boolean false) 1 k id (ok_inj e) (refl, omega arith, refl)
scalar_value-bits_of (float64 bits) k id e r =
    plain (float64 bits) 2 k id (ok_inj e) (refl, omega arith, refl)
scalar_value-bits_of (int64 z) k id e r =
    plain (int64 z) 3 k id (ok_inj e)
      (ap (λ n. ok (int64 n)) (of_unsigned-masked z r), omega arith, refl)
scalar_value-bits_of (text t) k {bs} id e r =
    let number : 4 ≡ k = cc id in
    let (encoded, short) = text_of-text t e in
    let back : utf8_decode (take (length bs) (area 256 bs)) ≡ some t =
      ap utf8_decode (take-area 256 bs) ∙ utf8_decode-encode t encoded in
    subst (λ j. ReadsBack (text t) j bs) number (rw back refl, short, refl)
scalar_value-bits_of other k id e r = absurd (cc id)

scalar_of-fields :
    (s : ScalarItem) (k : ℕ) (bs : Bytes)
    → ReadsBack s.value k bs
    → scalar_of (values_of (scalar_fields s k (length bs))) (area 256 bs) ≡ ok s
unfolding scalar_of
scalar_of-fields s k bs (value, short, kind) =
    let long : ltb 256 (length bs) ≡ false = ground (arith, short) in
    let clean : any is_nonzero (drop (length bs) (area 256 bs)) ≡ false =
      ap (any is_nonzero) (drop-area 256 bs) ∙ any-zeros (256 - length bs) in
    rw (long, kind, clean, value) refl

scalar_slot :
    (s : ScalarItem) (k : ℕ) (text_bytes head rest : Bytes) {bs : Bytes}
    → ReadsBack s.value k text_bytes
    → packed_or_error (scalar_fields s k (length text_bytes)) ≡ ok head
    → head ++ area 256 text_bytes ≡ bs
    → (length bs ≡ 280) × (decode_scalar (bs ++ rest) ≡ ok s)
unfolding decode_scalar
scalar_slot s k text_bytes head rest back h e =
    let held = packed_or_error-Holds (scalar_fields s k (length text_bytes)) h in
    let size = length-area 256 text_bytes (back.1) in
    let whole : (head ++ area 256 text_bytes) ++ rest ≡ head ++ (area 256 text_bytes ++ rest) =
      append_assoc head (area 256 text_bytes) rest in
    let at_text : take 256 (drop 24 (head ++ (area 256 text_bytes ++ rest))) ≡ area 256 text_bytes =
      ap (take 256) (drop_front 24 head (area 256 text_bytes ++ rest) (held.0))
      ∙ take_front 256 (area 256 text_bytes) rest size in
    let parts : decode_scalar (head ++ (area 256 text_bytes ++ rest))
        ≡ scalar_of (values_of (scalar_fields s k (length text_bytes))) (area 256 text_bytes) =
      rw (at_text, held.1 (area 256 text_bytes ++ rest)) refl in
    subst (λ b. (length b ≡ 280) × (decode_scalar (b ++ rest) ≡ ok s)) e
      (
        omega (arith, length-append head (area 256 text_bytes), held.0, size),
        ap decode_scalar whole ∙ parts ∙ scalar_of-fields s k text_bytes back,
      )

pub decode_scalar-encode_scalar :
    (s : ScalarItem) {bs : Bytes} (rest : Bytes)
    → IsInRange s.value
    → encode_scalar s ≡ ok bs
    → (length bs ≡ 280) × (decode_scalar (bs ++ rest) ≡ ok s)
unfolding encode_scalar
decode_scalar-encode_scalar s rest exact h =
    let (k, kind, h1) = first_ok (or_raise (scalar_id s.value) unsupported_scalar) _ h in
    let (text_bytes, made, h2) = first_ok (text_of s.value) _ h1 in
    let (head, packed_head, h3) =
      first_ok (packed_or_error (scalar_fields s k (length text_bytes))) _ h2 in
    scalar_slot s k text_bytes head rest
      (scalar_value-bits_of s.value k (or_raise-eq-ok _ _ kind) made exact) packed_head (ok_inj h3)

output_of-fields :
    (o : PlannedOutput) (id : ℕ)
    → Dict.get id id_to_dtype ≡ some o.dtype
    → 0 < length o.shape
    → length o.shape ≤ 16
    → output_of (values_of (output_fields o id)) (padded o.shape) ≡ ok o
unfolding output_of
output_of-fields o id found low high =
    let bad : (length o.shape == 0
          || (ltb 16 (length o.shape)
              || any is_nonzero_int (drop (length o.shape) (padded o.shape))))
        ≡ false =
      ground (arith, drop-padded o.shape) in
    rw (bad, found, take-padded o.shape) refl

output_slot :
    (o : PlannedOutput) (id : ℕ) (head shape rest : Bytes) {bs : Bytes}
    → Dict.get id id_to_dtype ≡ some o.dtype
    → 0 < length o.shape
    → length o.shape ≤ 16
    → packed_or_error (output_fields o id) ≡ ok head
    → packed_or_error (signed_fields (padded o.shape)) ≡ ok shape
    → head ++ shape ≡ bs
    → (length bs ≡ 144) × (decode_output (bs ++ rest) ≡ ok o)
unfolding decode_output
output_slot o id head shape rest found low high h1 h2 e =
    let held = packed_or_error-Holds (output_fields o id) h1 in
    let first = unpack_shape-padded o.shape rest high h2 in
    let at_shape : drop 16 (head ++ (shape ++ rest)) ≡ shape ++ rest =
      drop_front 16 head (shape ++ rest) (held.0) in
    let parts : decode_output (head ++ (shape ++ rest))
        ≡ output_of (values_of (output_fields o id)) (padded o.shape) =
      rw (at_shape, held.1 (shape ++ rest), first.1) refl in
    subst (λ b. (length b ≡ 144) × (decode_output (b ++ rest) ≡ ok o)) e
      (
        omega (arith, length-append head shape, held.0, first.0),
        ap decode_output (append_assoc head shape rest)
            ∙ parts
            ∙ output_of-fields o id found low high,
      )

pub decode_output-encode_output :
    (o : PlannedOutput) {bs : Bytes} (rest : Bytes)
    → encode_output o ≡ ok bs
    → (length bs ≡ 144) × (decode_output (bs ++ rest) ≡ ok o)
unfolding encode_output
decode_output-encode_output o rest h =
    let (ranked, h1) =
      then-eq-ok (raise_if (length o.shape == 0 || ltb 16 (length o.shape)) invalid_output_rank) _
        h in
    let (id, found, h2) =
      first_ok (or_raise (Dict.get o.dtype dtype_to_id) unsupported_output) _ h1 in
    let (head, packed_head, h3) = first_ok (packed_or_error (output_fields o id)) _ h2 in
    let (shape, packed_shape, h4) =
      first_ok (packed_or_error (signed_fields (padded o.shape))) _ h3 in
    let good : (length o.shape == 0 || ltb 16 (length o.shape)) ≡ false =
      raise_if-pass _ _ ranked in
    output_slot o id head shape rest (id_to_dtype-dtype_to_id o.dtype id (or_raise-eq-ok _ _ found))
      (ground (arith, good)) (ground (arith, good)) packed_head packed_shape (ok_inj h4)
