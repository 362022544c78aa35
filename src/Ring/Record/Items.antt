-- ===== src/Ring/Record/Items.antt =====
-- The slots of a record: each item is read back from what it is written as.
use Prim.Native.String.{String}
use mathlib.Core.Path.{subst}
use wmfs.Common.{
  ℕ, ◌-◌, ◌≤◌, ◌<◌, Bool, true, false, not, ◌||◌, some, List, ◌++◌, map, append_assoc, ◌==◌, ltb,
  nat_eq, string_eq, ◌≡◌, refl, sym, ap, ◌∙◌, arith, any, replicate, length, take, drop,
  length-append, drop_front, drop-append, take-append, ok, raise_if, or_raise, or_raise-eq-ok,
  ok_inj, first_ok, then-eq-ok, raise_if-pass,
}
use wmfs.Common.Dict
use wmfs.Common.Int.{ℤ, pos}
use wmfs.Common.Bytes.{
  Holds, pack-Holds, Bytes, Fit, widths_of, values_of, pack, packed, unpack, size_of, pack-eq-some,
  drop-drop,
}
use wmfs.Ring.Record.{
  struct_error, Tensor, dtype_to_id, id_to_dtype, of_unsigned, shape_widths, invalid_rank,
  unsupported_dtype,
}
use wmfs.Ring.Record.Signed.{
  get-flipped, signed_fields, padded, length-signed_fields, map-signed_fields, length-padded,
  any-padding, is_nonzero_int,
}
use wmfs.Ring.Record.Encode.{packed_or_error, tensor_fields, encode_tensor, as_flag}
use wmfs.Ring.Record.Decode.{unpack_shape, tensor_of, decode_tensor}

-- What is packed fits its fields.
pub packed_or_error-eq-ok :
    (fields : List (ℕ × ℕ)) {bs : Bytes}
    → packed_or_error fields ≡ ok bs
    → Fit fields × (packed fields ≡ bs)
unfolding packed_or_error
packed_or_error-eq-ok fields h = pack-eq-some fields (or_raise-eq-ok (pack fields) struct_error h)

pub packed_or_error-Holds :
    (fields : List (ℕ × ℕ)) {bs : Bytes} → packed_or_error fields ≡ ok bs → Holds fields bs
unfolding packed_or_error
packed_or_error-Holds fields h = pack-Holds fields (or_raise-eq-ok (pack fields) struct_error h)

-- A shape is read back from its sixteen fields, with zeros behind it.
pub unpack_shape-padded :
    (zs : List ℤ) {bs : Bytes} (rest : Bytes)
    → length zs ≤ 16
    → packed_or_error (signed_fields (padded zs)) ≡ ok bs
    → (length bs ≡ 128) × (unpack_shape (bs ++ rest) ≡ padded zs)
unpack_shape-padded zs {bs} rest h e =
    let (fits, _) = packed_or_error-eq-ok (signed_fields (padded zs)) e in
    let held = packed_or_error-Holds (signed_fields (padded zs)) e in
    let widths : widths_of (signed_fields (padded zs)) ≡ shape_widths =
      length-signed_fields (padded zs) ∙ ap (λ n. replicate n 8) (length-padded zs h) in
    (
      held.0 ∙ ap size_of widths,
      ap (λ ws. map of_unsigned (unpack ws (bs ++ rest))) (sym widths)
          ∙ ap (map of_unsigned) (held.1 rest)
          ∙ map-signed_fields (padded zs) fits,
    )

-- The rank of a shape cuts it off its padding.
pub take-padded : (zs : List ℤ) → take (length zs) (padded zs) ≡ zs
unfolding padded
take-padded zs = take-append zs (replicate (16 - length zs) (pos 0))

pub drop-padded : (zs : List ℤ) → any is_nonzero_int (drop (length zs) (padded zs)) ≡ false
unfolding padded
drop-padded zs =
    ap (any is_nonzero_int) (drop-append zs (replicate (16 - length zs) (pos 0)))
    ∙ any-padding (16 - length zs)

-- A dtype is read back from its number.
pub id_to_dtype-dtype_to_id :
    (dtype : String) (id : ℕ)
    → Dict.get dtype dtype_to_id ≡ some id
    → Dict.get id id_to_dtype ≡ some dtype
unfolding Dict.get
id_to_dtype-dtype_to_id dtype id h =
    get-flipped dtype_to_id dtype id
      (refl, (refl, (refl, (refl, (refl, (refl, (refl, (refl, (refl, (refl, tt)))))))))) h

as_flag-bit : (b : Bool) → (ltb 1 (as_flag b) ≡ false) × (not (as_flag b == 0) ≡ b)
as_flag-bit true = (refl, refl)
as_flag-bit false = (refl, refl)

tensor_of-fields :
    (t : Tensor) (id : ℕ)
    → Dict.get id id_to_dtype ≡ some t.dtype
    → 0 < length t.shape
    → length t.shape ≤ 16
    → length t.shape ≡ length t.strides
    → tensor_of (values_of (tensor_fields t id)) (padded t.shape) (padded t.strides) ≡ ok t
unfolding tensor_of
tensor_of-fields t id found low high same =
    let (bit, flag) = as_flag-bit t.writable in
    let bad : (length t.shape == 0 || (ltb 16 (length t.shape) || ltb 1 (as_flag t.writable)))
        ≡ false =
      ground (arith, bit) in
    let strides : take (length t.shape) (padded t.strides) ≡ t.strides =
      ap (λ n. take n (padded t.strides)) same ∙ take-padded t.strides in
    let rest : any is_nonzero_int (drop (length t.shape) (padded t.strides)) ≡ false =
      ap (λ n. any is_nonzero_int (drop n (padded t.strides))) same ∙ drop-padded t.strides in
    rw (bad, drop-padded t.shape, rest, found, take-padded t.shape, strides, flag) refl

tensor_slot :
    (t : Tensor) (id : ℕ) (head shape strides rest : Bytes) {bs : Bytes}
    → Dict.get id id_to_dtype ≡ some t.dtype
    → 0 < length t.shape
    → length t.shape ≤ 16
    → length t.shape ≡ length t.strides
    → packed_or_error (tensor_fields t id) ≡ ok head
    → packed_or_error (signed_fields (padded t.shape)) ≡ ok shape
    → packed_or_error (signed_fields (padded t.strides)) ≡ ok strides
    → head ++ (shape ++ strides) ≡ bs
    → (length bs ≡ 312) × (decode_tensor (bs ++ rest) ≡ ok t)
unfolding decode_tensor
tensor_slot t id head shape strides rest found low high same h1 h2 h3 e =
    let held = packed_or_error-Holds (tensor_fields t id) h1 in
    let first = unpack_shape-padded t.shape (strides ++ rest) high h2 in
    let second = unpack_shape-padded t.strides rest (omega (arith, high, same)) h3 in
    let whole : (head ++ (shape ++ strides)) ++ rest ≡ head ++ (shape ++ (strides ++ rest)) =
      append_assoc head (shape ++ strides) rest
      ∙ ap (λ b. head ++ b) (append_assoc shape strides rest) in
    let at_shape : drop 56 (head ++ (shape ++ (strides ++ rest))) ≡ shape ++ (strides ++ rest) =
      drop_front 56 head (shape ++ (strides ++ rest)) (held.0) in
    let at_strides : drop 184 (head ++ (shape ++ (strides ++ rest))) ≡ strides ++ rest =
      sym (drop-drop 128 56 (head ++ (shape ++ (strides ++ rest))))
      ∙ ap (drop 128) at_shape
      ∙ drop_front 128 shape (strides ++ rest) (first.0) in
    let parts : decode_tensor (head ++ (shape ++ (strides ++ rest)))
        ≡ tensor_of (values_of (tensor_fields t id)) (padded t.shape) (padded t.strides) =
      rw (at_shape, at_strides, held.1 (shape ++ (strides ++ rest)), first.1, second.1) refl in
    subst (λ b. (length b ≡ 312) × (decode_tensor (b ++ rest) ≡ ok t)) e
      (
        omega (
          arith,
          length-append head (shape ++ strides),
          length-append shape strides,
          held.0,
          first.0,
          second.0,
        ),
        ap decode_tensor whole ∙ parts ∙ tensor_of-fields t id found low high same,
      )

pub decode_tensor-encode_tensor :
    (t : Tensor) {bs : Bytes} (rest : Bytes)
    → encode_tensor t ≡ ok bs
    → (length bs ≡ 312) × (decode_tensor (bs ++ rest) ≡ ok t)
unfolding encode_tensor decode_tensor
decode_tensor-encode_tensor t {bs} rest h =
    let (ranked, h1) =
      then-eq-ok
        (raise_if
          (length t.shape == 0
            || (ltb 16 (length t.shape) || not (length t.shape == length t.strides)))
          invalid_rank)
        _ h in
    let (id, found, h2) =
      first_ok (or_raise (Dict.get t.dtype dtype_to_id) unsupported_dtype) _ h1 in
    let (head, packed_head, h3) = first_ok (packed_or_error (tensor_fields t id)) _ h2 in
    let (shape, packed_shape, h4) =
      first_ok (packed_or_error (signed_fields (padded t.shape))) _ h3 in
    let (strides, packed_strides, h5) =
      first_ok (packed_or_error (signed_fields (padded t.strides))) _ h4 in
    let good : (length t.shape == 0
          || (ltb 16 (length t.shape) || not (length t.shape == length t.strides)))
        ≡ false =
      raise_if-pass _ _ ranked in
    tensor_slot t id head shape strides rest
      (id_to_dtype-dtype_to_id t.dtype id (or_raise-eq-ok _ _ found)) (ground (arith, good))
      (ground (arith, good)) (ground (arith, good)) packed_head packed_shape packed_strides
      (ok_inj h5)
