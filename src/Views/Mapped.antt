-- ===== src/Views/Mapped.antt =====
-- packages/wmfs-plugin/wmfs_plugin/fd_transport.py: `_validate_view`, and the element strides that
-- `MappedBufferCache.tensor` hands to `torch.as_strided`.
use native.Mathlib.Nat.{div-add-mod, mul_comm}
use wmfs.Common.{
  ℕ, ◌+◌, ◌*◌, ◌/◌, ◌%◌, ◌≤◌, ◌≡◌, Bool, true, false, not, ◌||◌, List, [], ◌∷◌, map, ◌==◌, ltb, any,
  length, Result, ok, checked, checked-eq-ok, arith,
}
use wmfs.Common.Int.{ℤ, is_negative, is_non_positive, pos_part}
use wmfs.Views.Extent.{extent, address, IsIndex, address-le-extent}

pub data ViewError : Type 0 where
  bad_shape : ViewError
  different_ranks : ViewError
  misaligned_offset : ViewError
  out_of_buffer : ViewError
  bad_strides : ViewError
  out_of_range : ViewError

abbrev pub max_rank : ℕ
max_rank = 16

abbrev pub is_empty_shape : List ℤ → Bool
is_empty_shape [] = true
is_empty_shape (d ∷ ds) = false

abbrev pub naturals : List ℤ → List ℕ
naturals = map pos_part

abbrev pub is_bad_stride : ℕ → ℤ → Bool
is_bad_stride item_size s = is_negative s || not (pos_part s % item_size == 0)

-- `_validate_view`; the last sum is taken where the dimensions and strides are not negative.
unfoldable pub validate_view : ℕ → ℤ → ℤ → ℕ → List ℤ → List ℤ → Result ViewError (Unit {0})
validate_view buffer_length offset byte_length item_size shape byte_strides =
    checked
      ((is_empty_shape shape || ltb max_rank (length shape) || any is_non_positive shape, bad_shape)
        ∷ (not (length shape == length byte_strides), different_ranks)
        ∷ (is_negative offset || not (pos_part offset % item_size == 0), misaligned_offset)
        ∷ (
          is_non_positive byte_length || ltb buffer_length (pos_part offset + pos_part byte_length),
          out_of_buffer,
        )
        ∷ (any (is_bad_stride item_size) byte_strides, bad_strides)
        ∷ (
          ltb (pos_part byte_length) (item_size + extent (naturals shape) (naturals byte_strides)),
          out_of_range,
        )
        ∷ [])
      (ok tt)

-- What `torch.as_strided` is given.
abbrev pub element_strides : ℕ → List ℤ → List ℕ
element_strides item_size = map (λ s. pos_part s / item_size)

record Checked (buffer_length : ℕ) (offset byte_length : ℤ) (item_size : ℕ)
    (shape byte_strides : List ℤ) : Type 0 where
  aligned : pos_part offset % item_size ≡ 0
  in_buffer : pos_part offset + pos_part byte_length ≤ buffer_length
  strides : any (is_bad_stride item_size) byte_strides ≡ false
  in_range : item_size + extent (naturals shape) (naturals byte_strides) ≤ pos_part byte_length

aligned_of :
    (o : ℤ) (k : ℕ) → (is_negative o || not (pos_part o % k == 0)) ≡ false → pos_part o % k ≡ 0
aligned_of o k h = ground arith

in_buffer_of :
    (n o : ℕ) (len : ℤ)
    → (is_non_positive len || ltb n (o + pos_part len)) ≡ false
    → o + pos_part len ≤ n
in_buffer_of n o len h = ground arith

le_of_not_ltb : (a b : ℕ) → ltb a b ≡ false → b ≤ a
le_of_not_ltb a b h = ground arith

validate_view-Checked :
    (n : ℕ) (offset byte_length : ℤ) (item_size : ℕ) (shape byte_strides : List ℤ)
    → validate_view n offset byte_length item_size shape byte_strides ≡ ok tt
    → Checked n offset byte_length item_size shape byte_strides
unfolding validate_view
validate_view-Checked n offset byte_length item_size shape byte_strides h =
    let (p, _) = checked-eq-ok _ _ h in
    record {
      aligned = aligned_of offset item_size p.1.1.0;
      in_buffer = in_buffer_of n (pos_part offset) byte_length p.1.1.1.0;
      strides = p.1.1.1.1.0;
      in_range = le_of_not_ltb (pos_part byte_length) _ p.1.1.1.1.1.0;
    }

div_mul : (a k : ℕ) → a % k ≡ 0 → a / k * k ≡ a
div_mul a k h = omega (arith, div-add-mod a k, mul_comm k (a / k))

stride_exact : (s : ℤ) (k : ℕ) → is_bad_stride k s ≡ false → pos_part s / k * k ≡ pos_part s
stride_exact s k h = div_mul (pos_part s) k (aligned_of s k h)

scale_step : (i q k s a b : ℕ) → q * k ≡ s → a ≡ b * k → i * s + a ≡ (i * q + b) * k
scale_step i q k s a b e f = rw (← e, f) (grind arith)

-- The element strides lead to the same byte as the byte strides.
address-element_strides :
    (k : ℕ) (is : List ℕ) (strides : List ℤ)
    → any (is_bad_stride k) strides ≡ false
    → address is (naturals strides) ≡ address is (element_strides k strides) * k
unfolding address
address-element_strides k [] strides h = omega arith
address-element_strides k (i ∷ is) [] h = omega arith
address-element_strides k (i ∷ is) (s ∷ strides) h =
    scale_step i (pos_part s / k) k (pos_part s) _ _ (stride_exact s k (ground arith))
      (address-element_strides k is strides (ground arith))

-- Every element of a view that passes the check, where `torch.as_strided` puts it, lies inside the
-- mapped buffer.
pub validate_view-in_bounds :
    (buffer_length : ℕ) (offset byte_length : ℤ) (item_size : ℕ) (shape byte_strides : List ℤ)
    (is : List ℕ)
    → validate_view buffer_length offset byte_length item_size shape byte_strides ≡ ok tt
    → IsIndex is (naturals shape)
    → (pos_part offset / item_size + address is (element_strides item_size byte_strides))
          * item_size
        + item_size
      ≤ buffer_length
validate_view-in_bounds n offset byte_length item_size shape byte_strides is h index =
    let c = validate_view-Checked n offset byte_length item_size shape byte_strides h in
    omega (
      arith,
      c.in_range,
      c.in_buffer,
      div_mul (pos_part offset) item_size c.aligned,
      address-element_strides item_size is byte_strides c.strides,
      address-le-extent is (naturals shape) (naturals byte_strides) index,
    )
