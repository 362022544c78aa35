-- ===== src/Views/Managed.antt =====
-- packages/wmfs/wmfs/memory/buffers.py: the descriptor that `BufferManager.managed` gives a view of
-- a live allocation.
use wmfs.Common.{
  ℕ, ◌+◌, ◌*◌, ◌≤◌, ◌<◌, ◌≡◌, false, ◌||◌, List, [], ◌∷◌, map, ◌==◌, ltb, if◌then◌else◌, any,
  Result, ok, checked, checked-eq-ok, arith,
}
use wmfs.Common.Int.{ℤ, is_negative, pos_part}
use wmfs.Views.Extent.{extent, address, IsIndex, address-le-extent}
use wmfs.Views.Contiguous.{element_count, count_from}

-- What torch says of a strided CPU tensor.
pub record TensorView : Type 0 where
  pub shape : List ℕ
  pub strides : List ℤ
  pub storage_offset : ℕ
  pub item_size : ℕ

pub record Descriptor : Type 0 where
  pub offset : ℕ
  pub byte_length : ℕ
  pub byte_strides : List ℕ

pub data ManagedError : Type 0 where
  negative_strides : ManagedError
  exceeds_allocation : ManagedError

abbrev pub byte_strides_of : TensorView → List ℕ
byte_strides_of t = map (λ s. pos_part s * t.item_size) t.strides

abbrev pub byte_length_of : TensorView → ℕ
byte_length_of t =
    if element_count t.shape == 0 then 0 else t.item_size + extent t.shape (byte_strides_of t)

-- `managed`, for an allocation at `start` of `size` bytes.
unfoldable pub managed : ℕ → ℕ → TensorView → Result ManagedError Descriptor
managed start size t =
    let offset = start + t.storage_offset * t.item_size in
    checked
      ((any is_negative t.strides, negative_strides)
        ∷ (ltb offset start || ltb (start + size) (offset + byte_length_of t), exceeds_allocation)
        ∷ [])
      (ok (record {
        offset = offset;
        byte_length = byte_length_of t;
        byte_strides = byte_strides_of t;
      }))

index_positive :
    (is ds : List ℕ) → IsIndex is ds → (count : ℕ) → 0 < count → 0 < count_from count ds
unfolding count_from
index_positive [] [] h count pos = pos
index_positive [] (d ∷ ds) h count pos = absurd h
index_positive (i ∷ is) [] h count pos = absurd h
index_positive (i ∷ is) (d ∷ ds) h count pos =
    index_positive is ds h.1 (count * d) (times_pos count d i pos h.0)
  where
    times_pos : (a b k : ℕ) → 0 < a → k < b → 0 < a * b
    times_pos a b k p q = grind arith

in_allocation :
    (o start size n : ℕ)
    → (ltb o start || ltb (start + size) (o + n)) ≡ false
    → (start ≤ o) × (o + n ≤ start + size)
in_allocation o start size n h = ground arith

-- Every element of a view that gets a descriptor lies inside the allocation that it is a view of,
-- and inside the bytes that the descriptor names.
pub managed-in_bounds :
    (start size : ℕ) (t : TensorView) (is : List ℕ) {d : Descriptor}
    → managed start size t ≡ ok d
    → IsIndex is t.shape
    → (start ≤ d.offset)
      × (address is d.byte_strides + t.item_size ≤ d.byte_length)
      × (d.offset + address is d.byte_strides + t.item_size ≤ start + size)
unfolding managed element_count
managed-in_bounds start size t is {d} h index =
    let (p, e) = checked-eq-ok _ _ h in
    let bounds =
      in_allocation (start + t.storage_offset * t.item_size) start size (byte_length_of t) p.1.0 in
    let fits = address-le-extent is t.shape (byte_strides_of t) index in
    let full = index_positive is t.shape index 1 (omega arith) in
    ground (arith, e, bounds, fits, full)
