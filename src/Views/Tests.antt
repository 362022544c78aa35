-- ===== src/Views/Tests.antt =====
-- Views at concrete shapes.
use wmfs.Common.{◌+◌, ◌*◌, ◌/◌, ◌≤◌, ◌≡◌, refl, [], ◌∷◌, ok, err, checked, arith}
use wmfs.Common.Int.{pos, negsuc, pos_part}
use wmfs.Views.Extent.{extent, address}
use wmfs.Views.Contiguous.{
  Layout, layout, element_count, contiguous_strides, contiguous_strides_lem, layout-extent,
}
use wmfs.Views.Managed.{
  TensorView, Descriptor, managed, managed-in_bounds, negative_strides, exceeds_allocation,
}
use wmfs.Views.Mapped.{
  validate_view, element_strides, validate_view-in_bounds, bad_strides, out_of_buffer,
}

-- float32, two rows of three
abbrev matrix : Layout
matrix = record { byte_length = 24; byte_strides = 12 ∷ 4 ∷ [] }

layout-matrix : layout (2 ∷ 3 ∷ []) 4 ≡ ok matrix
unfolding layout
layout-matrix = refl

layout-extent_example : 4 + extent (2 ∷ 3 ∷ []) (12 ∷ 4 ∷ []) ≡ 24
layout-extent_example = layout-extent (2 ∷ 3 ∷ []) 4 layout-matrix

contiguous_strides_lem_example :
    (contiguous_strides (2 ∷ 3 ∷ 4 ∷ []) ≡ 12 ∷ 4 ∷ 1 ∷ []) × (element_count (2 ∷ 3 ∷ 4 ∷ []) ≡ 24)
contiguous_strides_lem_example = contiguous_strides_lem 2 (3 ∷ 4 ∷ [])

-- The second row of that matrix.
abbrev row : TensorView
row = record { shape = 3 ∷ []; strides = pos 1 ∷ []; storage_offset = 3; item_size = 4 }

abbrev row_descriptor : Descriptor
row_descriptor = record { offset = 76; byte_length = 12; byte_strides = 4 ∷ [] }

managed-row : managed 64 24 row ≡ ok row_descriptor
unfolding managed extent checked element_count
managed-row = refl

managed_error_rows :
    (managed 64 20 row ≡ err exceeds_allocation)
    × (managed 64 24 (record row { strides = negsuc 0 ∷ [] }) ≡ err negative_strides)
unfolding managed extent checked element_count
managed_error_rows = (refl, refl)

managed-in_bounds_example :
    (64 ≤ row_descriptor.offset)
    × (address (2 ∷ []) row_descriptor.byte_strides + 4 ≤ row_descriptor.byte_length)
    × (row_descriptor.offset + address (2 ∷ []) row_descriptor.byte_strides + 4 ≤ 64 + 24)
managed-in_bounds_example = managed-in_bounds 64 24 row (2 ∷ []) managed-row (omega arith, tt)

validate_row : validate_view 128 (pos 76) (pos 12) 4 (pos 3 ∷ []) (pos 4 ∷ []) ≡ ok tt
unfolding validate_view extent checked
validate_row = refl

validate_errors :
    (validate_view 80 (pos 76) (pos 12) 4 (pos 3 ∷ []) (pos 4 ∷ []) ≡ err out_of_buffer)
    × (validate_view 128 (pos 76) (pos 12) 4 (pos 3 ∷ []) (pos 6 ∷ []) ≡ err bad_strides)
unfolding validate_view extent checked
validate_errors = (refl, refl)

validate_view-in_bounds_example :
    (pos_part (pos 76) / 4 + address (2 ∷ []) (element_strides 4 (pos 4 ∷ []))) * 4 + 4 ≤ 128
validate_view-in_bounds_example =
    validate_view-in_bounds 128 (pos 76) (pos 12) 4 (pos 3 ∷ []) (pos 4 ∷ []) (2 ∷ []) validate_row
      (omega arith, tt)
