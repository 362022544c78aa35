-- ===== src/Mapping/Tests.antt =====
-- A worker's mapped buffers in a concrete session.
use wmfs.Common.{
  ℕ, ◌+◌, ◌*◌, ◌/◌, ◌≤◌, ◌≡◌, refl, true, false, not, ◌&&◌, some, List, [], ◌∷◌, ok, err, checked,
  nat_eq,
}
use wmfs.Common.Dict
use wmfs.Common.Int.{pos, pos_part}
use wmfs.Control.Enums.{map_entry}
use wmfs.Control.FdBatch.{FdEntry, FdBatch}
use wmfs.Views.Extent.{address, extent, IsIndex}
use wmfs.Views.Mapped.{validate_view, element_strides, naturals}
use wmfs.Mapping.Cache.{
  ViewKey, View, find_view, cached_or_new, same_view, int_eq, ints_eq, MappedBuffer, Cache,
  stale_generation, add, check_buffer, view_of, tensor, item_size_of,
}
use wmfs.Mapping.Bounds.{Reach, start, step, adds, makes, Reach-tensor}
use wmfs.Mapping.Receiver.{Received, serve, serve_entries}
use wmfs.Mapping.Disposal.{Disposed, is_ok, serve-Disposed, serve-clears}

abbrev plain : ℕ → MappedBuffer
plain bytes = record {
  generation = 1;
  allocation_id = 5;
  byte_length = bytes;
  writable = true;
  arena = false;
  invocation_id = 8;
  views = [];
}

-- Two rows of three float32.
abbrev matrix : ViewKey
matrix = record {
  allocation_id = 5;
  offset = pos 0;
  byte_length = pos 24;
  dtype_name = "float32";
  shape = pos 2 ∷ pos 3 ∷ [];
  byte_strides = pos 12 ∷ pos 4 ∷ [];
}

abbrev mapped : Cache
mapped = (70, plain 24) ∷ []

mapped-Reach : Reach mapped
unfolding add Dict.get Dict.put
mapped-Reach = step start (adds 70 (plain 24) (record { size = 24; mappable = true }) refl refl)

abbrev matrix_view : View
matrix_view = record {
  dtype_name = "float32";
  shape = pos 2 ∷ pos 3 ∷ [];
  strides = 3 ∷ 1 ∷ [];
  storage_offset = 0;
}

abbrev seen : Cache
seen = (70, record (plain 24) { views = (matrix, matrix_view) ∷ [] }) ∷ []

tensor-matrix : tensor mapped 70 1 matrix 8 true ≡ ok (seen, matrix_view)
unfolding tensor Dict.get Dict.put check_buffer view_of find_view cached_or_new item_size_of
    validate_view extent checked element_strides
tensor-matrix = refl

tensor-stale : tensor mapped 70 2 matrix 8 true ≡ err stale_generation
unfolding tensor Dict.get check_buffer checked
tensor-stale = refl

-- The second time the view is a cached one.
tensor-cached : tensor seen 70 1 matrix 8 true ≡ ok (seen, matrix_view)
unfolding tensor Dict.get Dict.put check_buffer view_of find_view cached_or_new item_size_of
    same_view int_eq ints_eq checked
tensor-cached = refl

seen-Reach : Reach seen
seen-Reach = step mapped-Reach (makes 70 1 matrix 8 true matrix_view tensor-matrix)

Reach-tensor_example :
    (b : MappedBuffer) × (item_size : ℕ) × (Dict.get 70 seen ≡ some b)
    × (b.generation ≡ 1)
    × ((true && not b.writable) ≡ false)
    × (item_size_of "float32" ≡ some item_size)
    × (matrix_view.dtype_name ≡ matrix.dtype_name)
    × (matrix_view.shape ≡ matrix.shape)
    × (matrix_view.strides ≡ element_strides item_size matrix.byte_strides)
    × (matrix_view.storage_offset ≡ pos_part matrix.offset / item_size)
    × ((is : List ℕ)
        → IsIndex is (naturals matrix_view.shape)
        → (matrix_view.storage_offset + address is matrix_view.strides) * item_size + item_size
          ≤ b.byte_length)
Reach-tensor_example = Reach-tensor 70 1 matrix 8 true seen-Reach tensor-cached

abbrev map_of : ℕ → FdEntry
map_of bytes = record {
  kind = map_entry;
  flags = 1;
  buffer_id = 71;
  generation = 1;
  allocation_id = 6;
  invocation_id = 8;
  byte_length = bytes;
}

-- The second descriptor does not have the size that its entry tells.
abbrev bad_batch : FdBatch
bad_batch = record {
  transfer_id = 2;
  session_generation = 3;
  entries =
      map_of 24 ∷ record (map_of 32) { buffer_id = 72 } ∷ record (map_of 8) { buffer_id = 73 } ∷ [];
}

abbrev received : List Received
received =
    (10, record { size = 24; mappable = true })
    ∷ (11, record { size = 16; mappable = true })
    ∷ (12, record { size = 8; mappable = true })
    ∷ []

bad_batch_closes : (serve 3 mapped bad_batch received).closed ≡ 10 ∷ 11 ∷ 11 ∷ 12 ∷ []
unfolding serve serve_entries add Dict.get Dict.put
bad_batch_closes = refl

serve-Disposed_example :
    Disposed mapped bad_batch.entries received (serve 3 mapped bad_batch received)
serve-Disposed_example = serve-Disposed 3 mapped bad_batch received refl

bad_batch_fails : is_ok (serve 3 mapped bad_batch received).result ≡ false
unfolding serve serve_entries add Dict.get Dict.put
bad_batch_fails = refl

serve-clears_example : (serve 3 mapped bad_batch received).cache ≡ []
serve-clears_example = serve-clears 3 mapped bad_batch received refl bad_batch_fails
