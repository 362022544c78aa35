-- ===== src/Mapping/Cache.antt =====
-- packages/wmfs-plugin/wmfs_plugin/fd_transport.py: `MappedBuffer` and `MappedBufferCache`. A mapping is
-- left out, and a tensor is what `torch.as_strided` is given for it.
use wmfs.Common.{
  ℕ, ◌/◌, Bool, true, false, not, ◌&&◌, ◌||◌, Option, some, none, List, [], ◌∷◌, ◌++◌, ◌==◌, ltb,
  if◌then◌else◌, Result, ok, err, ◌>>=◌, ◌>>◌, or_raise, checked, length, drop, keep, nat_eq,
  string_eq,
}
use Prim.Native.String.{String}
use wmfs.Common.Dict
use wmfs.Common.Dict.{Dict}
use wmfs.Common.Int.{ℤ, pos, negsuc, pos_part}
use wmfs.Views.Mapped.{ViewError, validate_view, element_strides}

pub record ViewKey : Type 0 where
  pub allocation_id : ℕ
  pub offset : ℤ
  pub byte_length : ℤ
  pub dtype_name : String
  pub shape : List ℤ
  pub byte_strides : List ℤ

-- A view: the dtype of its storage, and the other arguments of `torch.as_strided`.
pub record View : Type 0 where
  pub dtype_name : String
  pub shape : List ℤ
  pub strides : List ℕ
  pub storage_offset : ℕ

-- `buffer.views`, in the order of the last use
abbrev pub Views : Type 0
Views = List (ViewKey × View)

pub record MappedBuffer : Type 0 where
  pub generation : ℕ
  pub allocation_id : ℕ
  pub byte_length : ℕ
  pub writable : Bool
  pub arena : Bool
  pub invocation_id : ℕ
  pub views : Views

abbrev pub Cache : Type 0
Cache = Dict ℕ MappedBuffer

pub data CacheError : Type 0 where
  wrong_size : CacheError
  mapping_failed : CacheError
  not_retired : CacheError
  stale_retirement : CacheError
  shared_arena : CacheError
  unmapped : CacheError
  stale_generation : CacheError
  stale_allocation : CacheError
  not_writable : CacheError
  other_invocation : CacheError
  unsupported_dtype : CacheError
  bad_view : ViewError → CacheError

abbrev pub max_cached_views : ℕ
max_cached_views = 64

abbrev pub bool_eq : Bool → Bool → Bool
bool_eq true b = b
bool_eq false b = not b

-- The file behind a descriptor: its size, and whether it can be mapped.
pub record MappedFile : Type 0 where
  pub size : ℕ
  pub mappable : Bool

-- `add`, which closes the descriptor in every case.
unfoldable pub add : Cache → ℕ → MappedBuffer → MappedFile → Cache × Result CacheError (Unit {0})
add cache buffer_id candidate file =
    if not (file.size == candidate.byte_length)
    then (cache, err wrong_size)
    else if not file.mappable
    then (cache, err mapping_failed)
    else elim (Dict.get buffer_id cache) [
      | none ↦ (Dict.put buffer_id candidate cache, ok tt)
      | some existing ↦
          if existing.generation == candidate.generation
            && existing.allocation_id == candidate.allocation_id
            && existing.byte_length == candidate.byte_length
            && bool_eq existing.writable candidate.writable
            && bool_eq existing.arena candidate.arena
            && existing.invocation_id == candidate.invocation_id
          then (cache, ok tt)
          else (cache, err not_retired)
    ]

-- `retire`
unfoldable pub retire : Cache → ℕ → ℕ → ℕ → Cache × Result CacheError (Unit {0})
retire cache buffer_id generation allocation_id = elim (Dict.get buffer_id cache) [
  | none ↦ (cache, ok tt)
  | some existing ↦
      if not (existing.generation == generation) || not (existing.allocation_id == allocation_id)
      then (cache, err stale_retirement)
      else if existing.arena
      then (cache, err shared_arena)
      else (Dict.remove buffer_id cache, ok tt)
]

-- `invalidate` and `close`
abbrev pub invalidate : Cache → Cache
invalidate cache = []

abbrev pub is_expired : ℕ → MappedBuffer → Bool
is_expired invocation_id b = b.writable && not b.arena && b.invocation_id == invocation_id

-- `finish_invocation`
unfoldable pub finish_invocation : Cache → ℕ → Cache
finish_invocation [] invocation_id = []
finish_invocation ((i, b) ∷ cache) invocation_id =
    let rest = finish_invocation cache invocation_id in
    if is_expired invocation_id b then rest else (i, b) ∷ rest

-- `_ITEM_SIZES`, whose names are those of `_DTYPES`.
unfoldable pub item_size_of : String → Option ℕ
item_size_of name =
    if string_eq.beq name "float32"
    then some 4
    else if string_eq.beq name "float64"
    then some 8
    else if string_eq.beq name "int64"
    then some 8
    else if string_eq.beq name "uint8"
    then some 1
    else none

unfoldable pub int_eq : ℤ → ℤ → Bool
int_eq (pos m) (pos n) = m == n
int_eq (negsuc m) (negsuc n) = m == n
int_eq (pos m) (negsuc n) = false
int_eq (negsuc m) (pos n) = false

unfoldable pub ints_eq : List ℤ → List ℤ → Bool
ints_eq [] [] = true
ints_eq [] (n ∷ ns) = false
ints_eq (m ∷ ms) [] = false
ints_eq (m ∷ ms) (n ∷ ns) = int_eq m n && ints_eq ms ns

-- Equality of the keys, which are tuples.
unfoldable pub same_view : ViewKey → ViewKey → Bool
same_view a b =
    a.allocation_id == b.allocation_id
    && int_eq a.offset b.offset
    && int_eq a.byte_length b.byte_length
    && string_eq.beq a.dtype_name b.dtype_name
    && ints_eq a.shape b.shape
    && ints_eq a.byte_strides b.byte_strides

-- buffer.views.get(view_key)
unfoldable pub find_view : ViewKey → Views → Option View
find_view k [] = none
find_view k ((j, view) ∷ views) = if same_view k j then some view else find_view k views

-- The entry of the key becomes the last one.
abbrev pub move_to_end : ViewKey → View → Views → Views
move_to_end k view views = keep (λ (j, _). not (same_view k j)) views ++ (k, view) ∷ []

-- A new view is the last; the oldest goes where there are too many.
abbrev pub insert_view : ViewKey → View → Views → Views
insert_view k view views =
    if ltb max_cached_views (length (views ++ (k, view) ∷ []))
    then drop 1 (views ++ (k, view) ∷ [])
    else views ++ (k, view) ∷ []

-- The view that is made for a key whose offset and strides have been checked.
abbrev pub new_view : ℕ → ViewKey → View
new_view item_size k = record {
  dtype_name = k.dtype_name;
  shape = k.shape;
  strides = element_strides item_size k.byte_strides;
  storage_offset = pos_part k.offset / item_size;
}

-- The checks of `tensor` on the buffer.
unfoldable pub check_buffer : MappedBuffer → ℕ → ℕ → ℕ → Bool → Result CacheError (Unit {0})
check_buffer b generation allocation_id invocation_id require_writable =
    checked
      ((not (b.generation == generation), stale_generation)
        ∷ (not b.arena && not (b.allocation_id == allocation_id), stale_allocation)
        ∷ (require_writable && not b.writable, not_writable)
        ∷ (
          require_writable && not b.arena && not (b.invocation_id == invocation_id),
          other_invocation,
        )
        ∷ [])
      (ok tt)

abbrev pub as_cache_error : Result ViewError (Unit {0}) → Result CacheError (Unit {0})
as_cache_error (ok u) = ok u
as_cache_error (err e) = err (bad_view e)

-- A cached view, or a new one that has been checked; and the views of the buffer after it.
unfoldable pub cached_or_new :
    MappedBuffer → ViewKey → ℕ → Option View → Result CacheError (Views × View)
cached_or_new b k item_size (some cached) = ok (move_to_end k cached b.views, cached)
cached_or_new b k item_size none = do
  as_cache_error
      (validate_view b.byte_length k.offset k.byte_length item_size k.shape k.byte_strides)
  ok (insert_view k (new_view item_size k) b.views, new_view item_size k)

unfoldable pub view_of : MappedBuffer → ViewKey → Result CacheError (Views × View)
view_of b k = do
  item_size ← or_raise (item_size_of k.dtype_name) unsupported_dtype
  cached_or_new b k item_size (find_view k b.views)

-- `tensor`: the cache that it leaves and the view that it returns.
unfoldable pub tensor : Cache → ℕ → ℕ → ViewKey → ℕ → Bool → Result CacheError (Cache × View)
tensor cache buffer_id generation k invocation_id require_writable = do
  b ← or_raise (Dict.get buffer_id cache) unmapped
  check_buffer b generation k.allocation_id invocation_id require_writable
  (views, view) ← view_of b k
  ok (Dict.put buffer_id (record b { views = views }) cache, view)
