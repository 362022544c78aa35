-- ===== src/Buffers/Pool/Model.antt =====
-- packages/wmfs/wmfs/memory/buffers.py: `_allocate_pooled` and `_reset_or_release_region`. The last
-- item of a list of `_free`, which `pop` takes and `append` adds, is the head of the list here.
use wmfs.Common.{
  ℕ, ◌+◌, ◌-◌, Bool, true, false, ◌||◌, Option, some, none, List, [], ◌∷◌, ◌==◌, ltb, leb,
  if◌then◌else◌, length, nat_eq,
}
use wmfs.Common.Dict
use wmfs.Common.Dict.{Dict}

pub record Region : Type 0 where
  pub id : ℕ
  pub generation : ℕ
  pub byte_length : ℕ

pub record Pool : Type 0 where
  pub max_cached_buffers : ℕ
  pub max_cached_bytes : ℕ
  pub free : Dict ℕ (List Region)
  pub cached_bytes : ℕ
  pub closed : Bool

abbrev pub new_pool : ℕ → ℕ → Pool
new_pool buffers bytes = record {
  max_cached_buffers = buffers;
  max_cached_bytes = bytes;
  free = [];
  cached_bytes = 0;
  closed = false;
}

abbrev pub last_generation : ℕ
last_generation = 0xFFFFFFFF

-- `sum(len(items) for items in self._free.values())`
abbrev pub cached_buffers : Dict ℕ (List Region) → ℕ
cached_buffers [] = 0
cached_buffers ((size, regions) ∷ free) = length regions + cached_buffers free

-- What `_free` holds after a region of `size` bytes has been taken, of which `rest` are left.
abbrev pub store_rest : ℕ → List Region → Dict ℕ (List Region) → Dict ℕ (List Region)
store_rest size [] free = Dict.remove size free
store_rest size (r ∷ rest) free = Dict.put size (r ∷ rest) free

-- What `_allocate_pooled` does with the regions that it finds. What is subtracted is never more than
-- `cached_bytes` in a pool that is valid.
abbrev pub take_region : Pool → ℕ → Option (List Region) → Pool × Option Region
take_region p size none = (p, none)
take_region p size (some []) = (p, none)
take_region p size (some (r ∷ rest)) =
    (record p { free = store_rest size rest p.free; cached_bytes = p.cached_bytes - size }, some r)

-- `_allocate_pooled`: the cached region that it takes; `none` is where it makes a new one.
unfoldable pub allocate_pooled : Pool → ℕ → Pool × Option Region
allocate_pooled p size = take_region p size (Dict.get size p.free)

abbrev pub regions_of : Option (List Region) → List Region
regions_of none = []
regions_of (some regions) = regions

-- `self._free.setdefault(region.byte_length, []).append(region)`
abbrev pub add_region : Region → Dict ℕ (List Region) → Dict ℕ (List Region)
add_region r free = Dict.put r.byte_length (r ∷ regions_of (Dict.get r.byte_length free)) free

-- The part of `_reset_or_release_region` behind the reset; the Boolean tells whether the region is
-- kept, and one that is not is closed.
unfoldable pub keep_region : Pool → Region → Pool × Bool
keep_region p r =
    if p.closed
      || leb p.max_cached_buffers (cached_buffers p.free)
      || ltb p.max_cached_bytes (p.cached_bytes + r.byte_length)
    then (p, false)
    else (
      record p { free = add_region r p.free; cached_bytes = p.cached_bytes + r.byte_length },
      true,
    )

abbrev pub reset_region : Region → Region
reset_region r = record r { generation = r.generation + 1 }

-- `_reset_or_release_region`, where `was_closed` is what its first look at `_closed` finds and
-- `resets` tells whether `reset` succeeds.
unfoldable pub reset_or_release_region : Bool → Bool → Pool → Region → Pool × Bool
reset_or_release_region was_closed resets p r =
    if was_closed || r.generation == last_generation
    then (p, false)
    else if resets
    then keep_region p (reset_region r)
    else (p, false)

-- `close`, as far as the pool goes.
unfoldable pub close_pool : Pool → Pool
close_pool p = record p { free = []; cached_bytes = 0; closed = true }
