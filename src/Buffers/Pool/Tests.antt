-- ===== src/Buffers/Pool/Tests.antt =====
-- A pool of one region of at most 64 bytes.
use wmfs.Common.{ℕ, ◌≤◌, ◌≡◌, refl, true, false, some, none, [], ◌∷◌, nat_eq}
use wmfs.Common.Dict
use wmfs.Buffers.Pool.Model.{
  Region, Pool, new_pool, allocate_pooled, keep_region, reset_or_release_region,
}
use wmfs.Buffers.Pool.Limits.{held_bytes, Reach, start, step, releases, Reach-limits}

abbrev region : ℕ → ℕ → Region
region i bytes = record { id = i; generation = 1; byte_length = bytes }

abbrev one_cached : Pool
one_cached = record (new_pool 1 64) {
  free = (48, record (region 5 48) { generation = 2 } ∷ []) ∷ [];
  cached_bytes = 48;
}

one_cached-Reach : Reach 1 64 one_cached
unfolding reset_or_release_region keep_region Dict.get Dict.put
one_cached-Reach = step start (releases false true (region 5 48) refl)

Reach-limits_example : (1 ≤ 1) × (48 ≤ 64) × (48 ≡ held_bytes one_cached.free)
Reach-limits_example = Reach-limits one_cached-Reach

-- A second region is not kept, and a request of the cached size takes the first.
one_more :
    ((reset_or_release_region false true one_cached (region 6 8)).1 ≡ false)
    × (allocate_pooled one_cached 48
        ≡ (new_pool 1 64, some (record (region 5 48) { generation = 2 })))
    × ((allocate_pooled one_cached 16).1 ≡ none)
unfolding reset_or_release_region keep_region allocate_pooled Dict.get Dict.remove
one_more = (refl, refl, refl)
