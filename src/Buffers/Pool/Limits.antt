-- ===== src/Buffers/Pool/Limits.antt =====
-- The cached regions stay within both limits, and `_cached_bytes` is what they hold.
use wmfs.Common.{
  ℕ, suc, ◌+◌, ◌*◌, ◌≤◌, ◌≡◌, refl, sym, ap, ◌∙◌, Bool, ◌||◌, Option, some, none, List, [], ◌∷◌,
  ◌==◌, ==_iff, ltb, leb, length, nat_eq, arith, if_elim, Bool-cases, inl, inr,
}
use mathlib.Core.Path.{subst}
use wmfs.Common.Dict
use wmfs.Common.Dict.{Dict, UniqueKeys}
use wmfs.Buffers.Pool.Model.{
  Region, Pool, new_pool, cached_buffers, store_rest, take_region, allocate_pooled, regions_of,
  keep_region, reset_region, reset_or_release_region, close_pool, last_generation,
}

-- The bytes of the regions of a free list, by the size under which they are kept.
abbrev pub held_bytes : Dict ℕ (List Region) → ℕ
held_bytes [] = 0
held_bytes ((size, regions) ∷ free) = size * length regions + held_bytes free

bytes-put :
    (size : ℕ) (regions : List Region) (free : Dict ℕ (List Region))
    → held_bytes (Dict.put size regions free) + size * length (regions_of (Dict.get size free))
      ≡ held_bytes free + size * length regions
unfolding Dict.put Dict.get
bytes-put size regions [] = grind arith
bytes-put size regions ((k, rs) ∷ free) = elim (Bool-cases (k == size)) [
  | inl same ↦
      let e : k ≡ size = (==_iff k size).0 same in
      rw same (omega (arith, ap (λ n. n * length regions) e, ap (λ n. n * length rs) e))
  | inr other ↦ rw other (omega (arith, bytes-put size regions free))
]

count-put :
    (size : ℕ) (regions : List Region) (free : Dict ℕ (List Region))
    → cached_buffers (Dict.put size regions free) + length (regions_of (Dict.get size free))
      ≡ cached_buffers free + length regions
unfolding Dict.put Dict.get
count-put size regions [] = omega arith
count-put size regions ((k, rs) ∷ free) = ground (arith, count-put size regions free)

bytes-remove :
    (size : ℕ) (free : Dict ℕ (List Region))
    → UniqueKeys free
    → held_bytes (Dict.remove size free) + size * length (regions_of (Dict.get size free))
      ≡ held_bytes free
unfolding Dict.remove Dict.get
bytes-remove size [] u = grind arith
bytes-remove size ((k, rs) ∷ free) u = elim (Bool-cases (k == size)) [
  | inl same ↦
      let e : k ≡ size = (==_iff k size).0 same in
      let gone : Dict.remove size free ≡ free =
        Dict.remove-absent size free (ap (λ n. Dict.get n free) (sym e) ∙ u.0) in
      rw same (omega (arith, ap held_bytes gone, ap (λ n. n * length rs) e))
  | inr other ↦ rw other (omega (arith, bytes-remove size free u.1))
]

count-remove :
    (size : ℕ) (free : Dict ℕ (List Region))
    → cached_buffers (Dict.remove size free) ≤ cached_buffers free
unfolding Dict.remove
count-remove size [] = omega arith
count-remove size ((k, rs) ∷ free) = ground (arith, count-remove size free)

pub record IsValid (p : Pool) : Type 0 where
  pub unique : UniqueKeys p.free
  pub bytes : p.cached_bytes ≡ held_bytes p.free
  pub few : cached_buffers p.free ≤ p.max_cached_buffers
  pub small : p.cached_bytes ≤ p.max_cached_bytes

store_rest-UniqueKeys :
    (size : ℕ) (rest : List Region) (free : Dict ℕ (List Region))
    → UniqueKeys free
    → UniqueKeys (store_rest size rest free)
store_rest-UniqueKeys size [] free u = Dict.UniqueKeys-remove size free u
store_rest-UniqueKeys size (r ∷ rest) free u = Dict.UniqueKeys-put size (r ∷ rest) free u

-- A region that is taken leaves its size less, and one region less.
store_rest_lem :
    (size : ℕ) (r : Region) (rest : List Region) (free : Dict ℕ (List Region))
    → UniqueKeys free
    → Dict.get size free ≡ some (r ∷ rest)
    → (held_bytes (store_rest size rest free) + size ≡ held_bytes free)
      × (cached_buffers (store_rest size rest free) ≤ cached_buffers free)
store_rest_lem size r [] free u h =
    let taken : length (regions_of (Dict.get size free)) ≡ 1 = ap (λ o. length (regions_of o)) h in
    (omega (arith, bytes-remove size free u, ap (λ n. size * n) taken), count-remove size free)
store_rest_lem size r (x ∷ rest) free u h =
    let taken : length (regions_of (Dict.get size free)) ≡ suc (suc (length rest)) =
      ap (λ o. length (regions_of o)) h in
    (
      omega (arith, bytes-put size (x ∷ rest) free, ap (λ n. size * n) taken),
      omega (arith, count-put size (x ∷ rest) free, taken),
    )

allocate_pooled-IsValid : (p : Pool) (size : ℕ) → IsValid p → IsValid (allocate_pooled p size).0
unfolding allocate_pooled
allocate_pooled-IsValid p size v = taking (Dict.get size p.free) refl
  where
    taking :
        (found : Option (List Region))
        → Dict.get size p.free ≡ found
        → IsValid (take_region p size found).0
    taking none there = v
    taking (some []) there = v
    taking (some (r ∷ rest)) there =
        let (bytes, count) = store_rest_lem size r rest p.free v.unique there in
        record {
          unique = store_rest-UniqueKeys size rest p.free v.unique;
          bytes = omega (arith, bytes, v.bytes);
          few = omega (arith, count, v.few);
          small = omega (arith, v.small);
        }

keep_region-IsValid : (p : Pool) (r : Region) → IsValid p → IsValid (keep_region p r).0
unfolding keep_region
keep_region-IsValid p r v =
    if_elim (λ (k : Pool × Bool). IsValid k.0)
      (p.closed
        || leb p.max_cached_buffers (cached_buffers p.free)
        || ltb p.max_cached_bytes (p.cached_bytes + r.byte_length))
      _ _ (λ full. v)
      (λ room. record {
        unique = Dict.UniqueKeys-put r.byte_length _ p.free v.unique;
        bytes = omega (
          arith,
          bytes-put r.byte_length (r ∷ regions_of (Dict.get r.byte_length p.free)) p.free,
          v.bytes,
        );
        few = ground (
          arith,
          room,
          count-put r.byte_length (r ∷ regions_of (Dict.get r.byte_length p.free)) p.free,
        );
        small = ground (arith, room);
      })

reset_or_release_region-IsValid :
    (was_closed resets : Bool) (p : Pool) (r : Region)
    → IsValid p
    → IsValid (reset_or_release_region was_closed resets p r).0
unfolding reset_or_release_region
reset_or_release_region-IsValid was_closed resets p r v =
    if_elim (λ (k : Pool × Bool). IsValid k.0) (was_closed || r.generation == last_generation) _ _
      (λ closes. v)
      (λ open_region.
        if_elim (λ (k : Pool × Bool). IsValid k.0) resets _ _
          (λ good. keep_region-IsValid p (reset_region r) v) (λ bad. v))

-- The threads take regions, give them back and close the manager, each under the lock.
pub data Step (p q : Pool) : Type 0 where
  allocates : (size : ℕ) → q ≡ (allocate_pooled p size).0 → Step p q
  releases :
      (was_closed resets : Bool) (r : Region)
      → q ≡ (reset_or_release_region was_closed resets p r).0
      → Step p q
  closes : q ≡ close_pool p → Step p q

pub data Reach (buffers bytes : ℕ) : Pool → Type 0 where
  start : Reach buffers bytes (new_pool buffers bytes)
  step : {p q : Pool} → Reach buffers bytes p → Step p q → Reach buffers bytes q

Step-IsValid : {p q : Pool} → Step p q → IsValid p → IsValid q
unfolding close_pool
Step-IsValid {p} (allocates size e) v = subst IsValid (sym e) (allocate_pooled-IsValid p size v)
Step-IsValid {p} (releases c k r e) v =
    subst IsValid (sym e) (reset_or_release_region-IsValid c k p r v)
Step-IsValid (closes e) v =
    subst IsValid (sym e)
      (record { unique = tt; bytes = refl; few = omega arith; small = omega arith })

Reach-IsValid : {buffers bytes : ℕ} {p : Pool} → Reach buffers bytes p → IsValid p
Reach-IsValid start = record { unique = tt; bytes = refl; few = omega arith; small = omega arith }
Reach-IsValid (step r s) = Step-IsValid s (Reach-IsValid r)

-- Whatever regions are taken and given back, the pool keeps no more regions and no more bytes than
-- its limits, and `_cached_bytes` is the sum of what it keeps.
pub Reach-limits :
    {buffers bytes : ℕ} {p : Pool}
    → Reach buffers bytes p
    → (cached_buffers p.free ≤ p.max_cached_buffers)
      × (p.cached_bytes ≤ p.max_cached_bytes)
      × (p.cached_bytes ≡ held_bytes p.free)
Reach-limits r = let v = Reach-IsValid r in (v.few, v.small, v.bytes)
