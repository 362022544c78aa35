-- ===== src/Buffers/Arena/Safety.antt =====
-- What the tiling of the arena means for the tensors in it.
use wmfs.Common.{
  ℕ, ◌+◌, ◌-◌, ◌%◌, ◌==◌, ==_iff, Bool-cases, inl, inr, ◌≤◌, ◌<◌, ◌≡◌, ◌≢◌, ap, ◌⊎◌, true, some,
  List, [], ◌∷◌, err, nat_eq, All, Option-cases, arith,
}
use wmfs.Common.Dict
use wmfs.Common.Dict.{Dict, UniqueKeys}
use wmfs.Buffers.Arena.FreeList.{Block, align, arena_alignment, take_first, end_of}
use wmfs.Buffers.Arena.Cover.{covers, cover}
use wmfs.Buffers.Arena.Gaps.{IsApart, IsPositive}
use wmfs.Buffers.Arena.Search.{take_first_complete, cover_before}
use wmfs.Buffers.Arena.Model.{Arena, span, with_region, allocate_arena, exhausted}
use wmfs.Buffers.Arena.Invariant.{spans, inside, align_lem, AllSound-get}
use wmfs.Buffers.Arena.Steps.{IsValid, Reach, Reach-IsValid, region_of_live, with_region-IsValid}

-- A live allocation holds its own bytes.
cover-get :
    (x i : ℕ) (b : Block) (active : Dict ℕ Block)
    → Dict.get i active ≡ some b
    → covers x (span b) ≤ cover x (spans active)
unfolding Dict.get
cover-get x i b [] found = cc
cover-get x i b ((j, c) ∷ d) found = ground (arith, cover-get x i b d)

-- Two live allocations hold theirs twice.
cover-get_two :
    (x i j : ℕ) (b c : Block) (active : Dict ℕ Block)
    → Dict.get i active ≡ some b
    → Dict.get j active ≡ some c
    → i ≢ j
    → covers x (span b) + covers x (span c) ≤ cover x (spans active)
unfolding Dict.get
cover-get_two x i j b c [] p q ne = cc
cover-get_two x i j b c ((k, d) ∷ ds) p q ne =
    ground (arith, cover-get x i b ds, cover-get x j c ds, cover-get_two x i j b c ds)

disjoint_of_covers :
    (b c : Block)
    → 0 < b.size
    → 0 < c.size
    → ((x : ℕ) → covers x (span b) + covers x (span c) ≤ 1)
    → (end_of b ≤ c.offset) ⊎ (end_of c ≤ b.offset)
disjoint_of_covers b c p q once =
    ground (arith, once b.offset, once c.offset, align_lem b.size, align_lem c.size)

-- In every state that the manager can reach, a live allocation lies inside the arena at an aligned
-- offset, and a live allocation is the same one or has no byte in common with it.
pub Reach-disjoint :
    {bytes : ℕ} {a : Arena} (i j : ℕ) (b c : Block)
    → Reach bytes a
    → Dict.get i a.active ≡ some b
    → Dict.get j a.active ≡ some c
    → (end_of b ≤ a.bytes)
      × (b.offset % arena_alignment ≡ 0)
      × ((i ≡ j) ⊎ ((end_of b ≤ c.offset) ⊎ (end_of c ≤ b.offset)))
Reach-disjoint {a = a} i j b c r p q =
    let v = Reach-IsValid r in
    let t = v.tiled (region_of_live i b v p) in
    let sound_b = AllSound-get i b a.active p t.sound in
    let sound_c = AllSound-get j c a.active q t.sound in
    let last = b.offset + b.size - 1 in
    (
      ground (arith, t.tiles last, cover-get last i b a.active p, align_lem b.size, sound_b),
      sound_b.1,
      elim (Bool-cases (i == j)) [
        | inl one ↦ inl ((==_iff i j).0 one)
        | inr two ↦ inr (
            disjoint_of_covers b c sound_b.0 sound_c.0 (λ x.
              at_most_one x (t.tiles x)
                (cover-get_two x i j b c a.active p q (λ e. ground (arith, two, e)))))
      ],
    )
  where
    at_most_one :
        (x : ℕ)
        → cover x a.free + cover x (spans a.active) ≡ inside x a.bytes
        → covers x (span b) + covers x (span c) ≤ cover x (spans a.active)
        → covers x (span b) + covers x (span c) ≤ 1
    at_most_one x e f = ground arith

-- Where a request finds the arena exhausted, every range of the rounded length that lies inside the
-- arena holds a byte of the span of a live allocation, which is its length rounded up to the alignment.
pub allocate_arena_complete :
    {a : Arena} (len o : ℕ)
    → IsValid a
    → 0 < len
    → (allocate_arena a len).1 ≡ err exhausted
    → o + align len arena_alignment ≤ a.bytes
    → (x : ℕ) × (o ≤ x) × (x < o + align len arena_alignment) × (cover x (spans a.active) ≡ 1)
unfolding allocate_arena
allocate_arena_complete {a} len o v pos e fits =
    let (w, there, same, size) = with_region-IsValid v in
    let t = w.tiled there in
    let (x, lo, hi, used) =
      take_first_complete (align len arena_alignment) (with_region a).free
        (ground (arith, Option-cases (take_first (align len arena_alignment) (with_region a).free)))
        t.apart (omega (arith, align_lem len)) o in
    (x, lo, hi, ground (arith, t.tiles x, same, size, ap (λ d. cover x (spans d)) same))

covers-end : (b : Block) → covers (end_of b) b ≡ 0
covers-end b = ground arith

outside : (x n k : ℕ) {m : ℕ} → k ≡ 0 → m ≡ 0 → k + m ≡ inside x n → n ≤ x
outside x n k p q e = ground arith

beyond :
    (c : Block) (n k m : ℕ)
    → k + (covers c.offset c + m) ≡ inside c.offset n
    → 0 < c.size
    → n ≤ c.offset
    → ⊥
beyond c n k m e pos h = ground arith

whole_of_tiles :
    (free : List Block) (n : ℕ)
    → IsApart free
    → All IsPositive free
    → 0 < n
    → ((x : ℕ) → cover x free ≡ inside x n)
    → free ≡ record { offset = 0; size = n } ∷ []
whole_of_tiles [] n a p pos tiles = absurd (ground (arith, tiles 0))
whole_of_tiles (b ∷ []) n a p pos tiles = ground (arith, tiles 0, tiles (n - 1), tiles n)
whole_of_tiles (b ∷ c ∷ cs) n a p pos tiles =
    let used = cover_before (end_of b) (c ∷ cs) a.0 a.1 in
    let all_before =
      outside (end_of b) n (covers (end_of b) b) (covers-end b) used (tiles (end_of b)) in
    absurd (beyond c n (covers c.offset b) (cover c.offset cs) (tiles c.offset) p.1.0 (omega arith))

-- Once every allocation is released, the free list is one block again, the whole arena.
pub Reach-reclaimed :
    {bytes : ℕ} {a : Arena}
    → Reach bytes a
    → a.region ≡ true
    → a.active ≡ []
    → a.free ≡ record { offset = 0; size = a.bytes } ∷ []
Reach-reclaimed {a = a} r there idle =
    let v = Reach-IsValid r in
    let t = v.tiled there in
    whole_of_tiles a.free a.bytes t.apart t.positive v.size.0
      (λ x. omega (arith, t.tiles x, ap (λ d. cover x (spans d)) idle))
