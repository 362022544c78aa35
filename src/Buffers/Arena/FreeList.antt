-- ===== src/Buffers/Arena/FreeList.antt =====
-- packages/wmfs/wmfs/memory/buffers.py: the free list of the arena (`_allocate_arena`,
-- `_release_arena`, `_align`), whose items are pairs of an offset and a size.
use wmfs.Common.{
  ℕ, ◌+◌, ◌-◌, ◌*◌, ◌/◌, Bool, ◌&&◌, ◌||◌, Option, some, none, List, [], ◌∷◌, ◌++◌, ltb, leb, ◌==◌,
  if◌then◌else◌,
}

pub record Block : Type 0 where
  pub offset : ℕ
  pub size : ℕ

abbrev pub end_of : Block → ℕ
end_of b = b.offset + b.size

abbrev pub arena_alignment : ℕ
arena_alignment = 64

-- `_align`
unfoldable pub align : ℕ → ℕ → ℕ
align value alignment = (value + alignment - 1) / alignment * alignment

-- The loop of `_allocate_arena`: the first block that is long enough gives its front, and the rest
-- of it stays in its place. The result is the offset and the new free list.
unfoldable pub take_first : ℕ → List Block → Option (ℕ × List Block)
take_first required [] = none
take_first required (b ∷ bs) =
    let later : Option (ℕ × List Block) = (elim (take_first required bs) [
      | none ↦ none
      | some (offset, rest) ↦ some (offset, b ∷ rest)
    ]) in
    let found : Option (ℕ × List Block) = some (
      b.offset,
      (if ltb required b.size
          then record { offset = b.offset + required; size = b.size - required } ∷ bs
          else bs),
    ) in
    if ltb b.size required then later else found

-- The order of two pairs.
abbrev pub block_le : Block → Block → Bool
block_le a b = ltb a.offset b.offset || (a.offset == b.offset && leb a.size b.size)

unfoldable pub insert_block : Block → List Block → List Block
insert_block b [] = b ∷ []
insert_block b (c ∷ cs) = if block_le b c then b ∷ c ∷ cs else c ∷ insert_block b cs

-- `list.sort()`
unfoldable pub sort_blocks : List Block → List Block
sort_blocks [] = []
sort_blocks (b ∷ bs) = insert_block b (sort_blocks bs)

-- The loop of `_release_arena`: `last` is `merged[-1]`.
unfoldable pub merge_from : Block → List Block → List Block
merge_from last [] = last ∷ []
merge_from last (b ∷ bs) =
    let joined = merge_from (record last { size = last.size + b.size }) bs in
    let apart = last ∷ merge_from b bs in if end_of last == b.offset then joined else apart

unfoldable pub merge_blocks : List Block → List Block
merge_blocks [] = []
merge_blocks (b ∷ bs) = merge_from b bs

-- The free list that `_release_arena` leaves.
unfoldable pub release_block : Block → List Block → List Block
release_block b free = merge_blocks (sort_blocks (free ++ b ∷ []))
