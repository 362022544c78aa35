-- ===== src/Buffers/Arena/Cover.antt =====
-- Every operation on the free list, seen byte by byte: how many blocks hold the byte at `x`.
use wmfs.Common.{
  ℕ, ◌+◌, ◌≡◌, refl, ◌&&◌, some, List, [], ◌∷◌, ◌++◌, ltb, leb, if◌then◌else◌, Option-cases,
  Bool-cases, inl, inr, arith,
}
use wmfs.Buffers.Arena.FreeList.{
  Block, end_of, take_first, insert_block, sort_blocks, merge_from, merge_blocks, release_block,
  block_le,
}

abbrev pub covers : ℕ → Block → ℕ
covers x b = if leb b.offset x && ltb x (end_of b) then 1 else 0

abbrev pub cover : ℕ → List Block → ℕ
cover x [] = 0
cover x (b ∷ bs) = covers x b + cover x bs

pub cover-append : (x : ℕ) (bs cs : List Block) → cover x (bs ++ cs) ≡ cover x bs + cover x cs
cover-append x [] cs = omega arith
cover-append x (b ∷ bs) cs = omega (arith, cover-append x bs cs)

pub cover-insert_block :
    (x : ℕ) (b : Block) (bs : List Block) → cover x (insert_block b bs) ≡ covers x b + cover x bs
unfolding insert_block
cover-insert_block x b [] = refl
cover-insert_block x b (c ∷ cs) = elim (Bool-cases (block_le b c)) [
  | inl first ↦ rw first
  | inr later ↦ rw later (omega (arith, cover-insert_block x b cs))
]

pub cover-sort_blocks : (x : ℕ) (bs : List Block) → cover x (sort_blocks bs) ≡ cover x bs
unfolding sort_blocks
cover-sort_blocks x [] = refl
cover-sort_blocks x (b ∷ bs) =
    omega (arith, cover-insert_block x b (sort_blocks bs), cover-sort_blocks x bs)

pub cover-merge_from :
    (x : ℕ) (last : Block) (bs : List Block)
    → cover x (merge_from last bs) ≡ covers x last + cover x bs
unfolding merge_from
cover-merge_from x last [] = refl
cover-merge_from x last (b ∷ bs) = ground (
  arith,
  cover-merge_from x (record last { size = last.size + b.size }) bs,
  cover-merge_from x b bs,
)

cover-merge_blocks : (x : ℕ) (bs : List Block) → cover x (merge_blocks bs) ≡ cover x bs
unfolding merge_blocks
cover-merge_blocks x [] = refl
cover-merge_blocks x (b ∷ bs) = cover-merge_from x b bs

-- A release frees exactly the bytes of its block.
pub cover-release_block :
    (x : ℕ) (b : Block) (free : List Block)
    → cover x (release_block b free) ≡ cover x free + covers x b
unfolding release_block
cover-release_block x b free = omega (
  arith,
  cover-merge_blocks x (sort_blocks (free ++ b ∷ [])),
  cover-sort_blocks x (free ++ b ∷ []),
  cover-append x free (b ∷ []),
)

-- An allocation takes exactly the bytes of its block.
pub cover-take_first :
    (x required : ℕ) (free : List Block) {offset : ℕ} {rest : List Block}
    → take_first required free ≡ some (offset, rest)
    → cover x rest + covers x (record { offset = offset; size = required }) ≡ cover x free
unfolding take_first
cover-take_first x required [] h = cc
cover-take_first x required (b ∷ bs) h = elim (Option-cases (take_first required bs)) [
  | inl nothing ↦ ground arith
  | inr ((o, rest), found) ↦ ground (arith, cover-take_first x required bs found)
]
