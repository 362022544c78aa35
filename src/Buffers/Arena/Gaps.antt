-- ===== src/Buffers/Arena/Gaps.antt =====
-- The shape of the free list: in order, and joined as far as it goes.
use wmfs.Common.{
  ℕ, ◌+◌, ◌≤◌, ◌<◌, ◌≡◌, ◌==◌, true, false, List, [], ◌∷◌, ◌++◌, All, All-append, ==_iff,
  Bool-cases, inl, inr, arith,
}
use wmfs.Buffers.Arena.FreeList.{
  Block, end_of, insert_block, sort_blocks, merge_from, merge_blocks, release_block, block_le,
}
use wmfs.Buffers.Arena.Cover.{covers, cover, cover-sort_blocks, cover-append}

abbrev pub IsPositive : Block → Type 0
IsPositive b = 0 < b.size

-- The first block of a list, if any, begins after `n`, or not before it.
abbrev pub StartsAfter : ℕ → List Block → Type 0
StartsAfter n [] = Unit {0}
StartsAfter n (b ∷ bs) = n < b.offset

abbrev pub StartsFrom : ℕ → List Block → Type 0
StartsFrom n [] = Unit {0}
StartsFrom n (b ∷ bs) = n ≤ b.offset

-- Between two blocks of the list a byte at least is in use.
abbrev pub IsApart : List Block → Type 0
IsApart [] = Unit {0}
IsApart (b ∷ bs) = StartsAfter (end_of b) bs × IsApart bs

-- The blocks are in order and have no byte in common; they may touch.
abbrev pub IsOrdered : List Block → Type 0
IsOrdered [] = Unit {0}
IsOrdered (b ∷ bs) = StartsFrom (end_of b) bs × IsOrdered bs

-- The offsets do not fall.
abbrev pub IsSorted : List Block → Type 0
IsSorted [] = Unit {0}
IsSorted (b ∷ bs) = StartsFrom b.offset bs × IsSorted bs

block_le-le : (b c : Block) → block_le b c ≡ true → b.offset ≤ c.offset
block_le-le b c h = ground arith

block_le-ge : (b c : Block) → block_le b c ≡ false → c.offset ≤ b.offset
block_le-ge b c h = ground arith

StartsFrom-insert_block :
    (n : ℕ) (b : Block) (bs : List Block)
    → n ≤ b.offset
    → StartsFrom n bs
    → StartsFrom n (insert_block b bs)
unfolding insert_block
StartsFrom-insert_block n b [] h g = h
StartsFrom-insert_block n b (c ∷ cs) h g = elim (Bool-cases (block_le b c)) [
  | inl first ↦ rw first h
  | inr later ↦ rw later g
]

IsSorted-insert_block : (b : Block) (bs : List Block) → IsSorted bs → IsSorted (insert_block b bs)
unfolding insert_block
IsSorted-insert_block b [] s = (tt, tt)
IsSorted-insert_block b (c ∷ cs) s = elim (Bool-cases (block_le b c)) [
  | inl first ↦ rw first (block_le-le b c first, s)
  | inr later ↦ rw later (
    StartsFrom-insert_block c.offset b cs (block_le-ge b c later) s.0,
    IsSorted-insert_block b cs s.1,
  )
]

IsSorted-sort_blocks : (bs : List Block) → IsSorted (sort_blocks bs)
unfolding sort_blocks
IsSorted-sort_blocks [] = tt
IsSorted-sort_blocks (b ∷ bs) = IsSorted-insert_block b (sort_blocks bs) (IsSorted-sort_blocks bs)

All-insert_block :
    (P : Block → Type 0) (b : Block) (bs : List Block) → P b → All P bs → All P (insert_block b bs)
unfolding insert_block
All-insert_block P b [] p ps = (p, tt)
All-insert_block P b (c ∷ cs) p ps = elim (Bool-cases (block_le b c)) [
  | inl first ↦ rw first (p, ps)
  | inr later ↦ rw later (ps.0, All-insert_block P b cs p ps.1)
]

pub All-sort_blocks : (P : Block → Type 0) (bs : List Block) → All P bs → All P (sort_blocks bs)
unfolding sort_blocks
All-sort_blocks P [] ps = tt
All-sort_blocks P (b ∷ bs) ps =
    All-insert_block P b (sort_blocks bs) ps.0 (All-sort_blocks P bs ps.1)

-- Sorted blocks that hold no byte twice do not reach into one another.
IsOrdered-of_sorted :
    (bs : List Block) → IsSorted bs → All IsPositive bs → ((x : ℕ) → cover x bs ≤ 1) → IsOrdered bs
IsOrdered-of_sorted [] s p once = tt
IsOrdered-of_sorted (b ∷ []) s p once = (tt, tt)
IsOrdered-of_sorted (b ∷ c ∷ cs) s p once = (
  ground (arith, once c.offset),
  IsOrdered-of_sorted (c ∷ cs) s.1 p.1 (λ x. omega (arith, once x)),
)

merge_from-StartsAfter :
    (last : Block) (bs : List Block) (n : ℕ) → n < last.offset → StartsAfter n (merge_from last bs)
unfolding merge_from
merge_from-StartsAfter last [] n h = h
merge_from-StartsAfter last (b ∷ bs) n h = elim (Bool-cases (end_of last == b.offset)) [
  | inl touch ↦ rw touch (merge_from-StartsAfter (record last { size = last.size + b.size }) bs n h)
  | inr gap ↦ rw gap h
]

joined-IsOrdered :
    (last b : Block) (bs : List Block)
    → end_of last ≡ b.offset
    → IsOrdered (last ∷ b ∷ bs)
    → IsOrdered (record last { size = last.size + b.size } ∷ bs)
joined-IsOrdered last b [] e o = (tt, tt)
joined-IsOrdered last b (c ∷ cs) e o = (omega arith, o.1.1)

merge_from-IsApart :
    (last : Block) (bs : List Block) → IsOrdered (last ∷ bs) → IsApart (merge_from last bs)
unfolding merge_from
merge_from-IsApart last [] o = (tt, tt)
merge_from-IsApart last (b ∷ bs) o = elim (Bool-cases (end_of last == b.offset)) [
  | inl touch ↦ rw touch (
      merge_from-IsApart (record last { size = last.size + b.size }) bs
        (joined-IsOrdered last b bs ((==_iff _ _).0 touch) o))
  | inr gap ↦
      rw gap (
        merge_from-StartsAfter b bs (end_of last) (ground (arith, o.0)),
        merge_from-IsApart b bs o.1,
      )
]

merge_blocks-IsApart : (bs : List Block) → IsOrdered bs → IsApart (merge_blocks bs)
unfolding merge_blocks
merge_blocks-IsApart [] o = tt
merge_blocks-IsApart (b ∷ bs) o = merge_from-IsApart b bs o

-- A property of blocks that two touching ones hand on to their union holds after a merge.
module _ (P : Block → Type 0)
    (join : (a b : Block) → P a → P b → P (record a { size = a.size + b.size })) where
  merge_from-All : (last : Block) (bs : List Block) → P last → All P bs → All P (merge_from last bs)
  unfolding merge_from
  merge_from-All last [] p ps = (p, tt)
  merge_from-All last (b ∷ bs) p ps = elim (Bool-cases (end_of last == b.offset)) [
    | inl touch ↦
        rw touch
          (merge_from-All (record last { size = last.size + b.size }) bs (join last b p ps.0) ps.1)
    | inr gap ↦ rw gap (p, merge_from-All b bs ps.0 ps.1)
  ]

  merge_blocks-All : (bs : List Block) → All P bs → All P (merge_blocks bs)
  unfolding merge_blocks
  merge_blocks-All [] ps = tt
  merge_blocks-All (b ∷ bs) ps = merge_from-All b bs ps.0 ps.1

  pub release_block-All :
      (b : Block) (free : List Block) → P b → All P free → All P (release_block b free)
  unfolding release_block
  release_block-All b free p ps =
      merge_blocks-All (sort_blocks (free ++ b ∷ []))
        (All-sort_blocks P (free ++ b ∷ []) (All-append P free (b ∷ []) ps (p, tt)))

-- A release of a block of which no byte is free leaves a free list that is in order and joined as
-- far as it goes.
pub release_block-IsApart :
    (b : Block) (free : List Block)
    → IsPositive b
    → All IsPositive free
    → ((x : ℕ) → cover x free + covers x b ≤ 1)
    → IsApart (release_block b free)
unfolding release_block
release_block-IsApart b free p ps once =
    let appended = free ++ b ∷ [] in
    merge_blocks-IsApart (sort_blocks appended) (
      IsOrdered-of_sorted (sort_blocks appended) (IsSorted-sort_blocks appended)
        (All-sort_blocks IsPositive appended (All-append IsPositive free (b ∷ []) ps (p, tt)))
        (λ x. omega (arith, once x, cover-sort_blocks x appended, cover-append x free (b ∷ []))))
