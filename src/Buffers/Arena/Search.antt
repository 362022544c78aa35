-- ===== src/Buffers/Arena/Search.antt =====
-- What the search of `_allocate_arena` does to the free list, and what it means that it finds nothing.
use mathlib.Core.Path.{subst}
use native.Mathlib.Decide.{dec_lt}
use wmfs.Common.{
  ℕ, ◌+◌, ◌-◌, ◌≤◌, ◌<◌, ◌≡◌, ◌⊎◌, refl, some, none, List, [], ◌∷◌, ltb, All, Option-cases,
  Bool-cases, inl, inr, arith,
}
use wmfs.Buffers.Arena.FreeList.{Block, end_of, take_first}
use wmfs.Buffers.Arena.Cover.{cover}
use wmfs.Buffers.Arena.Gaps.{IsPositive, StartsAfter, IsApart}

-- The three ways in which the search for a block ends at the first block of the list.
take_first_cases :
    (required : ℕ) (b : Block) (bs : List Block) {offset : ℕ} {rest : List Block}
    → take_first required (b ∷ bs) ≡ some (offset, rest)
    → ((later : List Block) × (take_first required bs ≡ some (offset, later)) × (rest ≡ b ∷ later))
      ⊎ ((b.size ≡ required) × (offset ≡ b.offset) × (rest ≡ bs))
      ⊎ ((required < b.size)
          × (offset ≡ b.offset)
          × (rest ≡ record { offset = b.offset + required; size = b.size - required } ∷ bs))
unfolding take_first
take_first_cases required b bs e = elim (Bool-cases (ltb b.size required)) [
  | inl short ↦ elim (Option-cases (take_first required bs)) [
    | inl nothing ↦ absurd (ground arith)
    | inr ((o, later), found) ↦ inl (later, ground arith, ground arith)
  ]
  | inr long ↦ elim (Bool-cases (ltb required b.size)) [
    | inl more ↦ inr (inr (ground arith))
    | inr all ↦ inr (inl (ground arith))
  ]
]

take_first-StartsAfter :
    (n required : ℕ) (free : List Block) {offset : ℕ} {rest : List Block}
    → take_first required free ≡ some (offset, rest)
    → StartsAfter n free
    → IsApart free
    → All IsPositive free
    → StartsAfter n rest
unfolding take_first
take_first-StartsAfter n required [] e h a p = cc
take_first-StartsAfter n required (b ∷ bs) e h a p = elim (take_first_cases required b bs e) [
  | inl (later, found, r) ↦ rw r h
  | inr (inl (s, o, r)) ↦ rw r (skip bs a.0)
  | inr (inr (s, o, r)) ↦ rw r (omega arith)
]
  where
    skip : (cs : List Block) → StartsAfter (end_of b) cs → StartsAfter n cs
    skip [] g = tt
    skip (c ∷ cs) g = omega arith

-- An allocation leaves a free list that is in order and joined as far as it goes.
pub take_first-IsApart :
    (required : ℕ) (free : List Block) {offset : ℕ} {rest : List Block}
    → take_first required free ≡ some (offset, rest)
    → IsApart free
    → All IsPositive free
    → IsApart rest
unfolding take_first
take_first-IsApart required [] e a p = cc
take_first-IsApart required (b ∷ bs) e a p = elim (take_first_cases required b bs e) [
  | inl (later, found, r) ↦ rw r (
    take_first-StartsAfter (end_of b) required bs found a.0 a.1 p.1,
    take_first-IsApart required bs found a.1 p.1,
  )
  | inr (inl (s, o, r)) ↦ rw r a.1
  | inr (inr (s, o, r)) ↦ rw r (subst (λ n. StartsAfter n bs) (omega arith) a.0, a.1)
]

-- What an allocation hands out has the properties of the blocks, as far as a cut keeps them.
pub take_first-All :
    (P : Block → Type 0) (required : ℕ)
    → ((b : Block)
        → P b
        → required < b.size
        → P (record { offset = b.offset + required; size = b.size - required }))
    → (free : List Block) {offset : ℕ} {rest : List Block}
    → take_first required free ≡ some (offset, rest)
    → All P free
    → ((n : ℕ) × P (record { offset = offset; size = n })) × All P rest
unfolding take_first
take_first-All P required cut [] e ps = cc
take_first-All P required cut (b ∷ bs) e ps = elim (take_first_cases required b bs e) [
  | inl (later, found, r) ↦
      let (here_block, rest_blocks) = take_first-All P required cut bs found ps.1 in
      rw r (here_block, (ps.0, rest_blocks))
  | inr (inl (s, o, r)) ↦ rw (r, o) ((b.size, ps.0), ps.1)
  | inr (inr (s, o, r)) ↦ rw (r, o) ((b.size, ps.0), (cut b ps.0 s, ps.1))
]

-- Before the first block nothing is free.
pub cover_before :
    (x : ℕ) (free : List Block) → StartsAfter x free → IsApart free → cover x free ≡ 0
cover_before x [] h a = refl
cover_before x (b ∷ []) h a = ground arith
cover_before x (b ∷ c ∷ cs) h a = ground (arith, cover_before x (c ∷ cs) (omega arith) a.1)

-- Where the search finds no block, every range of the wanted length holds a byte that is in use.
pub take_first_complete :
    (required : ℕ) (free : List Block)
    → take_first required free ≡ none
    → IsApart free
    → 0 < required
    → (o : ℕ) → (x : ℕ) × (o ≤ x) × (x < o + required) × (cover x free ≡ 0)
unfolding take_first
take_first_complete required [] e a pos o = (o, omega arith, omega arith, refl)
take_first_complete required (b ∷ bs) e a pos o = elim (dec_lt o b.offset) [
  | yes before ↦ (o, omega arith, omega arith, cover_before o (b ∷ bs) before a)
  | no after ↦ elim (dec_lt o (end_of b)) [
    | yes inside ↦ (
      end_of b,
      omega arith,
      omega (arith, too_short),
      ground (arith, cover_before (end_of b) bs a.0 a.1),
    )
    | no past ↦
        let (x, lo, hi, none_free) =
          take_first_complete required bs (ground (arith, Option-cases (take_first required bs)))
            a.1 pos o in
        (x, lo, hi, ground arith)
  ]
]
  where
    too_short : b.size < required
    too_short = ground (arith, Option-cases (take_first required bs))
