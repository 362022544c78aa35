-- ===== src/Buffers/Arena/Invariant.antt =====
-- The free blocks and the live allocations tile the arena, at every moment and byte by byte.
use wmfs.Common.{
  ap, ℕ, ◌+◌, ◌%◌, ◌≤◌, ◌<◌, ◌≡◌, refl, inl, inr, some, none, List, [], ◌∷◌, ◌++◌, ltb, ◌==◌,
  ==_iff, if◌then◌else◌, nat_eq, All, Bool-cases, arith,
}
use wmfs.Common.Dict
use wmfs.Common.Dict.{
  Dict, UniqueKeys, UniqueKeys-put, UniqueKeys-remove, put-fresh, remove-absent, get-remove,
}
use wmfs.Buffers.Arena.FreeList.{Block, align, arena_alignment, take_first, release_block}
use wmfs.Buffers.Arena.Cover.{covers, cover, cover-append, cover-release_block, cover-take_first}
use wmfs.Buffers.Arena.Gaps.{IsApart, IsPositive, release_block-IsApart, release_block-All}
use wmfs.Buffers.Arena.Search.{take_first-IsApart, take_first-All}
use wmfs.Buffers.Arena.Model.{span}

abbrev pub spans : Dict ℕ Block → List Block
spans [] = []
spans ((i, b) ∷ d) = span b ∷ spans d

abbrev pub inside : ℕ → ℕ → ℕ
inside x n = if ltb x n then 1 else 0

-- Every live allocation has a byte, and its offset is aligned.
abbrev pub IsSound : Block → Type 0
IsSound b = (0 < b.size) × (b.offset % arena_alignment ≡ 0)

abbrev pub AllSound : Dict ℕ Block → Type 0
AllSound [] = Unit {0}
AllSound ((i, b) ∷ d) = IsSound b × AllSound d

pub record IsAligned (b : Block) : Type 0 where
  pub offset : b.offset % arena_alignment ≡ 0
  pub size : b.size % arena_alignment ≡ 0

-- What holds of the free list and the allocations while the region is there.
pub record Tiled (bytes : ℕ) (free : List Block) (active : Dict ℕ Block) : Type 0 where
  pub tiles : (x : ℕ) → cover x free + cover x (spans active) ≡ inside x bytes
  pub apart : IsApart free
  pub aligned : All IsAligned free
  pub positive : All IsPositive free
  pub unique : UniqueKeys active
  pub sound : AllSound active

spans-append : (c d : Dict ℕ Block) → spans (c ++ d) ≡ spans c ++ spans d
spans-append [] d = refl
spans-append ((i, b) ∷ c) d = ap (λ s. span b ∷ s) (spans-append c d)

cover-spans-put :
    (x i : ℕ) (b : Block) (active : Dict ℕ Block)
    → Dict.get i active ≡ none
    → cover x (spans (Dict.put i b active)) ≡ cover x (spans active) + covers x (span b)
cover-spans-put x i b active fresh =
    rw (put-fresh i b active fresh, spans-append active ((i, b) ∷ []))
      (omega (arith, cover-append x (spans active) (span b ∷ [])))

cover-spans-remove :
    (x i : ℕ) (b : Block) (active : Dict ℕ Block)
    → Dict.get i active ≡ some b
    → UniqueKeys active
    → cover x (spans active) ≡ cover x (spans (Dict.remove i active)) + covers x (span b)
unfolding Dict.get Dict.remove
cover-spans-remove x i b [] found u = cc
cover-spans-remove x i b ((j, c) ∷ d) found u = elim (Bool-cases (j == i)) [
  | inl same ↦
      let e = (==_iff j i).0 same in
      rw (same, remove-absent i d (rw (← e) u.0)) (ground (arith, same))
  | inr other ↦ rw other (ground (arith, cover-spans-remove x i b d, other))
]

AllSound-append : (c d : Dict ℕ Block) → AllSound c → AllSound d → AllSound (c ++ d)
AllSound-append [] d p q = q
AllSound-append ((i, b) ∷ c) d p q = (p.0, AllSound-append c d p.1 q)

AllSound-remove : (i : ℕ) (d : Dict ℕ Block) → AllSound d → AllSound (Dict.remove i d)
unfolding Dict.remove
AllSound-remove i [] p = tt
AllSound-remove i ((j, b) ∷ d) p = ground (arith, AllSound-remove i d p.1)

pub AllSound-get :
    (i : ℕ) (b : Block) (d : Dict ℕ Block) → Dict.get i d ≡ some b → AllSound d → IsSound b
unfolding Dict.get
AllSound-get i b [] found p = cc
AllSound-get i b ((j, c) ∷ d) found p = ground (arith, AllSound-get i b d)

pub align_lem :
    (v : ℕ)
    → (v ≤ align v arena_alignment)
      × (align v arena_alignment < v + arena_alignment)
      × (align v arena_alignment % arena_alignment ≡ 0)
unfolding align
align_lem v = omega arith

join-IsAligned :
    (a b : Block) → IsAligned a → IsAligned b → IsAligned (record a { size = a.size + b.size })
join-IsAligned a b p q = omega arith

join-IsPositive :
    (a b : Block) → IsPositive a → IsPositive b → IsPositive (record a { size = a.size + b.size })
join-IsPositive a b p q = omega arith

span-IsAligned : (b : Block) → IsSound b → IsAligned (span b)
span-IsAligned b s = omega (arith, align_lem b.size)

module _ {bytes : ℕ} {free : List Block} {active : Dict ℕ Block} (t : Tiled bytes free active) where
  -- An allocation takes its bytes from the free list and gives them to the new allocation.
  pub Tiled-allocate :
      (i len : ℕ) {offset : ℕ} {rest : List Block}
      → take_first (align len arena_alignment) free ≡ some (offset, rest)
      → Dict.get i active ≡ none
      → 0 < len
      → Tiled bytes rest (Dict.put i (record { offset = offset; size = len }) active)
  Tiled-allocate i len {offset} {rest} e fresh pos =
      let required = align len arena_alignment in
      let (given, rest_aligned) =
        take_first-All IsAligned required (λ b p h. omega (arith, align_lem len)) free e
          t.aligned in
      let (size, rest_positive) =
        take_first-All IsPositive required (λ b p h. omega arith) free e t.positive in
      record {
        tiles = λ x. omega (
          arith,
          t.tiles x,
          cover-take_first x required free e,
          cover-spans-put x i (record { offset = offset; size = len }) active fresh,
        );
        apart = take_first-IsApart required free e t.apart t.positive;
        aligned = rest_aligned;
        positive = rest_positive;
        unique = UniqueKeys-put i (record { offset = offset; size = len }) active t.unique;
        sound =
            rw (put-fresh i (record { offset = offset; size = len }) active fresh)
              (AllSound-append active _ t.sound ((pos, given.1.offset), tt));
      }

  -- A release gives the bytes back.
  pub Tiled-release :
      (i : ℕ) (b : Block)
      → Dict.get i active ≡ some b
      → Tiled bytes (release_block (span b) free) (Dict.remove i active)
  Tiled-release i b found =
      let sound = AllSound-get i b active found t.sound in
      let positive : IsPositive (span b) = omega (arith, align_lem b.size) in
      let once = λ (x : ℕ). cover-spans-remove x i b active found t.unique in
      record {
        tiles = λ x. omega (arith, t.tiles x, once x, cover-release_block x (span b) free);
        apart =
            release_block-IsApart (span b) free positive t.positive (λ x. at_most_one x (once x));
        aligned =
            release_block-All IsAligned join-IsAligned (span b) free (span-IsAligned b sound)
              t.aligned;
        positive = release_block-All IsPositive join-IsPositive (span b) free positive t.positive;
        unique = UniqueKeys-remove i active t.unique;
        sound = AllSound-remove i active t.sound;
      }
    where
      at_most_one :
          (x : ℕ)
          → cover x (spans active) ≡ cover x (spans (Dict.remove i active)) + covers x (span b)
          → cover x free + covers x (span b) ≤ 1
      at_most_one x e = ground (arith, t.tiles x)
