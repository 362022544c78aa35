-- ===== src/Buffers/Arena/Steps.antt =====
-- The calls that reach the arena, in any order, and the invariant that every one of them keeps.
use mathlib.Core.Path.{subst}
use wmfs.Common.{
  ℕ, ◌+◌, ◌%◌, ◌<◌, ◌≡◌, ◌≢◌, refl, inl, inr, true, false, ◌&&◌, some, none, List, [], ◌∷◌, ◌==◌,
  if◌then◌else◌, ok, nat_eq, Bool-cases, Option-cases, arith, if_elim,
}
use wmfs.Common.Dict
use wmfs.Common.Dict.{Dict, UniqueKeys}
use wmfs.Buffers.Arena.FreeList.{Block, align, arena_alignment, take_first, release_block}
use wmfs.Buffers.Arena.Model.{
  Arena, span, new_arena, with_region, allocate, is_empty, collect_one, collect, close, draw_id,
}
use wmfs.Buffers.Arena.Invariant.{Tiled, Tiled-allocate, Tiled-release}

-- The arena of a manager: tiled while its region is there, and with nothing live while it is not.
pub record IsValid (a : Arena) : Type 0 where
  pub size : (0 < a.bytes) × (a.bytes % arena_alignment ≡ 0)
  pub tiled : a.region ≡ true → Tiled a.bytes a.free a.active
  pub empty : a.region ≡ false → a.active ≡ []

whole-Tiled :
    (bytes : ℕ)
    → 0 < bytes
    → bytes % arena_alignment ≡ 0
    → Tiled bytes (record { offset = 0; size = bytes } ∷ []) []
whole-Tiled bytes pos al = record {
  tiles = λ x. ground arith;
  apart = (tt, tt);
  aligned = (omega arith, tt);
  positive = (pos, tt);
  unique = tt;
  sound = tt;
}

pub with_region-IsValid :
    {a : Arena}
    → IsValid a
    → IsValid (with_region a)
      × ((with_region a).region ≡ true)
      × ((with_region a).active ≡ a.active)
      × ((with_region a).bytes ≡ a.bytes)
unfolding with_region
with_region-IsValid {a} v =
    if_elim (λ b. IsValid b × (b.region ≡ true) × (b.active ≡ a.active) × (b.bytes ≡ a.bytes))
      a.region a _ (λ there. (v, there, refl, refl))
      (λ missing. (
        record {
          size = v.size;
          tiled = λ _. rw (v.empty missing) (whole-Tiled a.bytes v.size.0 v.size.1);
          empty = λ h. cc;
        },
        refl,
        refl,
        refl,
      ))

-- An allocation under a new ID keeps the invariant, whether it succeeds or raises.
pub allocate-IsValid :
    {a : Arena} (i len : ℕ)
    → Dict.get i a.active ≡ none
    → 0 < len
    → IsValid a
    → IsValid (allocate a i len).0
unfolding allocate
allocate-IsValid {a} i len fresh pos v =
    let (w, there, same, _) = with_region-IsValid v in
    elim (Bool-cases a.closed) [
      | inl shut ↦ subst IsValid (ground arith) v
      | inr running ↦
          elim (Option-cases (take_first (align len arena_alignment) (with_region a).free)) [
            | inl nothing ↦ subst IsValid (ground arith) w
            | inr ((offset, rest), found) ↦
                subst IsValid
                  {x = record (with_region a) {
                    free = rest;
                    hits = if a.region then (with_region a).hits + 1 else (with_region a).hits;
                    active =
                        Dict.put i (record { offset = offset; size = len }) (with_region a).active;
                  }}
                  (ground arith)
                  (record {
                    size = w.size;
                    tiled = λ h. Tiled-allocate (w.tiled there) i len found (rw same fresh) pos;
                    empty = λ h. cc;
                  })
          ]
    ]

is_empty-eq : (d : Dict ℕ Block) → is_empty d ≡ true → d ≡ []
is_empty-eq [] h = refl
is_empty-eq (x ∷ d) h = cc

pub region_of_live :
    {a : Arena} (i : ℕ) (b : Block) → IsValid a → Dict.get i a.active ≡ some b → a.region ≡ true
unfolding Dict.get
region_of_live {a} i b v found = elim (Bool-cases a.region) [
  | inl there ↦ there
  | inr missing ↦ absurd (gone (v.empty missing))
]
  where
    gone : a.active ≡ [] → ⊥
    gone e = ground arith

-- The release of an allocation, live or not, keeps the invariant.
pub collect_one-IsValid : {a : Arena} (i : ℕ) → IsValid a → IsValid (collect_one a i)
unfolding collect_one
collect_one-IsValid {a} i v = elim (Option-cases (Dict.get i a.active)) [
  | inl nothing ↦ subst IsValid (ground arith) v
  | inr (b, found) ↦
      let there = region_of_live i b v found in
      let left = Dict.remove i a.active in
      subst IsValid
        {x = record a {
          free = release_block (span b) a.free;
          active = left;
          region = if a.closed && is_empty left then false else a.region;
        }}
        (ground arith)
        (record {
          size = v.size;
          tiled = λ _. Tiled-release (v.tiled there) i b found;
          empty = λ h. is_empty-eq left (ground arith);
        })
]

pub collect-IsValid : (is : List ℕ) {a : Arena} → IsValid a → IsValid (collect a is)
unfolding collect
collect-IsValid [] v = v
collect-IsValid (i ∷ is) v = collect-IsValid is (collect_one-IsValid i v)

pub close-IsValid : {a : Arena} (is : List ℕ) → IsValid a → IsValid (close a is)
unfolding close
close-IsValid {a} is v =
    let shut : IsValid (record a { closed = true }) = record {
      size = v.size;
      tiled = v.tiled;
      empty = v.empty;
    } in
    let w = collect-IsValid is shut in
    let b = collect (record a { closed = true }) is in
    record {
      size = w.size;
      tiled = λ h. w.tiled (ground arith);
      empty = λ h. elim (Bool-cases (is_empty b.active)) [
        | inl none_left ↦ is_empty-eq b.active none_left
        | inr some_left ↦ w.empty (ground arith)
      ];
    }

-- The drawn ID is not zero, and no live allocation has it.
pub draw_id-fresh :
    (active : Dict ℕ Block) (draws : List ℕ) {i : ℕ}
    → draw_id active draws ≡ some i
    → (i ≢ 0) × (Dict.get i active ≡ none)
unfolding draw_id
draw_id-fresh active [] e = cc
draw_id-fresh active (d ∷ ds) {i} e = elim (Bool-cases (d == 0)) [
  | inl zero_id ↦ draw_id-fresh active ds (ground arith)
  | inr other ↦ elim (Option-cases (Dict.get d active)) [
    | inl unused ↦
        subst (λ k. (k ≢ 0) × (Dict.get k active ≡ none)) {x = d} (ground arith)
          (ground arith, unused)
    | inr (b, used) ↦ draw_id-fresh active ds (ground arith)
  ]
]

-- A shape with an element has a byte, so a request is never empty.
pub data Step (a b : Arena) : Type 0 where
  allocates :
      (draws : List ℕ) (i len : ℕ)
      → draw_id a.active draws ≡ some i
      → 0 < len
      → b ≡ (allocate a i len).0
      → Step a b
  collects : (is : List ℕ) → b ≡ collect a is → Step a b
  closes : (is : List ℕ) → b ≡ close a is → Step a b

pub data Reach (bytes : ℕ) : Arena → Type 0 where
  made : {a : Arena} → new_arena bytes ≡ ok a → Reach bytes a
  step : {a b : Arena} → Reach bytes a → Step a b → Reach bytes b

new_arena-IsValid : (bytes : ℕ) {a : Arena} → new_arena bytes ≡ ok a → IsValid a
unfolding new_arena
new_arena-IsValid bytes {a} h = elim (Bool-cases (bytes == 0)) [
  | inl nothing ↦ absurd (ground arith)
  | inr size ↦ elim (Bool-cases (bytes % arena_alignment == 0)) [
    | inl whole ↦
        subst IsValid
          {x = record {
            bytes = bytes;
            region = false;
            free = [];
            active = [];
            closed = false;
            hits = 0;
            misses = 0;
          }}
          (ground arith) (record { size = ground arith; tiled = λ h. cc; empty = λ h. refl })
    | inr odd ↦ absurd (ground arith)
  ]
]

Step-IsValid : {a b : Arena} → Step a b → IsValid a → IsValid b
Step-IsValid {a} (allocates draws i len drawn pos e) v =
    rw e (allocate-IsValid i len (draw_id-fresh a.active draws drawn).1 pos v)
Step-IsValid (collects is e) v = rw e (collect-IsValid is v)
Step-IsValid (closes is e) v = rw e (close-IsValid is v)

pub Reach-IsValid : {bytes : ℕ} {a : Arena} → Reach bytes a → IsValid a
Reach-IsValid {bytes} (made h) = new_arena-IsValid bytes h
Reach-IsValid (step r s) = Step-IsValid s (Reach-IsValid r)
