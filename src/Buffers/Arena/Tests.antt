-- ===== src/Buffers/Arena/Tests.antt =====
-- Runs of an arena of 256 bytes.
use wmfs.Common.{
  ℕ, ◌+◌, ◌%◌, ◌≤◌, ◌<◌, ◌≡◌, refl, ◌⊎◌, true, false, [], ◌∷◌, ok, err, nat_eq, arith,
}
use wmfs.Common.Dict
use wmfs.Buffers.Arena.FreeList.{Block, align, arena_alignment, take_first, end_of, release_block}
use wmfs.Buffers.Arena.Cover.{cover}
use wmfs.Buffers.Arena.Model.{
  Arena, new_arena, allocate_arena, allocate, collect, draw_id, bad_size,
}
use wmfs.Buffers.Arena.Invariant.{spans}
use wmfs.Buffers.Arena.Steps.{Reach, made, step, allocates, collects, Reach-IsValid}
use wmfs.Buffers.Arena.Safety.{Reach-disjoint, allocate_arena_complete, Reach-reclaimed}

abbrev fresh : Arena
fresh = record {
  bytes = 256;
  region = false;
  free = [];
  active = [];
  closed = false;
  hits = 0;
  misses = 0;
}

abbrev one : Arena
one = record fresh {
  region = true;
  free = record { offset = 128; size = 128 } ∷ [];
  active = (7, record { offset = 0; size = 100 }) ∷ [];
  misses = 1;
}

abbrev two : Arena
two = record one {
  free = record { offset = 192; size = 64 } ∷ [];
  active = (7, record { offset = 0; size = 100 }) ∷ (8, record { offset = 128; size = 64 }) ∷ [];
  hits = 1;
}

-- The block between the two free ones is released, and the three become one.
abbrev none_left : Arena
none_left = record two { free = record { offset = 0; size = 256 } ∷ []; active = [] }

made_fresh : new_arena 256 ≡ ok fresh
unfolding new_arena
made_fresh = refl

bad_sizes : (new_arena 0 ≡ err bad_size) × (new_arena 100 ≡ err bad_size)
unfolding new_arena
bad_sizes = (refl, refl)

two-Reach : Reach 256 two
unfolding draw_id Dict.get allocate take_first align Dict.put
two-Reach =
    step {a = one}
      (step {a = fresh} (made made_fresh) (allocates (0 ∷ 7 ∷ []) 7 100 refl (omega arith) refl))
      (allocates (7 ∷ 8 ∷ []) 8 64 refl (omega arith) refl)

none_left-Reach : Reach 256 none_left
unfolding collect Dict.get Dict.remove release_block wmfs.Buffers.Arena.FreeList.merge_blocks
    wmfs.Buffers.Arena.FreeList.sort_blocks wmfs.Buffers.Arena.FreeList.insert_block
    wmfs.Buffers.Arena.FreeList.merge_from align
none_left-Reach = step two-Reach (collects (7 ∷ 9 ∷ 8 ∷ []) refl)

Reach-disjoint_example :
    (0 + 100 ≤ 256)
    × (0 % arena_alignment ≡ 0)
    × ((◌≡◌ {A = ℕ} 7 8) ⊎ ((0 + 100 ≤ 128) ⊎ (128 + 64 ≤ 0)))
unfolding Dict.get
Reach-disjoint_example =
    Reach-disjoint 7 8 (record { offset = 0; size = 100 }) (record { offset = 128; size = 64 })
      two-Reach refl refl

allocate_arena_complete_example :
    (x : ℕ) × (100 ≤ x) × (x < 100 + align 65 arena_alignment) × (cover x (spans two.active) ≡ 1)
unfolding align allocate_arena take_first
allocate_arena_complete_example =
    allocate_arena_complete 65 100 (Reach-IsValid two-Reach) (omega arith) refl (omega arith)

Reach-reclaimed_example : none_left.free ≡ record { offset = 0; size = 256 } ∷ []
Reach-reclaimed_example = Reach-reclaimed none_left-Reach refl refl
