-- ===== src/Buffers/Arena/Model.antt =====
-- packages/wmfs/wmfs/memory/buffers.py: `BufferManager` in arena mode. Its state is the free list
-- and the dictionary of live allocations; a raised exception leaves the state that is returned.
use wmfs.Common.{
  ℕ, ◌+◌, ◌%◌, Bool, true, false, not, ◌&&◌, Option, some, none, List, [], ◌∷◌, ◌==◌, if◌then◌else◌,
  Result, ok, err, nat_eq,
}
use wmfs.Common.Dict
use wmfs.Common.Dict.{Dict}
use wmfs.Buffers.Arena.FreeList.{Block, align, arena_alignment, take_first, release_block}

-- `region` tells whether `_arena_region` is there. An allocation is its offset and byte length.
pub record Arena : Type 0 where
  pub bytes : ℕ
  pub region : Bool
  pub free : List Block
  pub active : Dict ℕ Block
  pub closed : Bool
  pub hits : ℕ
  pub misses : ℕ

pub data ArenaError : Type 0 where
  manager_closed : ArenaError
  exhausted : ArenaError
  bad_size : ArenaError

-- The arena that a buffer occupies: its length is rounded up.
abbrev pub span : Block → Block
span b = record { offset = b.offset; size = align b.size arena_alignment }

-- `__init__`, whose arena size is a positive multiple of the alignment.
unfoldable pub new_arena : ℕ → Result ArenaError Arena
new_arena bytes =
    if bytes == 0
    then err bad_size
    else if not (bytes % arena_alignment == 0)
    then err bad_size
    else ok (record {
      bytes = bytes;
      region = false;
      free = [];
      active = [];
      closed = false;
      hits = 0;
      misses = 0;
    })

-- The region is made at the first request.
unfoldable pub with_region : Arena → Arena
with_region a = if a.region then a else record a {
  region = true;
  free = record { offset = 0; size = a.bytes } ∷ [];
  misses = a.misses + 1;
}

-- `_allocate_arena`: the offset of the buffer, or `MemoryError`.
unfoldable pub allocate_arena : Arena → ℕ → Arena × Result ArenaError ℕ
unfolding with_region
allocate_arena a byte_length =
    let b = with_region a in
    elim (take_first (align byte_length arena_alignment) b.free) [
      | none ↦ (b, err exhausted)
      | some (offset, rest) ↦
          (record b { free = rest; hits = if a.region then b.hits + 1 else b.hits }, ok offset)
    ]

-- The part of `empty` that holds the lock: `i` is the allocation ID that was drawn.
unfoldable pub allocate : Arena → ℕ → ℕ → Arena × Result ArenaError ℕ
unfolding allocate_arena
allocate a i byte_length =
    let (b, result) = allocate_arena a byte_length in
    let done : Arena × Result ArenaError ℕ = (elim result [
      | ok offset ↦ (
        record b { active = Dict.put i (record { offset = offset; size = byte_length }) b.active },
        ok offset,
      )
      | err raised ↦ (b, err raised)
    ]) in
    if a.closed then (a, err manager_closed) else done

abbrev pub is_empty : Dict ℕ Block → Bool
is_empty [] = true
is_empty (x ∷ xs) = false

-- `_release_arena`
unfoldable pub release_arena : Arena → Block → Arena
release_arena a b = record a {
  free = release_block (span b) a.free;
  region = if a.closed && is_empty a.active then false else a.region;
}

-- One round of the loop of `_collect`: `self._active.pop(allocation_id, None)`.
unfoldable pub collect_one : Arena → ℕ → Arena
unfolding release_arena
collect_one a i = elim (Dict.get i a.active) [
  | none ↦ a
  | some b ↦ release_arena (record a { active = Dict.remove i a.active }) b
]

-- `_collect`: the list is what `_released` holds.
unfoldable pub collect : Arena → List ℕ → Arena
unfolding collect_one
collect a [] = a
collect a (i ∷ is) = collect (collect_one a i) is

-- `close`, with what `_released` holds when it collects.
unfoldable pub close : Arena → List ℕ → Arena
unfolding collect
close a is =
    let b = collect (record a { closed = true }) is in
    record b { region = if is_empty b.active then false else b.region }

-- `secrets.randbits(64)` until the ID is not zero and not in use; the list is what is drawn.
unfoldable pub draw_id : Dict ℕ Block → List ℕ → Option ℕ
draw_id active [] = none
draw_id active (i ∷ is) =
    let again = draw_id active is in
    if i == 0 then again else elim (Dict.get i active) [ none ↦ some i | some b ↦ again ]
