-- ===== src/Mapping/Receiver.antt =====
-- packages/wmfs-plugin/wmfs_plugin/fd_transport.py: one round of the loop of `FdReceiver._serve`, from
-- the batch that has been decoded on.
use wmfs.Common.{ℕ, ◌/◌, ◌%◌, Bool, not, List, [], ◌∷◌, ◌==◌, if◌then◌else◌, Result, ok, err}
use wmfs.Control.Enums.{map_entry, retire_entry}
use wmfs.Control.FdBatch.{FdEntry, FdBatch}
use wmfs.Mapping.Cache.{MappedBuffer, Cache, CacheError, MappedFile, add, retire}

pub data ServeError : Type 0 where
  wrong_session : ServeError
  missing_descriptor : ServeError
  cache_error : CacheError → ServeError

-- A received descriptor with the file behind it.
abbrev pub Received : Type 0
Received = ℕ × MappedFile

abbrev pub numbers : List Received → List ℕ
numbers [] = []
numbers ((fd, file) ∷ fds) = fd ∷ numbers fds

-- The bits 1 and 2 of the flags.
abbrev pub has_writable : ℕ → Bool
has_writable flags = flags % 2 == 1

abbrev pub has_arena : ℕ → Bool
has_arena flags = flags / 2 % 2 == 1

abbrev pub buffer_of : FdEntry → MappedBuffer
buffer_of e = record {
  generation = e.generation;
  allocation_id = e.allocation_id;
  byte_length = e.byte_length;
  writable = has_writable e.flags;
  arena = has_arena e.flags;
  invocation_id = e.invocation_id;
  views = [];
}

-- What a round leaves: the cache, the descriptors in the order in which it closes them, and the
-- acknowledgement's status with the error.
pub record Served : Type 0 where
  pub cache : Cache
  pub closed : List ℕ
  pub result : Result ServeError (Unit {0})

abbrev pub closing_first : ℕ → Served → Served
closing_first fd s = record s { closed = fd ∷ s.closed }

-- `except Exception`: what is not -1 in `received_fds` is closed.
abbrev pub fail : List Received → ServeError → Served
fail fds e = record { cache = []; closed = numbers fds; result = err e }

-- `add` closes its descriptor, and the element becomes -1 when it has returned.
abbrev pub after_add : ℕ → List Received → Served → Result CacheError (Unit {0}) → Served
after_add fd fds later (ok u) = closing_first fd later
after_add fd fds later (err raised) = closing_first fd (fail fds (cache_error raised))

abbrev pub after_retire : List Received → Served → Result CacheError (Unit {0}) → Served
after_retire fds later (ok u) = later
after_retire fds later (err raised) = fail fds (cache_error raised)

-- The loop over the entries; the list is `received_fds` from the first descriptor on that is not -1.
unfoldable pub serve_entries : List FdEntry → Cache → List Received → Served
serve_entries [] cache fds = record { cache = cache; closed = []; result = ok tt }
serve_entries (e ∷ es) cache fds = elim e.kind [
  | map_entry ↦ elim fds [
    | [] ↦ fail [] missing_descriptor
    | (fd, file) ∷ rest ↦
        after_add fd ((fd, file) ∷ rest)
          (serve_entries es (add cache e.buffer_id (buffer_of e) file).0 rest)
          (add cache e.buffer_id (buffer_of e) file).1
  ]
  | retire_entry ↦
      after_retire fds
        (serve_entries es (retire cache e.buffer_id e.generation e.allocation_id).0 fds)
        (retire cache e.buffer_id e.generation e.allocation_id).1
]

unfoldable pub serve : ℕ → Cache → FdBatch → List Received → Served
serve session_generation cache b fds =
    let served = serve_entries b.entries cache fds in
    if not (b.session_generation == session_generation) then fail fds wrong_session else served
