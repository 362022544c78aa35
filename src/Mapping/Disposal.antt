-- ===== src/Mapping/Disposal.antt =====
-- What a round of `_serve` closes, and what it leaves behind an error.
use mathlib.Core.Path.{subst}
use wmfs.Common.{
  ℕ, ◌≡◌, refl, sym, ap, Bool, true, false, not, ◌⊎◌, inl, inr, List, [], ◌∷◌, ◌++◌, ◌==◌, Result,
  ok, err, length, arith, if_elim, Option-cases, nat_eq,
}
use wmfs.Common.Dict
use wmfs.Control.Enums.{FdEntryKind, map_entry, retire_entry}
use wmfs.Control.FdBatch.{FdEntry, FdBatch, fd_count}
use wmfs.Mapping.Cache.{
  Cache, CacheError, wrong_size, mapping_failed, not_retired, MappedFile, add, retire,
}
use wmfs.Mapping.Receiver.{
  ServeError, cache_error, Received, numbers, buffer_of, Served, after_add, after_retire,
  serve_entries, serve,
}

-- The cache after the entries have been applied, while none fails.
abbrev pub applied : List FdEntry → List Received → Cache → Cache
applied [] fds cache = cache
applied (e ∷ es) fds cache = elim e.kind [
  | map_entry ↦ elim fds [
    | [] ↦ cache
    | (fd, file) ∷ rest ↦ applied es rest (add cache e.buffer_id (buffer_of e) file).0
  ]
  | retire_entry ↦ applied es fds (retire cache e.buffer_id e.generation e.allocation_id).0
]

-- The errors that `add` raises.
abbrev pub is_from_add : Result ServeError (Unit {0}) → Bool
is_from_add (err (cache_error wrong_size)) = true
is_from_add (err (cache_error mapping_failed)) = true
is_from_add (err (cache_error not_retired)) = true
is_from_add _ = false

-- How a round disposes of the descriptors: each is closed once and no mapping has failed, or the
-- mapping of the descriptor of a MAP entry fails on the cache that the entries before it leave; it is
-- closed twice, each of the others once, and its error is the one of the round.
pub data Disposed (cache : Cache) (es : List FdEntry) (fds : List Received) (s : Served)
    : Type 0 where
  once : s.closed ≡ numbers fds → is_from_add s.result ≡ false → Disposed cache es fds s
  twice :
      (done : List FdEntry) (e : FdEntry) (later : List FdEntry) (before : List Received) (fd : ℕ)
      (file : MappedFile) (after : List Received) (raised : CacheError)
      → es ≡ done ++ e ∷ later
      → fds ≡ before ++ (fd, file) ∷ after
      → length before ≡ fd_count done
      → e.kind ≡ map_entry
      → (add (applied done before cache) e.buffer_id (buffer_of e) file).1 ≡ err raised
      → s.closed ≡ numbers before ++ fd ∷ fd ∷ numbers after
      → s.result ≡ err (cache_error raised)
      → Disposed cache es fds s

abbrev pub is_ok : Result ServeError (Unit {0}) → Bool
is_ok (ok u) = true
is_ok (err e) = false

abbrev Fine : Cache → List FdEntry → List Received → Served → Type 0
Fine cache es fds s = Disposed cache es fds s × (is_ok s.result ≡ false → s.cache ≡ [])

-- `retire` raises other errors than `add`.
retire-is_from_add :
    (cache : Cache) (i g a : ℕ) {raised : CacheError}
    → (retire cache i g a).1 ≡ err raised
    → is_from_add (err (cache_error raised)) ≡ false
unfolding retire
retire-is_from_add cache i g a h = elim (Option-cases (Dict.get i cache)) [
  | inl absent ↦ absurd (ground (arith, h, absent))
  | inr (existing, there) ↦ ground (arith, h, there)
]

after_add-Fine :
    (cache : Cache) (e : FdEntry) (es : List FdEntry) (fd : ℕ) (file : MappedFile)
    (rest : List Received) (later : Served) (r : Result CacheError (Unit {0}))
    → e.kind ≡ map_entry
    → (add cache e.buffer_id (buffer_of e) file).1 ≡ r
    → Fine (add cache e.buffer_id (buffer_of e) file).0 es rest later
    → Fine cache (e ∷ es) ((fd, file) ∷ rest) (after_add fd ((fd, file) ∷ rest) later r)
after_add-Fine cache e es fd file rest later (ok u) maps added (once closed fine, h) =
    (once (ap (λ l. fd ∷ l) closed) fine, h)
after_add-Fine cache e es fd file rest later (ok u) maps added
      (twice done bad more before d other after raised e1 e2 count kind fails closed result, h) =
    (
      twice (e ∷ done) bad more ((fd, file) ∷ before) d other after raised (ap (λ l. e ∷ l) e1)
          (ap (λ l. (fd, file) ∷ l) e2) (rw maps (omega (arith, count))) kind (rw maps fails)
          (ap (λ l. fd ∷ l) closed) result,
      h,
    )
after_add-Fine cache e es fd file rest later (err raised) maps added h =
    (twice [] e es [] fd file rest raised refl refl refl maps added refl refl, λ bad. refl)

after_retire-Fine :
    (cache : Cache) (e : FdEntry) (es : List FdEntry) (fds : List Received) (later : Served)
    (r : Result CacheError (Unit {0}))
    → e.kind ≡ retire_entry
    → (retire cache e.buffer_id e.generation e.allocation_id).1 ≡ r
    → Fine (retire cache e.buffer_id e.generation e.allocation_id).0 es fds later
    → Fine cache (e ∷ es) fds (after_retire fds later r)
after_retire-Fine cache e es fds later (ok u) retires gone (once closed fine, h) =
    (once closed fine, h)
after_retire-Fine cache e es fds later (ok u) retires gone
      (twice done bad more before d other after raised e1 e2 count kind fails closed result, h) =
    (
      twice (e ∷ done) bad more before d other after raised (ap (λ l. e ∷ l) e1) e2
          (rw retires (omega (arith, count))) kind (rw retires fails) closed result,
      h,
    )
after_retire-Fine cache e es fds later (err raised) retires gone h = (
  once refl (retire-is_from_add cache e.buffer_id e.generation e.allocation_id gone),
  λ bad. refl,
)

FdEntryKind-cases : (k : FdEntryKind) → (k ≡ map_entry) ⊎ (k ≡ retire_entry)
FdEntryKind-cases map_entry = inl refl
FdEntryKind-cases retire_entry = inr refl

serve_entries-Fine :
    (es : List FdEntry) (cache : Cache) (fds : List Received)
    → length fds ≡ fd_count es
    → Fine cache es fds (serve_entries es cache fds)
unfolding serve_entries
serve_entries-Fine [] cache [] h = (once refl refl, λ bad. cc)
serve_entries-Fine [] cache (f ∷ fds) h = absurd (omega arith)
serve_entries-Fine (e ∷ es) cache [] h = elim (FdEntryKind-cases e.kind) [
  | inl maps ↦ absurd (ground arith)
  | inr retires ↦
      let s : serve_entries (e ∷ es) cache []
          ≡ after_retire []
              (serve_entries es (retire cache e.buffer_id e.generation e.allocation_id).0 [])
              (retire cache e.buffer_id e.generation e.allocation_id).1 =
        rw retires refl in
      subst (Fine cache (e ∷ es) []) (sym s) (
        after_retire-Fine cache e es [] _ _ retires refl (
          serve_entries-Fine es (retire cache e.buffer_id e.generation e.allocation_id).0 []
            (ground arith)))
]
serve_entries-Fine (e ∷ es) cache ((fd, file) ∷ fds) h = elim (FdEntryKind-cases e.kind) [
  | inl maps ↦
      let s : serve_entries (e ∷ es) cache ((fd, file) ∷ fds)
          ≡ after_add fd ((fd, file) ∷ fds)
              (serve_entries es (add cache e.buffer_id (buffer_of e) file).0 fds)
              (add cache e.buffer_id (buffer_of e) file).1 =
        rw maps refl in
      subst (Fine cache (e ∷ es) ((fd, file) ∷ fds)) (sym s) (
        after_add-Fine cache e es fd file fds _ _ maps refl
          (serve_entries-Fine es (add cache e.buffer_id (buffer_of e) file).0 fds (ground arith)))
  | inr retires ↦
      let s : serve_entries (e ∷ es) cache ((fd, file) ∷ fds)
          ≡ after_retire ((fd, file) ∷ fds)
              (serve_entries es (retire cache e.buffer_id e.generation e.allocation_id).0
                ((fd, file) ∷ fds))
              (retire cache e.buffer_id e.generation e.allocation_id).1 =
        rw retires refl in
      subst (Fine cache (e ∷ es) ((fd, file) ∷ fds)) (sym s) (
        after_retire-Fine cache e es ((fd, file) ∷ fds) _ _ retires refl (
          serve_entries-Fine es (retire cache e.buffer_id e.generation e.allocation_id).0
            ((fd, file) ∷ fds) (ground arith)))
]

serve-Fine :
    (session : ℕ) (cache : Cache) (b : FdBatch) (fds : List Received)
    → length fds ≡ fd_count b.entries
    → Fine cache b.entries fds (serve session cache b fds)
unfolding serve
serve-Fine session cache b fds h =
    if_elim (Fine cache b.entries fds) (not (b.session_generation == session)) _ _
      (λ wrong. (once refl refl, λ bad. refl)) (λ right. serve_entries-Fine b.entries cache fds h)

-- A round for a batch with one descriptor for each MAP entry closes each descriptor once and raises no
-- error of `add`; or the `add` of a MAP entry raises on the cache that the entries before it leave, the
-- round reports that error, and it closes the descriptor of that entry twice and each of the others
-- once.
pub serve-Disposed :
    (session : ℕ) (cache : Cache) (b : FdBatch) (fds : List Received)
    → length fds ≡ fd_count b.entries
    → Disposed cache b.entries fds (serve session cache b fds)
serve-Disposed session cache b fds h = (serve-Fine session cache b fds h).0

-- A batch with one descriptor for each MAP entry that is not acknowledged as applied leaves nothing
-- mapped.
pub serve-clears :
    (session : ℕ) (cache : Cache) (b : FdBatch) (fds : List Received)
    → length fds ≡ fd_count b.entries
    → is_ok (serve session cache b fds).result ≡ false
    → (serve session cache b fds).cache ≡ []
serve-clears session cache b fds h bad = (serve-Fine session cache b fds h).1 bad
