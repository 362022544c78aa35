-- ===== src/Buffers/Access/Model.antt =====
-- packages/wmfs/wmfs/memory/buffers.py: reader and writer reservations of `BufferManager`
-- (`reserve_access`, `_grant_access_waiters`, `_can_grant_access`, `_release_access`).
-- The object identity of a waiter is its field `ident`.
use wmfs.Common.{
  ℕ, ◌+◌, ◌-◌, Bool, true, false, not, ◌&&◌, ◌||◌, Option, none, some, List, [], ◌∷◌, ◌++◌, ltb,
  ◌==◌, if◌then◌else◌, length, Result, ok, err, ◌>>=◌, ◌>>◌, raise_if, or_raise, any, all,
}
use mathlib.Core.Option
use wmfs.Common.Dict
use wmfs.Common.Dict.{Dict}
use wmfs.Buffers.Access.Keys.{AccessKey, key_eq, access_key_eq}

-- `_AccessState`
pub record AccessState : Type 0 where
  pub readers : ℕ
  pub writer : Bool

-- `dict[_AccessKey, bool]`: true for a write.
abbrev pub Accesses : Type 0
Accesses = Dict AccessKey Bool

abbrev pub States : Type 0
States = Dict AccessKey AccessState

-- `_AccessWaiter`. Whether it is granted is whether it stands in `granted` of the manager.
pub record Waiter : Type 0 where
  pub ident : ℕ
  pub accesses : Accesses

pub record Manager : Type 0 where
  pub states : States
  pub waiters : List Waiter
  pub granted : List Waiter
  pub closed : Bool

pub data AccessError : Type 0 where
  manager_closed : AccessError
  key_error : AccessError
  not_queued : AccessError
  -- Python would count to -1 here; `Safety` shows that no call gets to it.
  negative_readers : AccessError

-- `self._access_states.setdefault(key, _AccessState())`, as a value
abbrev pub state_of : Option AccessState → AccessState
state_of none = record { readers = 0; writer = false }
state_of (some s) = s

-- What `_grant_access_waiters` does for one item of `waiter.accesses`.
abbrev pub taken : AccessState → Bool → AccessState
taken s writable =
    if writable then record s { writer = true } else record s { readers = s.readers + 1 }

unfoldable pub take_access : States → AccessKey → Bool → States
take_access st k writable = Dict.put k (taken (state_of (Dict.get k st)) writable) st

unfoldable pub take_accesses : States → Accesses → States
take_accesses st [] = st
take_accesses st ((k, writable) ∷ rest) = take_accesses (take_access st k writable) rest

-- One round of the loop of `_can_grant_access`.
unfoldable pub can_take : Option AccessState → Bool → Bool
can_take none writable = true
can_take (some s) writable = not (s.writer || (writable && ltb 0 s.readers))

-- `_can_grant_access`
unfoldable pub can_grant_access : States → Accesses → Bool
unfolding can_take
can_grant_access st [] = true
can_grant_access st ((k, writable) ∷ rest) =
    can_take (Dict.get k st) writable && can_grant_access st rest

-- `blocked.isdisjoint(keys)`
unfoldable pub is_disjoint : List AccessKey → List AccessKey → Bool
is_disjoint blocked ks = all (λ k. not (any (key_eq k) blocked)) ks

-- What one pass over the queue leaves: the states, the waiters that stay, those that it grants.
pub record Pass : Type 0 where
  pub states : States
  pub waiting : List Waiter
  pub granted : List Waiter

unfoldable pub grant_loop : List Waiter → List AccessKey → States → Pass
grant_loop [] blocked st = record { states = st; waiting = []; granted = [] }
grant_loop (w ∷ ws) blocked st =
    let taken =
      (let p = grant_loop ws blocked (take_accesses st w.accesses) in
        record p { granted = w ∷ p.granted }) in
    let skipped =
      (let p = grant_loop ws (blocked ++ Dict.keys w.accesses) st in
        record p { waiting = w ∷ p.waiting }) in
    if is_disjoint blocked (Dict.keys w.accesses) && can_grant_access st w.accesses
    then taken
    else skipped

-- `_grant_access_waiters`
unfoldable pub grant_access_waiters : Manager → Manager
unfolding grant_loop
grant_access_waiters m =
    let p = grant_loop m.waiters [] m.states in
    if m.closed
    then m
    else record m { states = p.states; waiters = p.waiting; granted = m.granted ++ p.granted }

abbrev pub left : AccessState → Bool → AccessState
left s writable =
    if writable then record s { writer = false } else record s { readers = s.readers - 1 }

abbrev pub store_left : States → AccessKey → AccessState → States
store_left st k s = if not s.writer && s.readers == 0 then Dict.remove k st else Dict.put k s st

-- One round of the loop of `_release_access_locked`.
unfoldable pub drop_access : States → AccessKey → Bool → Result AccessError States
drop_access st k writable = do
  s ← or_raise (Dict.get k st) key_error
  raise_if (not writable && s.readers == 0) negative_readers
  ok (store_left st k (left s writable))

-- `_release_access_locked`
unfoldable pub release_access_locked : States → Accesses → Result AccessError States
release_access_locked st [] = ok st
release_access_locked st ((k, writable) ∷ rest) = do
  st' ← drop_access st k writable
  release_access_locked st' rest

unfoldable pub find_waiter : ℕ → List Waiter → Option Waiter
find_waiter i [] = none
find_waiter i (w ∷ ws) = if w.ident == i then some w else find_waiter i ws

unfoldable pub drop_waiter : ℕ → List Waiter → List Waiter
drop_waiter i [] = []
drop_waiter i (w ∷ ws) = if w.ident == i then ws else w ∷ drop_waiter i ws

-- `BufferAccessLease.release` and `_release_access`: a lease that is released already does nothing.
unfoldable pub release : Manager → ℕ → Result AccessError Manager
unfolding find_waiter drop_waiter release_access_locked grant_access_waiters
release m i = elim (find_waiter i m.granted) [
  | none ↦ ok m
  | some w ↦ do
    st ← release_access_locked m.states w.accesses
    ok (grant_access_waiters (record m { states = st; granted = drop_waiter i m.granted }))
]

-- The dictionary that `reserve_access` builds: a read is kept only where no write follows.
unfoldable pub collect_reads : List AccessKey → Accesses → Accesses
collect_reads [] acc = acc
collect_reads (k ∷ ks) acc = collect_reads ks (Dict.set_default k false acc)

unfoldable pub collect_writes : List AccessKey → Accesses → Accesses
collect_writes [] acc = acc
collect_writes (k ∷ ks) acc = collect_writes ks (Dict.put k true acc)

unfoldable pub requested : List AccessKey → List AccessKey → Accesses
unfolding collect_reads collect_writes
requested reads writes = collect_writes writes (collect_reads reads [])

unfoldable pub is_empty_accesses : Accesses → Bool
is_empty_accesses [] = true
is_empty_accesses (x ∷ xs) = false

-- `reserve_access` up to its first wait: the waiter of identity `i` is queued, and a pass is made.
unfoldable pub reserve_access :
    Manager → ℕ → List AccessKey → List AccessKey → Result AccessError Manager
unfolding requested is_empty_accesses grant_access_waiters
reserve_access m i reads writes =
    let accesses = requested reads writes in
    let w : Waiter = record { ident = i; accesses = accesses } in
    if m.closed
    then err manager_closed
    else if is_empty_accesses accesses
    then ok m
    else ok (grant_access_waiters (record m { waiters = m.waiters ++ w ∷ [] }))

-- Equality of two dictionaries of accesses, as `dict.__eq__` has it.
abbrev pub same_mode : Option Bool → Bool → Bool
same_mode none b = false
same_mode (some true) b = b
same_mode (some false) b = not b

abbrev pub same_accesses : Accesses → Accesses → Bool
same_accesses a b =
    length a == length b && all (λ (k, writable). same_mode (Dict.get k b) writable) a

-- `self._access_waiters.remove(waiter)`: `_AccessWaiter` is a dataclass, so the first waiter that
-- is equal goes, and none equal raises. What is queued is not granted.
unfoldable pub remove_equal : Accesses → List Waiter → Option (List Waiter)
remove_equal acc [] = none
remove_equal acc (w ∷ ws) =
    if same_accesses w.accesses acc
    then some ws
    else Option.map (λ rest. w ∷ rest) (remove_equal acc ws)

-- The handler of `reserve_access` when its wait is interrupted.
unfoldable pub cancel : Manager → Waiter → Result AccessError Manager
unfolding release remove_equal grant_access_waiters find_waiter
cancel m w = elim (find_waiter w.ident m.granted) [
  | some v ↦ release m w.ident
  | none ↦ do
    left ← or_raise (remove_equal w.accesses m.waiters) not_queued
    ok (grant_access_waiters (record m { waiters = left }))
]

-- `close`, as far as reservations go: those that wait raise when they wake.
unfoldable pub close : Manager → Manager
close m = record m { closed = true }
