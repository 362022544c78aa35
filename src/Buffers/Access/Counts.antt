-- ===== src/Buffers/Access/Counts.antt =====
-- How often a key is held by a list of leases, and what one lease adds to a key's state.
use wmfs.Common.{
  ℕ, ◌+◌, ◌≤◌, ◌<◌, ◌≡◌, ◌⊎◌, Bool, true, false, ◌||◌, List, [], ◌∷◌, ltb, if◌then◌else◌, arith,
}
use wmfs.Common.Dict
use wmfs.Common.Dict.{get-put, get-remove}
use wmfs.Buffers.Access.Keys.{AccessKey, key_eq, key_eq_iff, access_key_eq}
use wmfs.Buffers.Access.Model.{
  AccessState, Accesses, States, Waiter, state_of, taken, take_access, take_accesses,
  can_grant_access,
}

-- The items of a lease on the key `k` that write (`b` true) or read.
abbrev pub count_items : AccessKey → Bool → Accesses → ℕ
count_items k b [] = 0
count_items k true ((j, true) ∷ rest) = (if key_eq j k then 1 else 0) + count_items k true rest
count_items k false ((j, false) ∷ rest) = (if key_eq j k then 1 else 0) + count_items k false rest
count_items k true ((j, false) ∷ rest) = count_items k true rest
count_items k false ((j, true) ∷ rest) = count_items k false rest

-- The leases of a list that write, or read, the key `k`.
abbrev pub held : AccessKey → Bool → List Waiter → ℕ
held k b [] = 0
held k b (w ∷ ws) = count_items k b w.accesses + held k b ws

-- A dictionary stores a key once.
abbrev pub IsDict : Accesses → Type 0
IsDict acc = (k : AccessKey) → count_items k false acc + count_items k true acc ≤ 1

abbrev pub AllDict : List Waiter → Type 0
AllDict [] = Unit {0}
AllDict (w ∷ ws) = IsDict w.accesses × AllDict ws

abbrev pub num : Bool → ℕ
num true = 1
num false = 0

abbrev pub state_at : AccessKey → States → AccessState
state_at k st = state_of (Dict.get k st)

-- A key's state tells `r` readers and `w` writers, which exclude one another.
pub record Agrees (s : AccessState) (r w : ℕ) : Type 0 where
  pub readers : s.readers ≡ r
  pub writer : num s.writer ≡ w
  pub exclusive : (w ≡ 0) ⊎ (r ≡ 0)

pub state_at-take_access :
    (k j : AccessKey) (b : Bool) (st : States)
    → state_at k (take_access st j b)
      ≡ (if key_eq j k then taken (state_at k st) b else state_at k st)
unfolding take_access
state_at-take_access k j b st =
    rw (get-put j k (taken (state_of (Dict.get j st)) b) st) (ground (arith, key_eq_iff j k))

pub readers-take_accesses :
    (k : AccessKey) (acc : Accesses) (st : States)
    → (state_at k (take_accesses st acc)).readers
      ≡ (state_at k st).readers + count_items k false acc
unfolding take_accesses
readers-take_accesses k [] st = omega arith
readers-take_accesses k ((j, true) ∷ acc) st =
    ground
      (arith, readers-take_accesses k acc (take_access st j true), state_at-take_access k j true st)
readers-take_accesses k ((j, false) ∷ acc) st =
    ground (
      arith,
      readers-take_accesses k acc (take_access st j false),
      state_at-take_access k j false st,
    )

pub writer-take_accesses :
    (k : AccessKey) (acc : Accesses) (st : States)
    → (state_at k (take_accesses st acc)).writer
      ≡ ((state_at k st).writer || ltb 0 (count_items k true acc))
unfolding take_accesses
writer-take_accesses k [] st = ground arith
writer-take_accesses k ((j, true) ∷ acc) st =
    ground
      (arith, writer-take_accesses k acc (take_access st j true), state_at-take_access k j true st)
writer-take_accesses k ((j, false) ∷ acc) st =
    ground (
      arith,
      writer-take_accesses k acc (take_access st j false),
      state_at-take_access k j false st,
    )

-- A grant that passes the test meets no conflicting holder.
pub can_grant-no_writer :
    (k : AccessKey) (b : Bool) (acc : Accesses) (st : States)
    → can_grant_access st acc ≡ true
    → 0 < count_items k b acc
    → ((state_at k st).writer ≡ false) × ((b ≡ false) ⊎ ((state_at k st).readers ≡ 0))
unfolding can_grant_access
can_grant-no_writer k b [] st h p = absurd (omega arith)
can_grant-no_writer k true ((j, true) ∷ acc) st h p =
    ground (arith, can_grant-no_writer k true acc st, key_eq_iff j k)
can_grant-no_writer k true ((j, false) ∷ acc) st h p =
    ground (arith, can_grant-no_writer k true acc st)
can_grant-no_writer k false ((j, false) ∷ acc) st h p =
    ground (arith, can_grant-no_writer k false acc st, key_eq_iff j k)
can_grant-no_writer k false ((j, true) ∷ acc) st h p =
    ground (arith, can_grant-no_writer k false acc st)

-- A grant that passes the test adds its own items to what the state tells.
pub take_accesses-Agrees :
    (k : AccessKey) (acc : Accesses) (st : States) (r w : ℕ)
    → IsDict acc
    → can_grant_access st acc ≡ true
    → Agrees (state_at k st) r w
    → Agrees
        (state_at k (take_accesses st acc))
        (r + count_items k false acc)
        (w + count_items k true acc)
take_accesses-Agrees k acc st r w d h v = ground (
  arith,
  d k,
  readers-take_accesses k acc st,
  writer-take_accesses k acc st,
  can_grant-no_writer k true acc st h,
  can_grant-no_writer k false acc st h,
)
