-- ===== src/Buffers/Access/Tests.antt =====
-- Runs of the reservations of packages/wmfs/wmfs/memory/buffers.py.
use mathlib.Core.List.{Perm}
use wmfs.Common.{ℕ, ◌≤◌, ◌<◌, length, ◌≡◌, refl, ◌⊎◌, true, false, List, [], ◌∷◌, ◌++◌, ok, All}
use wmfs.Common.Dict
use wmfs.Buffers.Access.Keys.{AccessKey, access_key_eq}
use wmfs.Buffers.Access.Model.{
  Waiter, Manager, grant_access_waiters, reserve_access, requested, release, is_disjoint, cancel,
  can_grant_access, find_waiter,
}
use wmfs.Buffers.Access.Counts.{held}
use wmfs.Buffers.Access.Steps.{
  IsValid, init, Reach, start, then_step, reserve, Reach-exclusive, Reach-release,
}
use wmfs.Buffers.Access.Fairness.{
  grant_access_waiters-perm, oldest_not_overtaken, cancel_takes_oldest_equal,
}
use wmfs.Buffers.Access.Settled.{Reach-IsSettled}

abbrev key : ℕ → AccessKey
key n = record { buffer_id = n; generation = 1; allocation_id = n }

abbrev reader : ℕ → Waiter
reader i = record { ident = i; accesses = (key 7, false) ∷ [] }

abbrev writer : ℕ → Waiter
writer i = record { ident = i; accesses = (key 7, true) ∷ [] }

-- Two readers share the key, and a writer waits for both.
abbrev shared : Manager
shared = record {
  states = (key 7, record { readers = 2; writer = false }) ∷ [];
  waiters = writer 3 ∷ [];
  granted = reader 1 ∷ reader 2 ∷ [];
  closed = false;
}

after_one : Manager
after_one = record {
  states = (key 7, record { readers = 1; writer = false }) ∷ [];
  waiters = [];
  granted = reader 1 ∷ [];
  closed = false;
}

after_two : Manager
after_two = record after_one {
  states = (key 7, record { readers = 2; writer = false }) ∷ [];
  granted = reader 1 ∷ reader 2 ∷ [];
}

shared-Reach : Reach init shared
unfolding reserve_access after_one after_two Dict.get Dict.put Dict.set_default is_disjoint
    can_grant_access wmfs.Buffers.Access.Model.take_accesses wmfs.Buffers.Access.Model.take_access
shared-Reach =
    then_step {n = after_two}
      (then_step {n = after_one} (then_step start (reserve 1 (key 7 ∷ []) [] refl))
        (reserve 2 (key 7 ∷ []) [] refl))
      (reserve 3 [] (key 7 ∷ []) refl)

-- The writer gets its lease when the second reader leaves.
last_release :
    (n : Manager) × (release
        (record shared {
          states = (key 7, record { readers = 1; writer = false }) ∷ [];
          granted = reader 2 ∷ [];
        })
        2
      ≡ ok n)
    × (n.granted ≡ writer 3 ∷ [])
unfolding release Dict.get Dict.put Dict.remove wmfs.Buffers.Access.Model.drop_access is_disjoint
    can_grant_access wmfs.Buffers.Access.Model.take_accesses wmfs.Buffers.Access.Model.take_access
last_release = (
  record {
    states = (key 7, record { readers = 0; writer = true }) ∷ [];
    waiters = [];
    granted = writer 3 ∷ [];
    closed = false;
  },
  refl,
  refl,
)

Reach-exclusive_example :
    (held (key 7) true shared.granted ≤ 1)
    × ((held (key 7) true shared.granted ≡ 0) ⊎ (held (key 7) false shared.granted ≡ 0))
Reach-exclusive_example = Reach-exclusive shared-Reach (key 7)

Reach-release_example : (n : Manager) × (release shared 2 ≡ ok n) × IsValid n
Reach-release_example = Reach-release shared-Reach 2

grant_access_waiters-perm_example :
    (new : List Waiter) × ((grant_access_waiters shared).granted ≡ shared.granted ++ new)
    × Perm shared.waiters ((grant_access_waiters shared).waiters ++ new)
grant_access_waiters-perm_example = grant_access_waiters-perm shared refl

-- A reader behind the writer waits too, although the readers that hold the key would admit it.
abbrev behind : Manager
behind = record shared { waiters = writer 3 ∷ reader 4 ∷ [] }

oldest_not_overtaken_example :
    (new rest : List Waiter) × ((grant_access_waiters behind).granted ≡ behind.granted ++ new)
    × ((grant_access_waiters behind).waiters ≡ writer 3 ∷ rest)
    × All (λ w. is_disjoint (key 7 ∷ []) (Dict.keys w.accesses) ≡ true) new
unfolding can_grant_access Dict.get
oldest_not_overtaken_example = oldest_not_overtaken behind (writer 3) (reader 4 ∷ []) refl refl refl

Reach-IsSettled_example :
    (grant_access_waiters shared ≡ shared)
    × ((shared.closed ≡ true) ⊎ ((shared.waiters ≡ []) ⊎ (0 < length shared.granted)))
Reach-IsSettled_example = Reach-IsSettled shared-Reach

-- Waiter 4 is interrupted, and waiter 3, which asks for the same, loses its place.
abbrev twins : Manager
twins = record shared { waiters = reader 5 ∷ writer 3 ∷ writer 4 ∷ [] }

cancel_takes_oldest_equal_example :
    (n : Manager) × (new : List Waiter) × (cancel twins (writer 4) ≡ ok n)
    × (n.granted ≡ twins.granted ++ new)
    × Perm (reader 5 ∷ writer 4 ∷ []) (n.waiters ++ new)
unfolding find_waiter Dict.get
cancel_takes_oldest_equal_example =
    cancel_takes_oldest_equal twins (writer 4) (writer 3) (reader 5 ∷ []) (writer 4 ∷ []) refl refl
      refl (refl, tt) refl
