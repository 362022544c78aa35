-- ===== src/Buffers/Access/Fairness.antt =====
-- What a pass over the queue does for the waiters: none is lost, the oldest is not overtaken, and
-- it is served when nothing is held.
use mathlib.Core.List.{Perm, perm_middle}
use mathlib.Core.List.Perm
use wmfs.Common.{
  ◌≡◌, refl, inl, inr, Bool, true, false, ◌&&◌, ◌||◌, none, some, List, [], ◌∷◌, ◌++◌, Bool-cases,
  ok, any, All, arith,
}
use wmfs.Common.Dict
use wmfs.Buffers.Access.Keys.{AccessKey, key_eq, access_key_eq}
use wmfs.Buffers.Access.Model.{
  Accesses, States, Waiter, Manager, take_accesses, can_grant_access, is_disjoint, grant_loop,
  grant_access_waiters, same_accesses, find_waiter, cancel, remove_equal,
}
use wmfs.Buffers.Access.Counts.{state_at, Agrees}
use wmfs.Buffers.Access.Steps.{IsValid}

-- A pass grants or keeps each waiter, and the rest of the queue stays in its order.
grant_loop-perm :
    (ws : List Waiter) (blocked : List AccessKey) (st : States)
    → let p = grant_loop ws blocked st in Perm ws (p.waiting ++ p.granted)
unfolding grant_loop
grant_loop-perm [] blocked st = Perm.nil
grant_loop-perm (w ∷ ws) blocked st =
    elim (Bool-cases
      (is_disjoint blocked (Dict.keys w.accesses) && can_grant_access st w.accesses)) [
        | inl fits ↦ rw fits (
            Perm.trans (Perm.cons w (grant_loop-perm ws blocked (take_accesses st w.accesses)))
              (Perm.symm (perm_middle _ _)))
        | inr blocks ↦
            rw blocks (Perm.cons w (grant_loop-perm ws (blocked ++ Dict.keys w.accesses) st))
      ]

abbrev Apart : List AccessKey → Waiter → Type 0
Apart ks w = is_disjoint ks (Dict.keys w.accesses) ≡ true

pub any-append :
    (p : AccessKey → Bool) (xs ys : List AccessKey) → any p (xs ++ ys) ≡ (any p xs || any p ys)
any-append p [] ys = refl
any-append p (x ∷ xs) ys = ground (arith, any-append p xs ys)

is_disjoint-append :
    (xs ys ks : List AccessKey)
    → is_disjoint (xs ++ ys) ks ≡ true
    → (is_disjoint xs ks ≡ true) × (is_disjoint ys ks ≡ true)
unfolding is_disjoint
is_disjoint-append xs ys [] h = (refl, refl)
is_disjoint-append xs ys (k ∷ ks) h =
    ground (arith, is_disjoint-append xs ys ks, any-append (key_eq k) xs ys)

-- No waiter with a blocked key is granted.
grant_loop-Apart :
    (ks : List AccessKey) (ws : List Waiter) (blocked : List AccessKey) (st : States)
    → ((w : Waiter) → Apart blocked w → Apart ks w)
    → All (Apart ks) (grant_loop ws blocked st).granted
unfolding grant_loop
grant_loop-Apart ks [] blocked st sub = tt
grant_loop-Apart ks (w ∷ ws) blocked st sub =
    elim (Bool-cases
      (is_disjoint blocked (Dict.keys w.accesses) && can_grant_access st w.accesses)) [
        | inl fits ↦
            rw fits (
              sub w (ground arith),
              grant_loop-Apart ks ws blocked (take_accesses st w.accesses) sub,
            )
        | inr blocks ↦ rw blocks (
            grant_loop-Apart ks ws (blocked ++ Dict.keys w.accesses) st (λ v h.
              sub v (is_disjoint-append blocked (Dict.keys w.accesses) (Dict.keys v.accesses) h).0))
      ]

-- A pass of an open manager grants and keeps exactly the waiters that were queued.
pub grant_access_waiters-perm :
    (m : Manager)
    → m.closed ≡ false
    → (new : List Waiter) × ((grant_access_waiters m).granted ≡ m.granted ++ new)
      × Perm m.waiters ((grant_access_waiters m).waiters ++ new)
unfolding grant_access_waiters
grant_access_waiters-perm m running = (
  (grant_loop m.waiters [] m.states).granted,
  ground arith,
  simp running (grant_loop-perm m.waiters [] m.states),
)

-- A pass over the queue of an open manager that cannot serve the oldest waiter leaves it the oldest,
-- and whatever the pass grants has no key in common with it.
pub oldest_not_overtaken :
    (m : Manager) (v : Waiter) (ws : List Waiter)
    → m.closed ≡ false
    → m.waiters ≡ v ∷ ws
    → can_grant_access m.states v.accesses ≡ false
    → (new rest : List Waiter) × ((grant_access_waiters m).granted ≡ m.granted ++ new)
      × ((grant_access_waiters m).waiters ≡ v ∷ rest)
      × All (λ w. is_disjoint (Dict.keys v.accesses) (Dict.keys w.accesses) ≡ true) new
unfolding grant_access_waiters grant_loop
oldest_not_overtaken m v ws running queue stuck =
    let p = grant_loop ws (Dict.keys v.accesses) m.states in
    (
      p.granted,
      p.waiting,
      ground arith,
      ground arith,
      grant_loop-Apart (Dict.keys v.accesses) ws (Dict.keys v.accesses) m.states (λ w h. h),
    )

-- Where no key is held at all, every lease can be granted.
can_grant-unheld :
    (st : States) (acc : Accesses)
    → ((k : AccessKey) → Agrees (state_at k st) 0 0)
    → can_grant_access st acc ≡ true
unfolding can_grant_access
can_grant-unheld st [] free = refl
can_grant-unheld st ((k, b) ∷ acc) free = ground (arith, free k, can_grant-unheld st acc free)

is_disjoint-nil : (ks : List AccessKey) → is_disjoint [] ks ≡ true
unfolding is_disjoint
is_disjoint-nil [] = refl
is_disjoint-nil (k ∷ ks) = is_disjoint-nil ks

-- When no lease is held, a pass serves the oldest waiter.
pub oldest_served :
    (m : Manager) (v : Waiter) (ws : List Waiter)
    → IsValid m
    → m.closed ≡ false
    → m.granted ≡ []
    → m.waiters ≡ v ∷ ws
    → (new : List Waiter) × ((grant_access_waiters m).granted ≡ v ∷ new)
unfolding grant_access_waiters grant_loop
oldest_served m v ws valid running idle queue = (
  (grant_loop ws [] (take_accesses m.states v.accesses)).granted,
  ground (
    arith,
    can_grant-unheld m.states v.accesses (λ k. rw idle at (valid.agrees k)),
    is_disjoint-nil (Dict.keys v.accesses),
  ),
)

remove_equal-first :
    (acc : Accesses) (before : List Waiter) (v : Waiter) (after : List Waiter)
    → All (λ u. same_accesses u.accesses acc ≡ false) before
    → same_accesses v.accesses acc ≡ true
    → remove_equal acc (before ++ v ∷ after) ≡ some (before ++ after)
unfolding remove_equal
remove_equal-first acc [] v after others equal = rw equal refl
remove_equal-first acc (u ∷ before) v after others equal =
    rw (others.0, remove_equal-first acc before v after others.1 equal) refl

-- A waiter of an open manager that is interrupted before it is granted takes the first waiter with
-- equal accesses off the queue, whether that is itself or another one; the pass that follows grants or
-- keeps each of the others.
pub cancel_takes_oldest_equal :
    (m : Manager) (w v : Waiter) (before after : List Waiter)
    → m.closed ≡ false
    → find_waiter w.ident m.granted ≡ none
    → m.waiters ≡ before ++ v ∷ after
    → All (λ u. same_accesses u.accesses w.accesses ≡ false) before
    → same_accesses v.accesses w.accesses ≡ true
    → (n : Manager) × (new : List Waiter) × (cancel m w ≡ ok n)
      × (n.granted ≡ m.granted ++ new)
      × Perm (before ++ after) (n.waiters ++ new)
unfolding cancel
cancel_takes_oldest_equal m w v before after running waiting queue others equal =
    let left : Manager = record m { waiters = before ++ after } in
    let (new, granted, kept) = grant_access_waiters-perm left running in
    (
      grant_access_waiters left,
      new,
      rw (waiting, cancel, queue, remove_equal-first w.accesses before v after others equal) refl,
      granted,
      kept,
    )
