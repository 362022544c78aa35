-- ===== src/Buffers/Access/Steps.antt =====
-- The calls that the threads of a session make on one `BufferManager`, in any order, and the
-- invariant that every one of them keeps.
use wmfs.Common.{
  ℕ, ◌+◌, ◌≤◌, ◌≡◌, ◌⊎◌, inl, inr, Bool, true, false, some, List, [], ◌∷◌, ◌++◌, if◌then◌else◌,
  Bool-cases, Option-cases, ok, arith,
}
use wmfs.Common.Dict
use wmfs.Common.Dict.{get-put}
use wmfs.Buffers.Access.Keys.{AccessKey, access_key_eq}
use wmfs.Buffers.Access.Model.{
  Accesses, States, Waiter, Manager, take_accesses, grant_loop, grant_access_waiters,
  reserve_access, requested, is_empty_accesses, find_waiter, drop_waiter, release, cancel,
  remove_equal, same_accesses, close,
}
use wmfs.Buffers.Access.Counts.{count_items, held, AllDict, state_at, Agrees, num}
use mathlib.Core.Path.{subst}
use wmfs.Buffers.Access.Requests.{requested-IsDict}
use wmfs.Buffers.Access.Exclusion.{
  held-append, AllDict-append, grant_loop-Agrees, release_access_locked-Agrees,
}

-- The states of the keys are the counts of the leases that are held.
pub record IsValid (m : Manager) : Type 0 where
  pub agrees :
      (k : AccessKey)
      → Agrees (state_at k m.states) (held k false m.granted) (held k true m.granted)
  pub queued : AllDict m.waiters
  pub leased : AllDict m.granted

abbrev pub init : Manager
init = record { states = []; waiters = []; granted = []; closed = false }

grant_loop-AllDict :
    (ws : List Waiter) (blocked : List AccessKey) (st : States)
    → AllDict ws
    → let p = grant_loop ws blocked st in AllDict p.waiting × AllDict p.granted
unfolding grant_loop
grant_loop-AllDict [] blocked st d = (tt, tt)
grant_loop-AllDict (x ∷ ws) blocked st d = ground (
  arith,
  grant_loop-AllDict ws blocked (take_accesses st x.accesses) d.1,
  grant_loop-AllDict ws (blocked ++ Dict.keys x.accesses) st d.1,
)

IsValid-if : (b : Bool) (m n : Manager) → IsValid m → IsValid n → IsValid (if b then m else n)
IsValid-if true m n v w = v
IsValid-if false m n v w = w

-- A pass keeps the invariant.
pub grant_access_waiters-IsValid : {m : Manager} → IsValid m → IsValid (grant_access_waiters m)
unfolding grant_access_waiters
grant_access_waiters-IsValid {m} v =
    let p = grant_loop m.waiters [] m.states in
    IsValid-if m.closed m _ v (record {
      agrees = λ k.
          rw (held-append k false m.granted p.granted, held-append k true m.granted p.granted)
            (grant_loop-Agrees k m.waiters [] m.states _ _ v.queued (v.agrees k));
      queued = (grant_loop-AllDict m.waiters [] m.states v.queued).0;
      leased =
          AllDict-append m.granted _ v.leased (grant_loop-AllDict m.waiters [] m.states v.queued).1;
    })

-- A call of `reserve_access` keeps the invariant.
pub reserve_access-IsValid :
    {m n : Manager} (i : ℕ) (reads writes : List AccessKey)
    → reserve_access m i reads writes ≡ ok n
    → IsValid m
    → IsValid n
unfolding reserve_access
reserve_access-IsValid {m} {n} i reads writes h v = elim (Bool-cases (is_empty_accesses acc)) [
  | inl empty ↦ subst IsValid (ground arith) v
  | inr full ↦ subst IsValid (ground arith) (grant_access_waiters-IsValid queued)
]
  where
    acc : Accesses
    acc = requested reads writes

    w : Waiter
    w = record { ident = i; accesses = acc }

    queued : IsValid (record m { waiters = m.waiters ++ w ∷ [] })
    queued = record {
      agrees = v.agrees;
      queued = AllDict-append m.waiters (w ∷ []) v.queued (requested-IsDict reads writes, tt);
      leased = v.leased;
    }

held-drop_waiter :
    (k : AccessKey) (b : Bool) (i : ℕ) (ws : List Waiter) (w : Waiter)
    → find_waiter i ws ≡ some w
    → held k b ws ≡ held k b (drop_waiter i ws) + count_items k b w.accesses
unfolding find_waiter drop_waiter
held-drop_waiter k b i [] w h = cc
held-drop_waiter k b i (x ∷ ws) w h = ground (arith, held-drop_waiter k b i ws w)

AllDict-drop_waiter : (i : ℕ) (ws : List Waiter) → AllDict ws → AllDict (drop_waiter i ws)
unfolding drop_waiter
AllDict-drop_waiter i [] d = tt
AllDict-drop_waiter i (x ∷ ws) d = ground (arith, AllDict-drop_waiter i ws d.1)

-- A release by the holder of a lease raises nothing and keeps the invariant.
pub release-IsValid :
    {m : Manager} (i : ℕ) → IsValid m → (n : Manager) × (release m i ≡ ok n) × IsValid n
unfolding release
release-IsValid {m} i v = elim (Option-cases (find_waiter i m.granted)) [
  | inl missing ↦ (m, rw (missing, release), v)
  | inr (w, found) ↦
      let rest = drop_waiter i m.granted in
      let (st, e, g) =
        release_access_locked-Agrees w.accesses m.states (λ k. held k false rest)
          (λ k. held k true rest)
          (λ k.
            rw
              (
                ← held-drop_waiter k false i m.granted w found,
                ← held-drop_waiter k true i m.granted w found,
              )
              (v.agrees k)) in
      (
        grant_access_waiters (record m { states = st; granted = rest }),
        rw (found, release, e),
        grant_access_waiters-IsValid (record {
          agrees = g;
          queued = v.queued;
          leased = AllDict-drop_waiter i m.granted v.leased;
        }),
      )
]

AllDict-remove_equal :
    (acc : Accesses) (ws left : List Waiter)
    → remove_equal acc ws ≡ some left
    → AllDict ws
    → AllDict left
unfolding remove_equal
AllDict-remove_equal acc [] left h d = cc
AllDict-remove_equal acc (w ∷ ws) left h d = elim (Bool-cases (same_accesses w.accesses acc)) [
  | inl same ↦ subst AllDict (ground arith) d.1
  | inr other ↦ elim (Option-cases (remove_equal acc ws)) [
    | inl missing ↦ absurd (ground arith)
    | inr (rest, found) ↦
        subst AllDict {x = w ∷ rest} (ground arith)
          (d.0, AllDict-remove_equal acc ws rest found d.1)
  ]
]

-- An interrupted wait keeps the invariant.
pub cancel-IsValid : {m n : Manager} (w : Waiter) → cancel m w ≡ ok n → IsValid m → IsValid n
unfolding cancel
cancel-IsValid {m} {n} w h v = elim (Option-cases (find_waiter w.ident m.granted)) [
  | inl waiting ↦ elim (Option-cases (remove_equal w.accesses m.waiters)) [
    | inl missing ↦ absurd (ground arith)
    | inr (rest, found) ↦ subst IsValid (ground arith) (
        grant_access_waiters-IsValid {m = record m { waiters = rest }} (record {
          agrees = v.agrees;
          queued = AllDict-remove_equal w.accesses m.waiters rest found v.queued;
          leased = v.leased;
        }))
  ]
  | inr (x, found) ↦
      let (n', e, valid) = release-IsValid w.ident v in subst IsValid (ground (arith, e)) valid
]

-- What a thread of the session does to the manager in one go, under its lock.
pub data Step (m n : Manager) : Type 0 where
  reserve :
      (i : ℕ) (reads writes : List AccessKey) → reserve_access m i reads writes ≡ ok n → Step m n
  give_back : (i : ℕ) → release m i ≡ ok n → Step m n
  wake : n ≡ grant_access_waiters m → Step m n
  interrupt : (w : Waiter) → cancel m w ≡ ok n → Step m n
  shut : n ≡ close m → Step m n

pub data Reach (m : Manager) : Manager → Type 0 where
  start : Reach m m
  then_step : {n o : Manager} → Reach m n → Step n o → Reach m o

close-IsValid : {m : Manager} → IsValid m → IsValid (close m)
unfolding close
close-IsValid v = record { agrees = v.agrees; queued = v.queued; leased = v.leased }

pub Step-IsValid : {m n : Manager} → Step m n → IsValid m → IsValid n
Step-IsValid (reserve i reads writes h) v = reserve_access-IsValid i reads writes h v
Step-IsValid {m} (give_back i h) v =
    let (n', e, valid) = release-IsValid i v in subst IsValid (ground (arith, e)) valid
Step-IsValid (wake e) v = rw e (grant_access_waiters-IsValid v)
Step-IsValid (interrupt w h) v = cancel-IsValid w h v
Step-IsValid (shut e) v = rw e (close-IsValid v)

pub Reach-IsValid : {m n : Manager} → Reach m n → IsValid m → IsValid n
Reach-IsValid start v = v
Reach-IsValid (then_step r s) v = Step-IsValid s (Reach-IsValid r v)

pub init-IsValid : IsValid init
unfolding Dict.get
init-IsValid = record { agrees = λ k. omega arith; queued = tt; leased = tt }

-- Whatever the threads do and in whatever order, a key has one writer at most, and no reader
-- beside a writer.
pub Reach-exclusive :
    {m : Manager}
    → Reach init m
    → (k : AccessKey)
    → (held k true m.granted ≤ 1) × ((held k true m.granted ≡ 0) ⊎ (held k false m.granted ≡ 0))
Reach-exclusive {m} r k =
    let a = (Reach-IsValid r init-IsValid).agrees k in
    (one_writer (state_at k m.states).writer a.writer, a.exclusive)
  where
    one_writer : (b : Bool) → num b ≡ held k true m.granted → held k true m.granted ≤ 1
    one_writer true e = omega arith
    one_writer false e = omega arith

-- In every state that the threads can reach, the release of a lease raises nothing.
pub Reach-release :
    {m : Manager} → Reach init m → (i : ℕ) → (n : Manager) × (release m i ≡ ok n) × IsValid n
Reach-release r i = release-IsValid i (Reach-IsValid r init-IsValid)
