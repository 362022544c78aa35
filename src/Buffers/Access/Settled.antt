-- ===== src/Buffers/Access/Settled.antt =====
-- No entry is left in the queue that could be granted: each call ends with a pass.
use wmfs.Common.{
  ℕ, ◌<◌, length, ◌≡◌, refl, sym, ap, ◌∙◌, ◌⊎◌, inl, inr, true, List, [], ◌∷◌, ◌++◌, Bool-cases,
  Option-cases, ok, or_raise, first_ok, arith,
}
use wmfs.Buffers.Access.Keys.{AccessKey, access_key_eq}
use wmfs.Buffers.Access.Model.{
  not_queued, Waiter, Manager, grant_loop, grant_access_waiters, requested, is_empty_accesses,
  reserve_access, find_waiter, drop_waiter, release_access_locked, release, remove_equal, cancel,
  close,
}
use mathlib.Core.Path.{subst}
use wmfs.Buffers.Access.Steps.{
  init, Reach-IsValid, init-IsValid, Step, reserve, give_back, wake, interrupt, shut, Reach, start,
  then_step,
}
use wmfs.Buffers.Access.Fairness.{oldest_served}
use wmfs.Buffers.Access.Passes.{grant_loop-again}

-- Another pass changes nothing.
abbrev pub IsSettled : Manager → Type 0
IsSettled m = grant_access_waiters m ≡ m

append-nil : (ws : List Waiter) → ws ++ [] ≡ ws
append-nil [] = refl
append-nil (w ∷ ws) = ap (λ us. w ∷ us) (append-nil ws)

grant_access_waiters-IsSettled : (m : Manager) → IsSettled (grant_access_waiters m)
unfolding grant_access_waiters
grant_access_waiters-IsSettled m = elim (Bool-cases m.closed) [
  | inl down ↦ rw down refl
  | inr running ↦
      let p = grant_loop m.waiters [] m.states in
      rw
        (
          running,
          grant_loop-again m.waiters [] m.states p.states (λ k b h. h),
          append-nil (m.granted ++ p.granted),
        )
        refl
]

-- Every call ends with a pass or changes nothing.
release-IsSettled : {m n : Manager} (i : ℕ) → release m i ≡ ok n → IsSettled m → IsSettled n
unfolding release
release-IsSettled {m} {n} i h settled = elim (Option-cases (find_waiter i m.granted)) [
  | inl missing ↦ subst IsSettled (ground arith) settled
  | inr (w, found) ↦
      let (st, _, passed) =
        first_ok (release_access_locked m.states w.accesses) _ (rw (found, release) at h) in
      subst IsSettled (ground (arith, passed)) (
        grant_access_waiters-IsSettled
          (record m { states = st; granted = drop_waiter i m.granted }))
]

reserve_access-IsSettled :
    {m n : Manager} (i : ℕ) (reads writes : List AccessKey)
    → reserve_access m i reads writes ≡ ok n
    → IsSettled m
    → IsSettled n
unfolding reserve_access
reserve_access-IsSettled {m} i reads writes h settled =
    elim (Bool-cases (is_empty_accesses (requested reads writes))) [
      | inl empty ↦ subst IsSettled (ground arith) settled
      | inr full ↦ subst IsSettled (ground arith) (
          grant_access_waiters-IsSettled (record m {
            waiters = m.waiters ++ record { ident = i; accesses = requested reads writes } ∷ [];
          }))
    ]

cancel-IsSettled : {m n : Manager} (w : Waiter) → cancel m w ≡ ok n → IsSettled m → IsSettled n
unfolding cancel
cancel-IsSettled {m} w h settled = elim (Option-cases (find_waiter w.ident m.granted)) [
  | inl waiting ↦
      let (left, _, passed) =
        first_ok (or_raise (remove_equal w.accesses m.waiters) not_queued) _
          (rw (waiting, cancel) at h) in
      subst IsSettled (ground (arith, passed))
        (grant_access_waiters-IsSettled (record m { waiters = left }))
  | inr (v, found) ↦ release-IsSettled w.ident (rw (found, cancel) at h) settled
]

close-IsSettled : (m : Manager) → IsSettled (close m)
unfolding close grant_access_waiters
close-IsSettled m = refl

Step-IsSettled : {m n : Manager} → Step m n → IsSettled m → IsSettled n
Step-IsSettled (reserve i reads writes h) settled =
    reserve_access-IsSettled i reads writes h settled
Step-IsSettled (give_back i h) settled = release-IsSettled i h settled
Step-IsSettled {m} (wake e) settled = subst IsSettled (sym e) (grant_access_waiters-IsSettled m)
Step-IsSettled (interrupt w h) settled = cancel-IsSettled w h settled
Step-IsSettled {m} (shut e) settled = subst IsSettled (sym e) (close-IsSettled m)

init-IsSettled : IsSettled init
unfolding grant_access_waiters grant_loop
init-IsSettled = refl

reached-IsSettled : {m : Manager} → Reach init m → IsSettled m
reached-IsSettled start = init-IsSettled
reached-IsSettled (then_step before step) = Step-IsSettled step (reached-IsSettled before)

-- In every state that the threads reach, another pass would change nothing, so no entry of the queue
-- could be granted; and the manager is closed, the queue is empty, or a lease is held.
pub Reach-IsSettled :
    {m : Manager}
    → Reach init m
    → (grant_access_waiters m ≡ m)
      × ((m.closed ≡ true) ⊎ ((m.waiters ≡ []) ⊎ (0 < length m.granted)))
Reach-IsSettled {m} r = (reached-IsSettled r, idle_or_held m.waiters m.granted refl refl)
  where
    not_served : {v : Waiter} {new : List Waiter} → v ∷ new ≡ [] → ⊥
    not_served e = cc e

    idle_or_held :
        (ws gs : List Waiter)
        → m.waiters ≡ ws
        → m.granted ≡ gs
        → (m.closed ≡ true) ⊎ ((m.waiters ≡ []) ⊎ (0 < length m.granted))
    idle_or_held [] gs e idle = inr (inl e)
    idle_or_held (v ∷ ws) (g ∷ gs) e busy = inr (inr (omega (arith, ap length busy)))
    idle_or_held (v ∷ ws) [] e idle = elim (Bool-cases m.closed) [
      | inl down ↦ inl down
      | inr running ↦
          let (new, served) = oldest_served m v ws (Reach-IsValid r init-IsValid) running idle e in
          absurd
            (not_served (sym served ∙ ap (λ (n : Manager). n.granted) (reached-IsSettled r) ∙ idle))
    ]
