-- ===== src/Backend/Calls.antt =====
-- packages/wmfs/wmfs/backends/isolated.py: the calls of a backend.
use wmfs.Common.{
  ◌+◌, ◌≤◌, true, false, none, List, [], ◌∷◌, ◌++◌, nat_eq, Bool-cases, ◌↔◌, inl, inr, ◌≡◌, refl,
  sym, ap, ◌∙◌, arith,
}
use mathlib.Core.Path.{subst}
use wmfs.Common.Dict
use wmfs.Common.Dict.{Dict, get-put, get-remove}
use wmfs.Common.Utf8.{Text}
use wmfs.Common.Text.{text_eq}
use wmfs.Backend.{
  BackendState, is_open, is_closing, is_closed, IsolatedBackend, accepts, is_creating, begun,
  acquire,
}
use wmfs.Backend.Steps.{
  Task, starts, uses, constructs, drains, World, moved, Call, shares, begins, works, shuts,
}
use wmfs.Backend.Counts.{
  total-append, num, total, flying, builds, in_close, shutting, total-le, shutting-in_close,
}
use wmfs.Backend.Sound.{at_closing, IsLate, IsSound, swap-IsKept, step-IsSound}
use wmfs.Backend.Results.{acquire-shared, acquire-begun, begin_work-eq-some, begin_close-eq-some}

-- A call of a backend that is open, which stores and closes no session.
enter-IsSound :
    (w : World) (b : IsolatedBackend) (new : List Task)
    → IsSound w
    → accepts w.backend.state ≡ true
    → b.inflight ≡ w.backend.inflight + total flying new
    → ((p : Text)
        → num (is_creating p b.creating)
          ≡ num (is_creating p w.backend.creating) + total (builds p) new)
    → ((p : Text) → is_creating p b.creating ≡ true → Dict.get p b.sessions ≡ none)
    → at_closing b.state ≡ total in_close new
    → total shutting new ≡ 0
    → (b.state ≡ is_closed → ⊥)
    → w.backend.sessions ≡ b.sessions
    → IsSound (moved [] new w.tasks b w.count w.ended)
enter-IsSound w b new sound is_up flies builds_same fresh closes_new none_shuts not_closed stored =
    let idle : at_closing w.backend.state ≡ 0 = open_idle w.backend.state is_up in
    let none_shut = total-le shutting in_close shutting-in_close w.tasks in
    step-IsSound w b [] [] new w.tasks w.count w.ended sound refl (omega (arith, flies))
      (λ p. omega (arith, builds_same p)) fresh (omega (arith, closes_new, idle))
      (λ late. absurd (early none_shut idle late))
      (λ s small.
        swap-IsKept s w.backend b [] [] new w.tasks w.ended w.ended (λ closed. closed)
          (λ p d. inl (p, ap (Dict.get p) (sym stored) ∙ d)) (λ held. absurd (omega (arith, held)))
          (sound.kept s small))
  where
    open_idle : (state : BackendState) → accepts state ≡ true → at_closing state ≡ 0
    open_idle is_open a = refl
    open_idle is_closing a = absurd (cc a)
    open_idle is_closed a = absurd (cc a)

    early :
        total shutting w.tasks ≤ total in_close w.tasks
        → at_closing w.backend.state ≡ 0
        → IsLate b (new ++ w.tasks)
        → ⊥
    early below idle (inl some_shut) =
        omega (
          arith,
          below,
          idle,
          some_shut,
          none_shuts,
          sound.closer,
          total-append shutting new w.tasks,
        )
    early below idle (inr closed) = not_closed closed

open_not_closed : (state : BackendState) → accepts state ≡ true → state ≡ is_closed → ⊥
open_not_closed is_open a e = cc e
open_not_closed is_closing a e = cc a
open_not_closed is_closed a e = cc a

open_at_closing : (state : BackendState) → accepts state ≡ true → at_closing state ≡ 0
open_at_closing is_open a = refl
open_at_closing is_closing a = absurd (cc a)
open_at_closing is_closed a = absurd (cc a)

-- A session is started only where none of its plugin is stored or being started.
begins-IsSound :
    (w : World) (p : Text) {c : IsolatedBackend}
    → IsSound w
    → acquire p w.backend ≡ begun c
    → IsSound (moved [] (starts p ∷ []) w.tasks c w.count w.ended)
unfolding is_creating
begins-IsSound w p sound h =
    let (is_up, absent, alone, same) = acquire-begun p w.backend h in
    subst (λ c. IsSound (moved [] (starts p ∷ []) w.tasks c w.count w.ended)) same
      (enter-IsSound w (record w.backend { creating = p ∷ w.backend.creating }) (starts p ∷ [])
        sound is_up (omega arith) (λ q. one_more q (text_eq.beq_iff q p) alone)
        (λ q there. other_or_new q (text_eq.beq_iff q p) absent there)
        (open_at_closing w.backend.state is_up) refl (open_not_closed w.backend.state is_up) refl)
  where
    one_more :
        (q : Text)
        → (text_eq.beq q p ≡ true) ↔ (q ≡ p)
        → is_creating p w.backend.creating ≡ false
        → num (is_creating q (p ∷ w.backend.creating))
          ≡ num (is_creating q w.backend.creating) + (num (text_eq.beq q p) + 0)
    one_more q same alone = elim (Bool-cases (text_eq.beq q p)) [
      | inl equal ↦
          let none_yet : is_creating q w.backend.creating ≡ false =
            subst (λ r. is_creating r w.backend.creating ≡ false) (sym (same.0 equal)) alone in
          rw (equal, none_yet) refl
      | inr other ↦ rw other (omega arith)
    ]

    other_or_new :
        (q : Text)
        → (text_eq.beq q p ≡ true) ↔ (q ≡ p)
        → Dict.get p w.backend.sessions ≡ none
        → is_creating q (p ∷ w.backend.creating) ≡ true
        → Dict.get q w.backend.sessions ≡ none
    other_or_new q same absent there = elim (Bool-cases (text_eq.beq q p)) [
      | inl equal ↦ ap (λ r. Dict.get r w.backend.sessions) (same.0 equal) ∙ absent
      | inr other ↦ sound.fresh q (rw other at there)
    ]

-- Every call keeps what is kept.
pub Call-IsSound :
    (w : World) {t : Task} {c : IsolatedBackend}
    → IsSound w
    → Call w.backend t c
    → IsSound (moved [] (t ∷ []) w.tasks c w.count w.ended)
Call-IsSound w sound (shares p s h) =
    let (is_up, same) = acquire-shared p s w.backend h in
    subst (λ c. IsSound (moved [] (uses p s ∷ []) w.tasks c w.count w.ended)) same
      (enter-IsSound w _ (uses p s ∷ []) sound is_up (omega arith) (λ q. omega arith) sound.fresh
        (open_at_closing w.backend.state is_up) refl (open_not_closed w.backend.state is_up) refl)
Call-IsSound w sound (begins p h) = begins-IsSound w p sound h
Call-IsSound w sound (works h) =
    let (is_up, same) = begin_work-eq-some w.backend h in
    subst (λ c. IsSound (moved [] (constructs ∷ []) w.tasks c w.count w.ended)) same
      (enter-IsSound w _ (constructs ∷ []) sound is_up (omega arith) (λ q. omega arith) sound.fresh
        (open_at_closing w.backend.state is_up) refl (open_not_closed w.backend.state is_up) refl)
Call-IsSound w sound (shuts h) =
    let (is_up, same) = begin_close-eq-some w.backend h in
    subst (λ c. IsSound (moved [] (drains ∷ []) w.tasks c w.count w.ended)) same
      (enter-IsSound w _ (drains ∷ []) sound is_up (omega arith) (λ q. omega arith) sound.fresh refl
        refl (λ e. cc e) refl)
