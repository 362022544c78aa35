-- ===== src/Backend/Waits.antt =====
-- packages/wmfs/wmfs/backends/isolated.py: the wait of `close`, which ends by a `notify_all` or by an
-- exception.
use wmfs.Common.{
  ℕ, ◌≤◌, Bool, true, false, some, List, [], ◌∷◌, ◌++◌, nat_eq, Bool-cases, ◌⊎◌, inl, inr, ◌≡◌,
  refl, ap, arith,
}
use mathlib.Core.Path.{subst}
use wmfs.Common.Dict
use wmfs.Common.Dict.{Dict}
use wmfs.Common.Utf8.{Text}
use wmfs.Common.Text.{text_eq}
use wmfs.Backend.{
  IsolatedBackend, is_drained, is_session, finish_creating, finish_work, evict, fall_asleep,
  interrupt_close, finish_close,
}
use wmfs.Backend.Steps.{
  Task, drains, World, moved, Call, shares, begins, works, shuts, Move, start_fails, start_succeeds,
  installs, refuses, discards_it, returns, fails, evicts_it, constructs_it, sleeps, drains_it,
  closes_one, closes_all, discovers, enters, goes_on, interrupts, Reach, begin, later,
}
use wmfs.Backend.Counts.{total, flying, builds, in_close, shutting, total-swap}
use wmfs.Backend.Sound.{IsLate, IsSound, step-IsSound}
use wmfs.Backend.Results.{
  acquire-shared, acquire-begun, begin_work-eq-some, begin_close-eq-some, install-eq-some,
  fall_asleep-eq-some, drain-eq-some,
}
use wmfs.Backend.Moves.{same-IsKept}

-- The thread in the wait of `close` sleeps or leaves; nothing else changes.
module _ (w : World) (before after : List Task) (sound : IsSound w)
    (same : w.tasks ≡ before ++ drains ∷ after) where
  rests-IsSound :
      (new : List Task) (asleep : Bool)
      → total flying new ≡ 0
      → ((p : Text) → total (builds p) new ≡ 0)
      → total in_close new ≤ 1
      → total shutting new ≡ 0
      → IsSound (moved before new after (record w.backend { asleep = asleep }) w.count w.ended)
  rests-IsSound new asleep none_flies none_built one_closes none_shuts =
      step-IsSound w (record w.backend { asleep = asleep }) before (drains ∷ []) new after w.count
        w.ended sound same (omega (arith, none_flies)) (λ p. omega (arith, none_built p))
        sound.fresh (omega (arith, one_closes)) (λ late. sound.quiet (was_late late))
        (same-IsKept w before after drains new sound same (record w.backend { asleep = asleep })
          w.ended refl (λ k e. e) (λ k held. absurd (omega (arith, held))))
    where
      was_late :
          IsLate (record w.backend { asleep = asleep }) (before ++ (new ++ after))
          → IsLate w.backend w.tasks
      was_late (inl some_shut) = inl (
          omega (
            arith,
            some_shut,
            none_shuts,
            ap (total shutting) same,
            total-swap shutting before (drains ∷ []) new after,
          ))
      was_late (inr closed) = inr closed

  pub sleeps-IsSound :
      {c : IsolatedBackend}
      → fall_asleep w.backend ≡ some c
      → IsSound (moved before (drains ∷ []) after c w.count w.ended)
  sleeps-IsSound h =
      let (_, _, slept) = fall_asleep-eq-some w.backend h in
      subst (λ c. IsSound (moved before (drains ∷ []) after c w.count w.ended)) slept
        (rests-IsSound (drains ∷ []) true refl (λ p. refl) (omega arith) refl)

  pub interrupts-IsSound :
      IsSound (moved before [] after (interrupt_close w.backend) w.count w.ended)
  unfolding interrupt_close
  interrupts-IsSound = rests-IsSound [] false refl (λ p. refl) (omega arith) refl

-- Nobody sleeps in `close` while the condition of its wait holds.
abbrev pub IsAwake : IsolatedBackend → Type 0
IsAwake b = (b.asleep ≡ false) ⊎ (is_drained b ≡ false)

evict-IsAwake : (p : Text) (s : ℕ) (b : IsolatedBackend) → IsAwake b → IsAwake (evict p s b)
unfolding evict
evict-IsAwake p s b h = elim (Bool-cases (is_session (Dict.get p b.sessions) s)) [
  | inl its_own ↦ rw its_own (inl refl)
  | inr other ↦ rw other h
]

Move-IsAwake :
    (w : World) {old : Task} {new : List Task} {c : IsolatedBackend} {n : ℕ} {now : ℕ → Bool}
    → IsAwake w.backend
    → Move w old new c n now
    → IsAwake c
unfolding finish_creating finish_work finish_close
Move-IsAwake w h (start_fails p) = inl refl
Move-IsAwake w h (start_succeeds p) = h
Move-IsAwake w h (installs p s stored) =
    subst IsAwake (install-eq-some p s w.backend stored).1 (inl refl)
Move-IsAwake w h (refuses p s e) = h
Move-IsAwake w h (discards_it p s) = inl refl
Move-IsAwake w h (returns p s) = inl refl
Move-IsAwake w h (fails p s) = evict-IsAwake p s w.backend h
Move-IsAwake w h (evicts_it s) = inl refl
Move-IsAwake w h constructs_it = inl refl
Move-IsAwake w h (sleeps e) =
    let (_, waits, slept) = fall_asleep-eq-some w.backend e in subst IsAwake slept (inr waits)
Move-IsAwake w h (drains_it sessions e) =
    let (woken, _, _, _, emptied) = drain-eq-some w.backend e in subst IsAwake emptied (inl woken)
Move-IsAwake w h (closes_one s sessions) = h
Move-IsAwake w h closes_all = inl refl

Call-IsAwake :
    (b : IsolatedBackend) {t : Task} {c : IsolatedBackend} → IsAwake b → Call b t c → IsAwake c
Call-IsAwake b h (shares p s e) = subst IsAwake (acquire-shared p s b e).1 (inr (ground arith))
Call-IsAwake b h (begins p e) =
    let (_, _, _, begun_it) = acquire-begun p b e in subst IsAwake begun_it (inr (ground arith))
Call-IsAwake b h (works e) = subst IsAwake (begin_work-eq-some b e).1 (inr (ground arith))
Call-IsAwake b h (shuts e) = subst IsAwake (begin_close-eq-some b e).1 h

-- Whatever makes the condition of the wait hold wakes the thread that waits.
pub Reach-IsAwake : {w : World} → Reach w → IsAwake w.backend
unfolding interrupt_close
Reach-IsAwake begin = inl refl
Reach-IsAwake (later before (discovers p none_yet is_up settled absent)) = Reach-IsAwake before
Reach-IsAwake (later {w} before (enters call)) = Call-IsAwake w.backend (Reach-IsAwake before) call
Reach-IsAwake (later {w} before (goes_on ahead behind same move)) =
    Move-IsAwake w (Reach-IsAwake before) move
Reach-IsAwake (later before (interrupts ahead behind same)) = inl refl
