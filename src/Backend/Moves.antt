-- ===== src/Backend/Moves.antt =====
-- packages/wmfs/wmfs/backends/isolated.py: what a thread has to show of its move.
use wmfs.Common.{
  ℕ, ◌+◌, ◌≤◌, ◌<◌, Bool, true, false, not, none, some, List, [], ◌∷◌, ◌++◌, nat_eq, both,
  Bool-cases, ◌⊎◌, inl, inr, ◌≡◌, refl, sym, ap, ◌∙◌, arith,
}
use mathlib.Core.Path.{subst}
use wmfs.Common.Dict
use wmfs.Common.Dict.{Dict, get-put, get-remove}
use wmfs.Common.Utf8.{Text}
use wmfs.Common.Text.{text_eq}
use wmfs.Backend.{IsolatedBackend, is_creating, without, finish_creating, finish_work}
use wmfs.Backend.Steps.{Task, World, moved}
use wmfs.Backend.Counts.{
  num, total, flying, builds, in_close, shutting, holds, total-swap, total-part, num-beq,
  is_creating-without,
}
use wmfs.Backend.Sound.{at_closing, IsQuiet, IsLate, IsKept, IsSound, swap-IsKept, step-IsSound}

pub num-positive : (b : Bool) → 0 < num b → b ≡ true
num-positive true h = refl
num-positive false h = absurd (omega (arith, h))

-- A thread with its task among the others, and what follows it.
module _ (w : World) (before after : List Task) (old : Task) (new : List Task) (sound : IsSound w)
    (same : w.tasks ≡ before ++ old ∷ after) where
  -- A task is counted among the tasks.
  pub old-le : (f : Task → ℕ) → f old ≤ total f w.tasks
  old-le f = omega (arith, ap (total f) same, total-part f before (old ∷ []) after)

  -- A session that is stored or closed stays so, and what the thread has had is kept.
  pub move-IsKept :
      (b : IsolatedBackend) (now : ℕ → Bool) (s : ℕ)
      → (w.ended s ≡ true → now s ≡ true)
      → ((p : Text)
          → Dict.get p w.backend.sessions ≡ some s
          → ((q : Text) × (Dict.get q b.sessions ≡ some s)) ⊎ (0 < total (holds s) new))
      → (0 < holds s old
          → (now s ≡ true)
            ⊎ (((q : Text) × (Dict.get q b.sessions ≡ some s)) ⊎ (0 < total (holds s) new)))
      → s < w.count
      → IsKept s b (before ++ (new ++ after)) now
  move-IsKept b now s e d h small =
      swap-IsKept s w.backend b before (old ∷ []) new after w.ended now e d
        (λ held. h (omega (arith, held)))
        (subst (λ ts. IsKept s w.backend ts w.ended) same (sound.kept s small))

  -- The same where the table stays as it is.
  pub same-IsKept :
      (b : IsolatedBackend) (now : ℕ → Bool)
      → w.backend.sessions ≡ b.sessions
      → ((s : ℕ) → w.ended s ≡ true → now s ≡ true)
      → ((s : ℕ) → 0 < holds s old → (now s ≡ true) ⊎ (0 < total (holds s) new))
      → (s : ℕ) → s < w.count
      → IsKept s b (before ++ (new ++ after)) now
  same-IsKept b now stored e h s small =
      move-IsKept b now s (e s) (λ p d. inl (p, ap (Dict.get p) (sym stored) ∙ d))
        (λ held. elim (h s held) [ inl closed ↦ inl closed | inr by_new ↦ inr (inr by_new) ]) small

  -- A thread whose task keeps `close` waiting moves on.
  pub busy-IsSound :
      (b : IsolatedBackend) (n : ℕ) (now : ℕ → Bool)
      → (IsQuiet w.backend → ⊥)
      → b.inflight + flying old ≡ w.backend.inflight + total flying new
      → ((p : Text)
          → num (is_creating p b.creating) + builds p old
            ≡ num (is_creating p w.backend.creating) + total (builds p) new)
      → ((p : Text) → is_creating p b.creating ≡ true → Dict.get p b.sessions ≡ none)
      → in_close old ≡ total in_close new
      → shutting old ≡ total shutting new
      → w.backend.state ≡ b.state
      → ((s : ℕ) → s < n → IsKept s b (before ++ (new ++ after)) now)
      → IsSound (moved before new after b n now)
  busy-IsSound b n now busy flies builds_same fresh closes_same shuts_same state_same kept =
      step-IsSound w b before (old ∷ []) new after n now sound same (omega (arith, flies))
        (λ p. omega (arith, builds_same p)) fresh
        (omega (arith, closes_same, ap at_closing state_same))
        (λ late. absurd (busy (sound.quiet (was_late late)))) kept
    where
      was_late : IsLate b (before ++ (new ++ after)) → IsLate w.backend w.tasks
      was_late (inl some_shut) = inl (
          omega (
            arith,
            some_shut,
            shuts_same,
            ap (total shutting) same,
            total-swap shutting before (old ∷ []) new after,
          ))
      was_late (inr closed) = inr (state_same ∙ closed)

  pub not-IsQuiet-flying : 0 < flying old → IsQuiet w.backend → ⊥
  not-IsQuiet-flying busy (idle, _, _) = omega (arith, idle, busy, sound.counted, old-le flying)

  pub not-IsQuiet-builds : (p : Text) → 0 < builds p old → IsQuiet w.backend → ⊥
  unfolding is_creating
  not-IsQuiet-builds p busy (_, settled, _) =
      omega
        (arith, busy, ap (λ c. num (is_creating p c)) settled, sound.building p, old-le (builds p))

  pub is_being_started : (p : Text) → 0 < builds p old → is_creating p w.backend.creating ≡ true
  is_being_started p busy =
      num-positive _ (omega (arith, busy, sound.building p, old-le (builds p)))

  -- The end of the start of a session, by the only thread that starts one of the plugin.
  pub done_creating :
      (p : Text)
      → ((q : Text) → builds q old ≡ num (text_eq.beq q p))
      → (q : Text)
      → num (is_creating q (without p w.backend.creating)) + builds q old
        ≡ num (is_creating q w.backend.creating)
  done_creating p one q = elim (Bool-cases (text_eq.beq q p)) [
    | inl equal ↦
        let there = is_being_started q (omega (arith, one q, ap num equal)) in
        let turned : text_eq.beq p q ≡ true =
          (text_eq.beq_iff p q).1 (sym ((text_eq.beq_iff q p).0 equal)) in
        rw (is_creating-without p q w.backend.creating, one q, equal, turned, there) refl
    | inr other ↦
        let turned : text_eq.beq p q ≡ false =
          ground (arith, text_eq.beq_iff p q, text_eq.beq_iff q p, other) in
        rw (is_creating-without p q w.backend.creating, one q, other, turned) (omega arith)
  ]

  pub still_fresh :
      (p q : Text)
      → is_creating q (without p w.backend.creating) ≡ true
      → (text_eq.beq p q ≡ false) × (Dict.get q w.backend.sessions ≡ none)
  still_fresh p q there =
      let (other, still) =
        both (not (text_eq.beq p q)) (is_creating q w.backend.creating)
          (sym (is_creating-without p q w.backend.creating) ∙ there) in
      (ground (arith, other), sound.fresh q still)

  -- A call that counts as in flight ends, and no session is closed but the one that it has.
  pub finishes :
      (now : ℕ → Bool)
      → new ≡ []
      → flying old ≡ 1
      → ((p : Text) → builds p old ≡ 0)
      → in_close old ≡ 0
      → shutting old ≡ 0
      → ((s : ℕ) → w.ended s ≡ true → now s ≡ true)
      → ((s : ℕ) → 0 < holds s old → now s ≡ true)
      → IsSound (moved before new after (finish_work w.backend) w.count now)
  unfolding finish_work
  finishes now gone flies none_built none_closes none_shuts e h =
      busy-IsSound (finish_work w.backend) w.count now (not-IsQuiet-flying (omega (arith, flies)))
        (omega (arith, flies, sound.counted, old-le flying, ap (total flying) gone))
        (λ p. omega (arith, none_built p, ap (total (builds p)) gone)) sound.fresh
        (omega (arith, none_closes, ap (total in_close) gone))
        (omega (arith, none_shuts, ap (total shutting) gone)) refl
        (same-IsKept (finish_work w.backend) now refl e (λ s held. inl (h s held)))

  -- The start of a session comes to an end without a session that is stored.
  pub gives_up :
      (now : ℕ → Bool) (p : Text)
      → new ≡ []
      → ((q : Text) → builds q old ≡ num (text_eq.beq q p))
      → flying old ≡ 0
      → in_close old ≡ 0
      → shutting old ≡ 0
      → ((s : ℕ) → w.ended s ≡ true → now s ≡ true)
      → ((s : ℕ) → 0 < holds s old → now s ≡ true)
      → IsSound (moved before new after (finish_creating p w.backend) w.count now)
  unfolding finish_creating
  gives_up now p gone one none_flies none_closes none_shuts e h =
      busy-IsSound (finish_creating p w.backend) w.count now
        (not-IsQuiet-builds p (omega (arith, one p, num-beq p)))
        (omega (arith, none_flies, ap (total flying) gone))
        (λ q. omega (arith, done_creating p one q, ap (total (builds q)) gone))
        (λ q there. (still_fresh p q there).1)
        (omega (arith, none_closes, ap (total in_close) gone))
        (omega (arith, none_shuts, ap (total shutting) gone)) refl
        (same-IsKept (finish_creating p w.backend) now refl e (λ s held. inl (h s held)))
