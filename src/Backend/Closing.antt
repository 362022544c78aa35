-- ===== src/Backend/Closing.antt =====
-- packages/wmfs/wmfs/backends/isolated.py: a thread that evicts a session, and the thread in `close`.
use wmfs.Common.{
  ℕ, ◌+◌, ◌≤◌, ◌<◌, Bool, true, false, Option, none, some, List, [], ◌∷◌, ◌++◌, ◌==◌, nat_eq, any,
  if◌then◌else◌, Bool-cases, ◌⊎◌, inl, inr, ◌≡◌, refl, ap, ◌∙◌, arith,
}
use mathlib.Core.Path.{subst}
use wmfs.Common.Dict
use wmfs.Common.Dict.{Dict, get-put, get-remove}
use wmfs.Common.Utf8.{Text}
use wmfs.Common.Text.{text_eq}
use wmfs.Backend.{
  BackendState, is_open, is_closing, is_closed, IsolatedBackend, is_creating, is_session, evict,
  drain, finish_close,
}
use wmfs.Backend.Steps.{Task, uses, evicts, drains, closes, World, and_ended, moved}
use wmfs.Backend.Counts.{num, total, flying, builds, in_close, shutting, holds, get-values}
use wmfs.Backend.Sound.{at_closing, IsQuiet, IsSound, step-IsSound}
use wmfs.Backend.Results.{drain-eq-some}
use wmfs.Backend.Moves.{old-le, move-IsKept, same-IsKept, busy-IsSound, not-IsQuiet-flying}

pub and_ended-old : (s k : ℕ) (ended : ℕ → Bool) → ended k ≡ true → and_ended s ended k ≡ true
and_ended-old s k ended e = ground (arith, e)

pub and_ended-new : (s k : ℕ) (ended : ℕ → Bool) → 0 < num (s == k) → and_ended s ended k ≡ true
and_ended-new s k ended held = ground (arith, held)

either-none : (b : Bool) {o : Option ℕ} → o ≡ none → (if b then none else o) ≡ none
either-none true h = refl
either-none false h = h

-- A session whose transport has failed is taken out of the table, where it is still there, and is in
-- the hands of the thread that closes it.
module _ (w : World) (before after : List Task) (p : Text) (s : ℕ) (sound : IsSound w)
    (same : w.tasks ≡ before ++ uses p s ∷ after) where
  failed :
      (c : IsolatedBackend)
      → w.backend.inflight ≡ c.inflight
      → w.backend.creating ≡ c.creating
      → w.backend.state ≡ c.state
      → ((q : Text) → is_creating q w.backend.creating ≡ true → Dict.get q c.sessions ≡ none)
      → ((k : ℕ) (q : Text)
          → Dict.get q w.backend.sessions ≡ some k
          → ((r : Text) × (Dict.get r c.sessions ≡ some k)) ⊎ (0 < num (s == k) + 0))
      → IsSound (moved before (evicts s ∷ []) after c w.count w.ended)
  failed c flies building state fresh stays =
      busy-IsSound w before after (uses p s) (evicts s ∷ []) sound same c w.count w.ended
        (not-IsQuiet-flying w before after (uses p s) (evicts s ∷ []) sound same (omega arith))
        (omega (arith, flies)) (λ q. omega (arith, ap (λ b. num (is_creating q b)) building))
        (λ q there. fresh q (ap (is_creating q) building ∙ there)) (omega arith) (omega arith) state
        (λ k small.
          move-IsKept w before after (uses p s) (evicts s ∷ []) sound same c w.ended k (λ e. e)
            (stays k) (λ held. absurd (omega (arith, held))) small)

  stays :
      (k : ℕ) (q : Text)
      → is_session (Dict.get p w.backend.sessions) s ≡ true
      → Dict.get q w.backend.sessions ≡ some k
      → ((r : Text) × (Dict.get r (Dict.remove p w.backend.sessions) ≡ some k))
        ⊎ (0 < num (s == k) + 0)
  stays k q its_own d = elim (Bool-cases (text_eq.beq p q)) [
    | inl equal ↦
        let found : Dict.get p w.backend.sessions ≡ some k =
          ap (λ r. Dict.get r w.backend.sessions) ((text_eq.beq_iff p q).0 equal) ∙ d in
        let mine : (k == s) ≡ true = rw found at its_own in
        let turned : (s == k) ≡ true = ground (arith, mine) in inr (omega (arith, ap num turned))
    | inr other ↦ inl (q, get-remove p q w.backend.sessions ∙ rw other d)
  ]

  pub fails-IsSound :
      IsSound (moved before (evicts s ∷ []) after (evict p s w.backend) w.count w.ended)
  unfolding evict
  fails-IsSound = elim (Bool-cases (is_session (Dict.get p w.backend.sessions) s)) [
    | inr other ↦
        let unchanged : w.backend ≡ evict p s w.backend = rw other refl in
        subst (λ c. IsSound (moved before (evicts s ∷ []) after c w.count w.ended)) unchanged
          (failed w.backend refl refl refl sound.fresh (λ k q d. inl (q, d)))
    | inl its_own ↦
        let removed : record w.backend {
          sessions = Dict.remove p w.backend.sessions;
          asleep = false;
        }
            ≡ evict p s w.backend =
          rw its_own refl in
        subst (λ c. IsSound (moved before (evicts s ∷ []) after c w.count w.ended)) removed
          (failed (record w.backend { sessions = Dict.remove p w.backend.sessions; asleep = false })
            refl refl refl
            (λ q there.
              get-remove p q w.backend.sessions
              ∙ either-none (text_eq.beq p q) (sound.fresh q there))
            (λ k q d. stays k q its_own d))
  ]

-- The wait of `close` ends: nothing is in flight, no session is being started, and the sessions are in
-- the hands of the thread that closes them.
pub drains_it-IsSound :
    (w : World) (before after : List Task) (sessions : List ℕ) {c : IsolatedBackend}
    → IsSound w
    → w.tasks ≡ before ++ drains ∷ after
    → drain w.backend ≡ some (sessions, c)
    → IsSound (moved before (closes sessions ∷ []) after c w.count w.ended)
unfolding Dict.get
drains_it-IsSound w before after sessions sound same h =
    let (_, idle, settled, all, emptied) = drain-eq-some w.backend h in
    subst (λ c. IsSound (moved before (closes sessions ∷ []) after c w.count w.ended)) emptied
      (step-IsSound w (record w.backend { sessions = [] }) before (drains ∷ [])
        (closes sessions ∷ []) after w.count w.ended sound same (omega arith) (λ q. omega arith)
        (λ q there. refl) (omega arith) (λ late. (idle, settled, refl))
        (λ k small.
          move-IsKept w before after drains (closes sessions ∷ []) sound same
            (record w.backend { sessions = [] }) w.ended k (λ e. e)
            (λ q d. inr (
              omega (
                arith,
                ap (λ ss. num (any (λ j. j == k) ss)) all,
                ap num (get-values q k w.backend.sessions d),
              )))
            (λ held. absurd (omega (arith, held))) small))

-- While `close` closes the sessions, the backend is quiet.
module _ (w : World) (before after : List Task) (sessions : List ℕ) (sound : IsSound w)
    (same : w.tasks ≡ before ++ closes sessions ∷ after) where
  shut-IsQuiet : IsQuiet w.backend
  shut-IsQuiet =
      sound.quiet
        (inl (omega (arith, old-le w before after (closes sessions) [] sound same shutting)))

  -- A session of those is closed, or all are.
  closes-IsSound :
      (new : List Task) (state : BackendState) (asleep : Bool) (now : ℕ → Bool)
      → total flying new ≡ 0
      → ((p : Text) → total (builds p) new ≡ 0)
      → at_closing state + 1 ≡ at_closing w.backend.state + total in_close new
      → ((k : ℕ) → w.ended k ≡ true → now k ≡ true)
      → ((k : ℕ)
          → 0 < num (any (λ j. j == k) sessions)
          → (now k ≡ true) ⊎ (0 < total (holds k) new))
      → IsSound
          (moved before new after (record w.backend { state = state; asleep = asleep }) w.count now)
  closes-IsSound new state asleep now flies none_built closes_same e h =
      let b : IsolatedBackend = record w.backend { state = state; asleep = asleep } in
      step-IsSound w b before (closes sessions ∷ []) new after w.count now sound same
        (omega (arith, flies)) (λ p. omega (arith, none_built p)) sound.fresh
        (omega (arith, closes_same)) (λ late. shut-IsQuiet)
        (same-IsKept w before after (closes sessions) new sound same b now refl e h)

  pub closes_all-IsSound :
      sessions ≡ [] → IsSound (moved before [] after (finish_close w.backend) w.count w.ended)
  unfolding finish_close
  closes_all-IsSound all =
      closes-IsSound [] is_closed false w.ended refl (λ p. refl)
        (omega (
          arith,
          sound.closer,
          at_closing-le w.backend.state,
          old-le w before after (closes sessions) [] sound same in_close,
        ))
        (λ k e. e)
        (λ k held. absurd (omega (arith, held, ap (λ ss. num (any (λ j. j == k) ss)) all)))
    where
      at_closing-le : (state : BackendState) → at_closing state ≤ 1
      at_closing-le is_open = omega arith
      at_closing-le is_closing = omega arith
      at_closing-le is_closed = omega arith

pub closes_one-IsSound :
    (w : World) (before after : List Task) (s : ℕ) (sessions : List ℕ)
    → IsSound w
    → w.tasks ≡ before ++ closes (s ∷ sessions) ∷ after
    → IsSound (moved before (closes sessions ∷ []) after w.backend w.count (and_ended s w.ended))
closes_one-IsSound w before after s sessions sound same =
    closes-IsSound w before after (s ∷ sessions) sound same (closes sessions ∷ []) w.backend.state
      w.backend.asleep (and_ended s w.ended) refl (λ p. refl) refl
      (λ k e. and_ended-old s k w.ended e)
      (λ k held. elim (Bool-cases (s == k)) [
        | inl equal ↦ inl (rw equal refl)
        | inr other ↦ inr (omega (arith, rw other at held))
      ])
