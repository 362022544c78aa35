-- ===== src/Backend/Starts.antt =====
-- packages/wmfs/wmfs/backends/isolated.py: the start of a session, up to where it is stored.
use wmfs.Common.{
  ℕ, ◌+◌, true, false, some, List, [], ◌∷◌, ◌++◌, ◌==◌, nat_eq, inl, inr, ◌≡◌, refl, ap, ◌∙◌, arith,
}
use mathlib.Core.Path.{subst}
use native.Mathlib.Decide.{dec_lt}
use wmfs.Common.Dict
use wmfs.Common.Dict.{Dict, get-put, get-remove}
use wmfs.Common.Utf8.{Text}
use wmfs.Common.Text.{text_eq}
use wmfs.Backend.{IsolatedBackend, without, install}
use wmfs.Backend.Steps.{Task, starts, started, discards, uses, World, moved}
use wmfs.Backend.Counts.{num, holds, total-part, num-beq}
use wmfs.Backend.Sound.{IsSound}
use wmfs.Backend.Results.{install-eq-some, put-beside, put-stored}
use wmfs.Backend.Moves.{
  move-IsKept, same-IsKept, busy-IsSound, not-IsQuiet-builds, is_being_started, done_creating,
  still_fresh,
}

-- A session that has been started is in the hands of its thread.
pub start_succeeds-IsSound :
    (w : World) (before after : List Task) (p : Text)
    → IsSound w
    → w.tasks ≡ before ++ starts p ∷ after
    → IsSound (moved before (started p w.count ∷ []) after w.backend (w.count + 1) w.ended)
start_succeeds-IsSound w before after p sound same =
    busy-IsSound w before after (starts p) (started p w.count ∷ []) sound same w.backend
      (w.count + 1) w.ended
      (not-IsQuiet-builds w before after (starts p) (started p w.count ∷ []) sound same p
        (omega (arith, num-beq p)))
      (omega arith) (λ q. omega arith) sound.fresh (omega arith) (omega arith) refl
      (λ s small. elim (dec_lt s w.count) [
        | yes old ↦
            same-IsKept w before after (starts p) (started p w.count ∷ []) sound same w.backend
              w.ended refl (λ k e. e) (λ k held. absurd (omega (arith, held))) s old
        | no last ↦
            let equal : (w.count == s) ≡ true = ground (arith, small, last) in
            inr (
              inr (
                omega (
                  arith,
                  ap num equal,
                  total-part (holds s) before (started p w.count ∷ []) after,
                )))
      ])

pub refuses-IsSound :
    (w : World) (before after : List Task) (p : Text) (s : ℕ)
    → IsSound w
    → w.tasks ≡ before ++ started p s ∷ after
    → IsSound (moved before (discards p s ∷ []) after w.backend w.count w.ended)
refuses-IsSound w before after p s sound same =
    busy-IsSound w before after (started p s) (discards p s ∷ []) sound same w.backend w.count
      w.ended
      (not-IsQuiet-builds w before after (started p s) (discards p s ∷ []) sound same p
        (omega (arith, num-beq p)))
      (omega arith) (λ q. omega arith) sound.fresh (omega arith) (omega arith) refl
      (same-IsKept w before after (started p s) (discards p s ∷ []) sound same w.backend w.ended
        refl (λ k e. e) (λ k held. inr (omega (arith, held))))

-- The session of a plugin is stored where there is none, so none is lost.
pub installs-IsSound :
    (w : World) (before after : List Task) (p : Text) (s : ℕ) {c : IsolatedBackend}
    → IsSound w
    → w.tasks ≡ before ++ started p s ∷ after
    → install p s w.backend ≡ some c
    → IsSound (moved before (uses p s ∷ []) after c w.count w.ended)
installs-IsSound w before after p s sound same h =
    let (_, stored) = install-eq-some p s w.backend h in
    let new = uses p s ∷ [] in
    let absent =
      sound.fresh p (
        is_being_started w before after (started p s) new sound same p
          (omega (arith, num-beq p))) in
    subst (λ c. IsSound (moved before new after c w.count w.ended)) stored
      (busy-IsSound w before after (started p s) new sound same stored_backend w.count w.ended
        (not-IsQuiet-builds w before after (started p s) new sound same p
          (omega (arith, num-beq p)))
        (omega arith)
        (λ q.
          omega (arith, done_creating w before after (started p s) new sound same p (λ r. refl) q))
        (λ q there.
          let (other, fresh) = still_fresh w before after (started p s) new sound same p q there in
          get-put p q s w.backend.sessions ∙ rw other fresh)
        (omega arith) (omega arith) refl
        (λ k small.
          move-IsKept w before after (started p s) new sound same stored_backend w.ended k (λ e. e)
            (λ q d. inl (q, put-beside p q s k w.backend.sessions absent d))
            (λ held. inr (inl (p, put-stored p s k w.backend.sessions held))) small))
  where
    stored_backend : IsolatedBackend
    stored_backend = record w.backend {
      sessions = Dict.put p s w.backend.sessions;
      creating = without p w.backend.creating;
      inflight = w.backend.inflight + 1;
      asleep = false;
    }
