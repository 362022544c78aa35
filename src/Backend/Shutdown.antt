-- ===== src/Backend/Shutdown.antt =====
-- packages/wmfs/wmfs/backends/isolated.py: what holds of the sessions in every order of the calls, and
-- what `close` has done when it ends.
use wmfs.Common.{
  ℕ, ◌+◌, ◌<◌, Bool, true, false, Option, none, some, List, [], ◌∷◌, ◌++◌, ◌==◌, nat_eq, Bool-cases,
  ◌⊎◌, inl, inr, ◌≡◌, refl, sym, ap, ◌∙◌, arith,
}
use native.Mathlib.Decide.{dec_lt}
use wmfs.Common.Dict
use wmfs.Common.Dict.{Dict, get-put, get-remove}
use wmfs.Common.Utf8.{Text}
use wmfs.Common.Text.{text_eq}
use wmfs.Backend.{is_open, is_closed, IsolatedBackend, is_creating, is_drained}
use wmfs.Backend.Steps.{
  Task, starts, discards, uses, constructs, evicts, World, and_ended, moved, Move, start_fails,
  start_succeeds, installs, refuses, discards_it, returns, fails, evicts_it, constructs_it, sleeps,
  drains_it, closes_one, closes_all, Step, discovers, enters, goes_on, interrupts, Reach, begin,
  later, start,
}
use wmfs.Backend.Counts.{num, total, flying, builds, shutting, total-holds}
use wmfs.Backend.Sound.{at_closing, IsLate, IsSound, step-IsSound, swap-IsKept}
use wmfs.Backend.Results.{put-beside, put-stored}
use wmfs.Backend.Moves.{finishes, gives_up}
use wmfs.Backend.Calls.{Call-IsSound}
use wmfs.Backend.Starts.{start_succeeds-IsSound, refuses-IsSound, installs-IsSound}
use wmfs.Backend.Waits.{sleeps-IsSound, interrupts-IsSound}
use wmfs.Backend.Closing.{
  and_ended-old, and_ended-new, fails-IsSound, drains_it-IsSound, closes_one-IsSound,
  closes_all-IsSound,
}

start-IsSound : IsSound start
unfolding is_creating
start-IsSound = record {
  counted = refl;
  building = λ p. refl;
  fresh = λ p there. absurd (cc there);
  closer = omega arith;
  quiet = λ late. (refl, refl, refl);
  kept = λ s small. absurd (omega (arith, small));
}

discovers-IsSound :
    (w : World) (p : Text)
    → IsSound w
    → w.tasks ≡ []
    → w.backend.state ≡ is_open
    → Dict.get p w.backend.sessions ≡ none
    → w.backend.creating ≡ []
    → IsSound (record w {
      backend = record w.backend { sessions = Dict.put p w.count w.backend.sessions };
      count = w.count + 1;
    })
unfolding is_creating
discovers-IsSound w p sound none_yet is_up absent settled =
    step-IsSound w (record w.backend { sessions = Dict.put p w.count w.backend.sessions }) [] [] []
      w.tasks (w.count + 1) w.ended sound refl (omega arith) (λ q. omega arith)
      (λ q there. absurd (nobody q (ap (is_creating q) (sym settled) ∙ there))) (omega arith)
      (λ late. absurd (early late))
      (λ s small. elim (dec_lt s w.count) [
        | yes old ↦
            swap-IsKept s w.backend
              (record w.backend { sessions = Dict.put p w.count w.backend.sessions }) [] [] []
              w.tasks w.ended w.ended (λ e. e)
              (λ q d. inl (q, put-beside p q w.count s w.backend.sessions absent d))
              (λ held. absurd (omega (arith, held))) (sound.kept s old)
        | no last ↦
            let equal : (w.count == s) ≡ true = ground (arith, small, last) in
            inr (inl (p, put-stored p w.count s w.backend.sessions (omega (arith, ap num equal))))
      ])
  where
    nobody : (q : Text) → is_creating q [] ≡ true → ⊥
    nobody q there = cc there

    early : IsLate w.backend w.tasks → ⊥
    early (inl some_shut) = omega (arith, some_shut, ap (total shutting) none_yet)
    early (inr closed) = opened_closed (sym is_up ∙ closed)
      where
        opened_closed : is_open ≡ is_closed → ⊥
        opened_closed e = cc e

Move-IsSound :
    (w : World) (before after : List Task) {old : Task} {new : List Task} {c : IsolatedBackend}
    {n : ℕ} {now : ℕ → Bool}
    → IsSound w
    → w.tasks ≡ before ++ old ∷ after
    → Move w old new c n now
    → IsSound (moved before new after c n now)
Move-IsSound w before after sound same (start_fails p) =
    gives_up w before after (starts p) [] sound same w.ended p refl (λ q. refl) refl refl refl
      (λ k e. e) (λ k held. absurd (omega (arith, held)))
Move-IsSound w before after sound same (discards_it p s) =
    gives_up w before after (discards p s) [] sound same (and_ended s w.ended) p refl (λ q. refl)
      refl refl refl (λ k e. and_ended-old s k w.ended e) (λ k held. and_ended-new s k w.ended held)
Move-IsSound w before after sound same (returns p s) =
    finishes w before after (uses p s) [] sound same w.ended refl refl (λ q. refl) refl refl
      (λ k e. e) (λ k held. absurd (omega (arith, held)))
Move-IsSound w before after sound same constructs_it =
    finishes w before after constructs [] sound same w.ended refl refl (λ q. refl) refl refl
      (λ k e. e) (λ k held. absurd (omega (arith, held)))
Move-IsSound w before after sound same (evicts_it s) =
    finishes w before after (evicts s) [] sound same (and_ended s w.ended) refl refl (λ q. refl)
      refl refl (λ k e. and_ended-old s k w.ended e) (λ k held. and_ended-new s k w.ended held)
Move-IsSound w before after sound same (start_succeeds p) =
    start_succeeds-IsSound w before after p sound same
Move-IsSound w before after sound same (installs p s h) =
    installs-IsSound w before after p s sound same h
Move-IsSound w before after sound same (refuses p s h) =
    refuses-IsSound w before after p s sound same
Move-IsSound w before after sound same (fails p s) = fails-IsSound w before after p s sound same
Move-IsSound w before after sound same (sleeps h) = sleeps-IsSound w before after sound same h
Move-IsSound w before after sound same (drains_it sessions h) =
    drains_it-IsSound w before after sessions sound same h
Move-IsSound w before after sound same (closes_one s sessions) =
    closes_one-IsSound w before after s sessions sound same
Move-IsSound w before after sound same closes_all =
    closes_all-IsSound w before after [] sound same refl

Step-IsSound : {w v : World} → Step w v → IsSound w → IsSound v
Step-IsSound {w} (discovers p none_yet is_up settled absent) sound =
    discovers-IsSound w p sound none_yet is_up absent settled
Step-IsSound {w} (enters call) sound = Call-IsSound w sound call
Step-IsSound {w} (goes_on before after same move) sound =
    Move-IsSound w before after sound same move
Step-IsSound {w} (interrupts before after same) sound = interrupts-IsSound w before after sound same

pub Reach-IsSound : {w : World} → Reach w → IsSound w
Reach-IsSound begin = start-IsSound
Reach-IsSound (later before step) = Step-IsSound step (Reach-IsSound before)

-- In every state that the calls of any threads reach in which the backend is closed, no call is in
-- flight, no session is being started, none is stored, and each session that has ever been started has
-- been closed.
pub Reach-closed :
    {w : World}
    → Reach w
    → w.backend.state ≡ is_closed
    → (w.backend.inflight ≡ 0)
      × (w.backend.creating ≡ [])
      × (w.backend.sessions ≡ [])
      × ((s : ℕ) → s < w.count → w.ended s ≡ true)
unfolding is_creating Dict.get
Reach-closed {w} reached is_down =
    let sound = Reach-IsSound reached in
    let (idle, settled, emptied) = sound.quiet (inr is_down) in
    let none_held = λ (s : ℕ).
      total-holds s w.tasks (sym sound.counted ∙ idle)
        (λ p. sym (sound.building p) ∙ ap (λ c. num (is_creating p c)) settled)
        (omega (arith, sound.closer, ap at_closing is_down)) in
    (
      idle,
      settled,
      emptied,
      λ s small. elim (sound.kept s small) [
        | inl closed ↦ closed
        | inr (inl (p, stored)) ↦ absurd (not_stored (sym (ap (Dict.get p) emptied) ∙ stored))
        | inr (inr held) ↦ absurd (omega (arith, held, none_held s))
      ],
    )
  where
    not_stored : {s : ℕ} → ◌≡◌ {A = Option ℕ} none (some s) → ⊥
    not_stored e = cc e

-- In every state that the calls of any threads reach, no thread starts a session of a plugin, or one
-- does and none of the plugin is stored; and close is not at closing the sessions, or no thread uses
-- or starts one.
pub Reach-alone :
    {w : World}
    → Reach w
    → ((p : Text)
        → (total (builds p) w.tasks ≡ 0)
          ⊎ ((total (builds p) w.tasks ≡ 1) × (Dict.get p w.backend.sessions ≡ none)))
      × ((total shutting w.tasks ≡ 0)
          ⊎ ((total flying w.tasks ≡ 0) × ((p : Text) → total (builds p) w.tasks ≡ 0)))
unfolding is_creating
Reach-alone {w} reached = (builders, shutter (dec_lt 0 (total shutting w.tasks)))
  where
    sound : IsSound w
    sound = Reach-IsSound reached

    builders :
        (p : Text)
        → (total (builds p) w.tasks ≡ 0)
          ⊎ ((total (builds p) w.tasks ≡ 1) × (Dict.get p w.backend.sessions ≡ none))
    builders p = elim (Bool-cases (is_creating p w.backend.creating)) [
      | inl there ↦ inr (sym (sound.building p) ∙ ap num there, sound.fresh p there)
      | inr absent ↦ inl (sym (sound.building p) ∙ ap num absent)
    ]

    shutter :
        Dec (0 < total shutting w.tasks)
        → (total shutting w.tasks ≡ 0)
          ⊎ ((total flying w.tasks ≡ 0) × ((p : Text) → total (builds p) w.tasks ≡ 0))
    shutter (no none_shut) = inl (omega (arith, none_shut))
    shutter (yes some_shut) =
        let (idle, settled, _) = sound.quiet (inl some_shut) in
        inr (
          sym sound.counted ∙ idle,
          λ p. sym (sound.building p) ∙ ap (λ c. num (is_creating p c)) settled,
        )

-- In every state that the calls of any threads reach, the condition of the wait of close fails only
-- while a call is in flight or a thread starts a session.
pub Reach-drains :
    {w : World}
    → Reach w
    → is_drained w.backend ≡ false
    → (0 < total flying w.tasks) ⊎ ((p : Text) × (0 < total (builds p) w.tasks))
unfolding is_creating
Reach-drains {w} reached waiting = waits_for w.backend.creating refl
  where
    waits_for :
        (creating : List Text)
        → w.backend.creating ≡ creating
        → (0 < total flying w.tasks) ⊎ ((p : Text) × (0 < total (builds p) w.tasks))
    waits_for (p ∷ creating) e =
        let there : is_creating p w.backend.creating ≡ true =
          ap (is_creating p) e ∙ rw (Dict.beq_refl p) refl in
        inr (p, omega (arith, (Reach-IsSound reached).building p, ap num there))
    waits_for [] e = elim (Bool-cases (w.backend.inflight == 0)) [
      | inl idle ↦ absurd (ended (rw (idle, e) at waiting))
      | inr busy ↦
          let some_work : 0 < w.backend.inflight = ground (arith, busy) in
          inl (omega (arith, some_work, (Reach-IsSound reached).counted))
    ]
      where
        ended : true ≡ false → ⊥
        ended e = cc e
