-- ===== src/Backend/Sound.antt =====
-- packages/wmfs/wmfs/backends/isolated.py: what every order of the calls keeps, and how a step of
-- one thread keeps it.
use wmfs.Common.{
  ℕ, ◌+◌, ◌≤◌, ◌<◌, Bool, true, none, some, List, [], ◌++◌, nat_eq, ◌⊎◌, inl, inr, ◌≡◌, ap, arith,
}
use native.Mathlib.Decide.{dec_lt}
use wmfs.Common.Dict
use wmfs.Common.Dict.{Dict, get-put, get-remove}
use wmfs.Common.Utf8.{Text}
use wmfs.Common.Text.{text_eq}
use wmfs.Backend.{BackendState, is_open, is_closing, is_closed, IsolatedBackend, is_creating}
use wmfs.Backend.Steps.{Task, World, moved}
use wmfs.Backend.Counts.{
  num, total, flying, builds, in_close, shutting, holds, total-swap, total-part,
}

abbrev pub at_closing : BackendState → ℕ
at_closing is_open = 0
at_closing is_closing = 1
at_closing is_closed = 0

abbrev pub IsQuiet : IsolatedBackend → Type 0
IsQuiet b = (b.inflight ≡ 0) × (b.creating ≡ []) × (b.sessions ≡ [])

-- `close` is past its wait.
abbrev pub IsLate : IsolatedBackend → List Task → Type 0
IsLate b tasks = (0 < total shutting tasks) ⊎ (b.state ≡ is_closed)

-- A session is closed, or it is stored, or a thread has it that will close or store it.
abbrev pub IsKept : ℕ → IsolatedBackend → List Task → (ℕ → Bool) → Type 0
IsKept s b tasks ended =
    (ended s ≡ true)
    ⊎ (((p : Text) × (Dict.get p b.sessions ≡ some s)) ⊎ (0 < total (holds s) tasks))

pub record IsSound (w : World) : Type 0 where
  pub counted : w.backend.inflight ≡ total flying w.tasks
  pub building : (p : Text) → num (is_creating p w.backend.creating) ≡ total (builds p) w.tasks
  pub fresh :
      (p : Text) → is_creating p w.backend.creating ≡ true → Dict.get p w.backend.sessions ≡ none
  pub closer : total in_close w.tasks ≤ at_closing w.backend.state
  pub quiet : IsLate w.backend w.tasks → IsQuiet w.backend
  pub kept : (s : ℕ) → s < w.count → IsKept s w.backend w.tasks w.ended

-- A session that was kept is kept after a thread has gone on.
pub swap-IsKept :
    (s : ℕ) (b c : IsolatedBackend) (before old new after : List Task) (ended now : ℕ → Bool)
    → (ended s ≡ true → now s ≡ true)
    → ((p : Text)
        → Dict.get p b.sessions ≡ some s
        → ((q : Text) × (Dict.get q c.sessions ≡ some s)) ⊎ (0 < total (holds s) new))
    → (0 < total (holds s) old
        → (now s ≡ true)
          ⊎ (((q : Text) × (Dict.get q c.sessions ≡ some s)) ⊎ (0 < total (holds s) new)))
    → IsKept s b (before ++ (old ++ after)) ended
    → IsKept s c (before ++ (new ++ after)) now
swap-IsKept s b c before old new after ended now e d h kept = elim kept [
  | inl closed ↦ inl (e closed)
  | inr (inl (p, stored)) ↦ elim (d p stored) [
    | inl still ↦ inr (inl still)
    | inr held ↦ inr (inr (among held))
  ]
  | inr (inr held) ↦ elim (by_whom held) [
    | inl by_old ↦ elim (h by_old) [
      | inl closed ↦ inl closed
      | inr (inl still) ↦ inr (inl still)
      | inr (inr by_new) ↦ inr (inr (among by_new))
    ]
    | inr by_others ↦ inr (inr by_others)
  ]
]
  where
    among : 0 < total (holds s) new → 0 < total (holds s) (before ++ (new ++ after))
    among held = omega (arith, held, total-part (holds s) before new after)

    by_whom :
        0 < total (holds s) (before ++ (old ++ after))
        → (0 < total (holds s) old) ⊎ (0 < total (holds s) (before ++ (new ++ after)))
    by_whom held = elim (dec_lt 0 (total (holds s) old)) [
      | yes by_old ↦ inl by_old
      | no none_old ↦ inr (omega (arith, held, none_old, total-swap (holds s) before old new after))
    ]

-- What a thread's step has to show of itself; the other threads stay as they are.
pub step-IsSound :
    (w : World) (b : IsolatedBackend) (before old new after : List Task) (n : ℕ) (now : ℕ → Bool)
    → IsSound w
    → w.tasks ≡ before ++ (old ++ after)
    → b.inflight + total flying old ≡ w.backend.inflight + total flying new
    → ((p : Text)
        → num (is_creating p b.creating) + total (builds p) old
          ≡ num (is_creating p w.backend.creating) + total (builds p) new)
    → ((p : Text) → is_creating p b.creating ≡ true → Dict.get p b.sessions ≡ none)
    → at_closing w.backend.state + total in_close new ≤ at_closing b.state + total in_close old
    → (IsLate b (before ++ (new ++ after)) → IsQuiet b)
    → ((s : ℕ) → s < n → IsKept s b (before ++ (new ++ after)) now)
    → IsSound (moved before new after b n now)
step-IsSound w b before old new after n now sound same flies builds_same fresh closes_same quiet
      kept =
    record {
      counted =
          let swap = total-swap flying before old new after in
          omega (arith, swap, flies, sound.counted, ap (total flying) same);
      building = λ p.
          let swap = total-swap (builds p) before old new after in
          omega (arith, swap, builds_same p, sound.building p, ap (total (builds p)) same);
      fresh = fresh;
      closer =
          let swap = total-swap in_close before old new after in
          omega (arith, swap, closes_same, sound.closer, ap (total in_close) same);
      quiet = quiet;
      kept = kept;
    }
