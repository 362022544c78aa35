-- ===== src/Backend/Steps.antt =====
-- packages/wmfs/wmfs/backends/isolated.py: the calls of any threads on one backend, in any order.
use wmfs.Common.{ℕ, ◌+◌, Bool, false, ◌||◌, some, none, List, [], ◌∷◌, ◌++◌, ◌==◌, ◌≡◌}
use wmfs.Common.Dict
use wmfs.Common.Utf8.{Text}
use wmfs.Common.Text.{text_eq}
use wmfs.Backend.{
  IsolatedBackend, is_open, new_backend, shared, begun, acquire, install, finish_creating,
  begin_work, finish_work, evict, begin_close, fall_asleep, drain, interrupt_close, finish_close,
}

-- What a thread is at between two holds of the lock: it starts a session, has started it, closes it
-- again since the backend is not open; it uses a session, constructs a tensor, closes a session whose
-- transport has failed; or it is in `close`, before and after the wait.
pub data Task : Type 0 where
  starts : Text → Task
  started : Text → ℕ → Task
  discards : Text → ℕ → Task
  uses : Text → ℕ → Task
  constructs : Task
  evicts : ℕ → Task
  drains : Task
  closes : List ℕ → Task

-- Sessions are numbered from 0 in the order of their start; `ended` are those on which `close` has
-- been called and has returned or raised.
pub record World : Type 0 where
  pub backend : IsolatedBackend
  pub tasks : List Task
  pub count : ℕ
  pub ended : ℕ → Bool

abbrev pub start : World
start = record { backend = new_backend; tasks = []; count = 0; ended = λ s. false }

abbrev pub and_ended : ℕ → (ℕ → Bool) → ℕ → Bool
and_ended session ended s = session == s || ended s

-- The world when a thread among others has gone from its task to what follows, or to nothing.
abbrev pub moved : List Task → List Task → List Task → IsolatedBackend → ℕ → (ℕ → Bool) → World
moved before next after b n now = record {
  backend = b;
  tasks = before ++ (next ++ after);
  count = n;
  ended = now;
}

-- A call of the backend, by which a thread gets a task.
pub data Call (b : IsolatedBackend) : Task → IsolatedBackend → Type 0 where
  shares : (p : Text) (s : ℕ) {c : IsolatedBackend} → acquire p b ≡ shared s c → Call b (uses p s) c
  begins : (p : Text) {c : IsolatedBackend} → acquire p b ≡ begun c → Call b (starts p) c
  works : {c : IsolatedBackend} → begin_work b ≡ some c → Call b constructs c
  shuts : {c : IsolatedBackend} → begin_close b ≡ some c → Call b drains c

-- What a thread does next: its task and what follows it, the backend, the number of sessions and those
-- that are closed.
pub data Move (w : World) : Task → List Task → IsolatedBackend → ℕ → (ℕ → Bool) → Type 0 where
  start_fails : (p : Text) → Move w (starts p) [] (finish_creating p w.backend) w.count w.ended
  start_succeeds :
      (p : Text) → Move w (starts p) (started p w.count ∷ []) w.backend (w.count + 1) w.ended
  installs :
      (p : Text) (s : ℕ) {c : IsolatedBackend}
      → install p s w.backend ≡ some c
      → Move w (started p s) (uses p s ∷ []) c w.count w.ended
  refuses :
      (p : Text) (s : ℕ)
      → install p s w.backend ≡ none
      → Move w (started p s) (discards p s ∷ []) w.backend w.count w.ended
  discards_it :
      (p : Text) (s : ℕ)
      → Move w (discards p s) [] (finish_creating p w.backend) w.count (and_ended s w.ended)
  returns : (p : Text) (s : ℕ) → Move w (uses p s) [] (finish_work w.backend) w.count w.ended
  fails :
      (p : Text) (s : ℕ) → Move w (uses p s) (evicts s ∷ []) (evict p s w.backend) w.count w.ended
  evicts_it : (s : ℕ) → Move w (evicts s) [] (finish_work w.backend) w.count (and_ended s w.ended)
  constructs_it : Move w constructs [] (finish_work w.backend) w.count w.ended
  sleeps :
      {c : IsolatedBackend}
      → fall_asleep w.backend ≡ some c
      → Move w drains (drains ∷ []) c w.count w.ended
  drains_it :
      (sessions : List ℕ) {c : IsolatedBackend}
      → drain w.backend ≡ some (sessions, c)
      → Move w drains (closes sessions ∷ []) c w.count w.ended
  closes_one :
      (s : ℕ) (sessions : List ℕ)
      → Move w
          (closes (s ∷ sessions))
          (closes sessions ∷ [])
          w.backend
          w.count
          (and_ended s w.ended)
  closes_all : Move w (closes []) [] (finish_close w.backend) w.count w.ended

pub data Step (w : World) : World → Type 0 where
  -- `discover`, before any other thread has the backend. The registry has refused a second plugin of
  -- the name, so no session of it is stored.
  discovers :
      (p : Text)
      → w.tasks ≡ []
      → w.backend.state ≡ is_open
      → w.backend.creating ≡ []
      → Dict.get p w.backend.sessions ≡ none
      → Step w (record w {
        backend = record w.backend { sessions = Dict.put p w.count w.backend.sessions };
        count = w.count + 1;
      })
  enters :
      {t : Task} {c : IsolatedBackend}
      → Call w.backend t c
      → Step w (record w { backend = c; tasks = t ∷ w.tasks })
  goes_on :
      (before after : List Task) {old : Task} {new : List Task} {c : IsolatedBackend} {n : ℕ}
      {now : ℕ → Bool}
      → w.tasks ≡ before ++ old ∷ after
      → Move w old new c n now
      → Step w (moved before new after c n now)
  -- The wait of `close` raises.
  interrupts :
      (before after : List Task)
      → w.tasks ≡ before ++ drains ∷ after
      → Step w (moved before [] after (interrupt_close w.backend) w.count w.ended)

pub data Reach : World → Type 0 where
  begin : Reach start
  later : {w v : World} → Reach w → Step w v → Reach v
