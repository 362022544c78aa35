-- ===== src/Backend.antt =====
-- packages/wmfs/wmfs/backends/isolated.py: the sessions of `IsolatedBackend`. A session is the number
-- of its start. What holds the condition's lock is one function here. Of the threads that wait on the
-- condition, the one in the first call of `close` is modelled: it sleeps until a `notify_all`. A thread
-- that waits in `_acquire_session` or in a further call of `close` is not.
pub mod Steps
pub mod Counts
pub mod Sound
pub mod Results
pub mod Moves
pub mod Calls
pub mod Starts
pub mod Closing
pub mod Waits
pub mod Shutdown
pub mod Work
pub mod Progress
pub mod Termination
mod Tests
use wmfs.Common.{
  ℕ, ◌+◌, ◌-◌, Bool, true, false, not, ◌&&◌, Option, some, none, List, [], ◌∷◌, ◌==◌, any, keep,
  if◌then◌else◌,
}
use wmfs.Common.Dict
use wmfs.Common.Dict.{Dict}
use wmfs.Common.Utf8.{Text}
use wmfs.Common.Text.{text_eq}

pub data BackendState : Type 0 where
  is_open is_closing is_closed : BackendState

pub record IsolatedBackend : Type 0 where
  pub sessions : Dict Text ℕ
  pub creating : List Text
  pub inflight : ℕ
  pub state : BackendState
  -- The first call of `close` waits on the condition and has not been notified.
  pub asleep : Bool

-- `IsolatedBackend(...)`
abbrev pub new_backend : IsolatedBackend
new_backend = record { sessions = []; creating = []; inflight = 0; state = is_open; asleep = false }

-- self._state == "open"
abbrev pub accepts : BackendState → Bool
accepts is_open = true
accepts is_closing = false
accepts is_closed = false

-- plugin_name in self._creating
unfoldable pub is_creating : Text → List Text → Bool
is_creating p creating = any (text_eq.beq p) creating

-- self._creating.remove(plugin_name)
unfoldable pub without : Text → List Text → List Text
without p [] = []
without p (q ∷ creating) =
    let rest = without p creating in if text_eq.beq p q then rest else q ∷ rest

-- The end of a round of the loop of `_acquire_session`: it raises, returns a session, leaves the loop
-- to create one, or waits.
pub data Acquired : Type 0 where
  refused : Acquired
  shared : ℕ → IsolatedBackend → Acquired
  begun : IsolatedBackend → Acquired
  waits : Acquired

-- One round of that loop.
unfoldable pub acquire : Text → IsolatedBackend → Acquired
acquire p b = if not (accepts b.state) then refused else found (Dict.get p b.sessions)
  where
    found : Option ℕ → Acquired
    found (some session) = shared session (record b { inflight = b.inflight + 1 })
    found none =
        if is_creating p b.creating then waits else begun (record b { creating = p ∷ b.creating })

-- The second part of `_acquire_session`; there is nothing where the backend is no longer open.
unfoldable pub install : Text → ℕ → IsolatedBackend → Option IsolatedBackend
install p session b =
    if accepts b.state
    then some (record b {
      sessions = Dict.put p session b.sessions;
      creating = without p b.creating;
      inflight = b.inflight + 1;
      asleep = false;
    })
    else none

-- The creation has failed, or its session has been closed.
unfoldable pub finish_creating : Text → IsolatedBackend → IsolatedBackend
finish_creating p b = record b { creating = without p b.creating; asleep = false }

-- The entry of `construct_tensor`
unfoldable pub begin_work : IsolatedBackend → Option IsolatedBackend
begin_work b = if accepts b.state then some (record b { inflight = b.inflight + 1 }) else none

-- The `finally` of a call
unfoldable pub finish_work : IsolatedBackend → IsolatedBackend
finish_work b = record b { inflight = b.inflight - 1; asleep = false }

-- self._sessions.get(plugin_name) is session
abbrev pub is_session : Option ℕ → ℕ → Bool
is_session none session = false
is_session (some other) session = other == session

-- `_evict_session`, up to the close of the session
unfoldable pub evict : Text → ℕ → IsolatedBackend → IsolatedBackend
evict p session b =
    if is_session (Dict.get p b.sessions) session
    then record b { sessions = Dict.remove p b.sessions; asleep = false }
    else b

-- The start of `close`, by the call that finds the backend open; the others return or wait.
unfoldable pub begin_close : IsolatedBackend → Option IsolatedBackend
begin_close b = if accepts b.state then some (record b { state = is_closing }) else none

abbrev pub values : Dict Text ℕ → List ℕ
values [] = []
values ((p, session) ∷ sessions) = session ∷ values sessions

abbrev pub is_none_creating : List Text → Bool
is_none_creating [] = true
is_none_creating (p ∷ creating) = false

-- self._inflight == 0 and not self._creating
abbrev pub is_drained : IsolatedBackend → Bool
is_drained b = b.inflight == 0 && is_none_creating b.creating

-- `wait_for` tests its condition when `close` begins and after each `notify_all`: it sleeps (again)
-- where the condition does not hold.
unfoldable pub fall_asleep : IsolatedBackend → Option IsolatedBackend
fall_asleep b =
    if not b.asleep && not (is_drained b) then some (record b { asleep = true }) else none

-- The wait when it ends: the sessions to close, and the backend without them.
unfoldable pub drain : IsolatedBackend → Option (List ℕ × IsolatedBackend)
drain b =
    if not b.asleep && is_drained b
    then some (values b.sessions, record b { sessions = [] })
    else none

-- An exception, as of an interrupt, ends the wait; `close` raises and leaves the state as it is.
unfoldable pub interrupt_close : IsolatedBackend → IsolatedBackend
interrupt_close b = record b { asleep = false }

-- The end of `close`
unfoldable pub finish_close : IsolatedBackend → IsolatedBackend
finish_close b = record b { state = is_closed; asleep = false }
