-- ===== src/Backend/Tests.antt =====
-- packages/wmfs/wmfs/backends/isolated.py: a session that is started while `close` begins.
use wmfs.Common.{ℕ, ◌<◌, ◌⊎◌, true, false, none, [], ◌∷◌, nat_eq, ◌≡◌, refl}
use wmfs.Common.Dict
use wmfs.Common.Dict.{Dict, get-put, get-remove}
use wmfs.Common.Utf8.{Text}
use wmfs.Common.Text.{text_eq}
use wmfs.Backend.{
  is_open, is_closing, is_closed, is_creating, without, acquire, install, finish_creating,
  begin_close, fall_asleep, drain, finish_close,
}
use wmfs.Backend.Steps.{
  starts, uses, drains, World, and_ended, shares, begins, shuts, start_succeeds, installs, refuses,
  discards_it, sleeps, drains_it, closes_all, enters, goes_on, Reach, begin, later, start,
}
use wmfs.Backend.Counts.{total, flying, builds, shutting}
use wmfs.Common.Text.{same_text}
use wmfs.Backend.Shutdown.{Reach-closed, Reach-alone}

abbrev name : Text
name = 97 ∷ []

-- One thread starts a session, and another calls `close`.
abbrev both : World
both = record {
  backend = record {
    sessions = [];
    creating = name ∷ [];
    inflight = 0;
    state = is_closing;
    asleep = false;
  };
  tasks = drains ∷ starts name ∷ [];
  count = 0;
  ended = start.ended;
}

abbrev one_starts : World
one_starts = record both {
  backend = record both.backend { state = is_open };
  tasks = starts name ∷ [];
}

one_starts-Reach : Reach one_starts
unfolding acquire is_creating Dict.get
one_starts-Reach = later begin (enters (begins name refl))

both-Reach : Reach both
unfolding begin_close
both-Reach = later one_starts-Reach (enters (shuts refl))

-- `close` waits.
abbrev waiting : World
waiting = record both { backend = record both.backend { asleep = true } }

waiting-Reach : Reach waiting
unfolding fall_asleep
waiting-Reach = later both-Reach (goes_on [] (starts name ∷ []) refl (sleeps refl))

Reach-alone_example :
    ((p : Text)
      → (total (builds p) both.tasks ≡ 0)
        ⊎ ((total (builds p) both.tasks ≡ 1) × (Dict.get p both.backend.sessions ≡ none)))
    × ((total shutting both.tasks ≡ 0)
        ⊎ ((total flying both.tasks ≡ 0) × ((p : Text) → total (builds p) both.tasks ≡ 0)))
Reach-alone_example = Reach-alone both-Reach

-- The session is refused and closed, then `close` ends.
abbrev down : World
down = record {
  backend = record {
    sessions = [];
    creating = [];
    inflight = 0;
    state = is_closed;
    asleep = false;
  };
  tasks = [];
  count = 1;
  ended = and_ended 0 start.ended;
}

down-Reach : Reach down
unfolding install finish_creating without drain finish_close same_text
down-Reach =
    later
      (later
        (later
          (later (later waiting-Reach (goes_on (drains ∷ []) [] refl (start_succeeds name)))
            (goes_on (drains ∷ []) [] refl (refuses name 0 refl)))
          (goes_on (drains ∷ []) [] refl (discards_it name 0)))
        (goes_on [] [] refl (drains_it [] refl)))
      (goes_on [] [] refl closes_all)

Reach-closed_example :
    (down.backend.inflight ≡ 0)
    × (down.backend.creating ≡ [])
    × (down.backend.sessions ≡ [])
    × ((s : ℕ) → s < down.count → down.ended s ≡ true)
Reach-closed_example = Reach-closed down-Reach refl

-- A call of a backend with a session shares it.
abbrev busy : World
busy = record {
  backend = record {
    sessions = (name, 0) ∷ [];
    creating = [];
    inflight = 2;
    state = is_open;
    asleep = false;
  };
  tasks = uses name 0 ∷ uses name 0 ∷ [];
  count = 1;
  ended = start.ended;
}

busy-Reach : Reach busy
unfolding install without acquire same_text Dict.get Dict.put
busy-Reach =
    later
      (later (later one_starts-Reach (goes_on [] [] refl (start_succeeds name)))
        (goes_on [] [] refl (installs name 0 refl)))
      (enters (shares name 0 refl))
