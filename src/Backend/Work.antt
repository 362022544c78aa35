-- ===== src/Backend/Work.antt =====
-- packages/wmfs/wmfs/backends/isolated.py: what a thread has left to do once `close` has begun.
use wmfs.Common.{
  ℕ, suc, ◌+◌, ◌≤◌, ◌<◌, Bool, true, false, not, List, [], ◌∷◌, ◌++◌, nat_eq, length, ◌⊎◌, inl, inr,
  ◌≡◌, refl, sym, ap, ◌∙◌, arith,
}
use wmfs.Common.Dict
use wmfs.Common.Dict.{Dict}
use wmfs.Common.Utf8.{Text}
use wmfs.Common.Text.{text_eq}
use wmfs.Backend.{
  BackendState, is_closing, is_closed, IsolatedBackend, accepts, values, evict, finish_creating,
  finish_work, finish_close,
}
use wmfs.Backend.Steps.{
  Task, starts, started, discards, uses, constructs, evicts, drains, closes, World, and_ended,
  moved, Call, shares, begins, works, shuts, Move, start_fails, start_succeeds, installs, refuses,
  discards_it, returns, fails, evicts_it, constructs_it, sleeps, drains_it, closes_one, closes_all,
  Step, discovers, enters, goes_on, interrupts,
}
use wmfs.Backend.Counts.{num, total, in_close, total-swap}
use wmfs.Backend.Results.{
  acquire-shared, acquire-begun, begin_work-eq-some, begin_close-eq-some, install-eq-some,
  drain-eq-some, fall_asleep-eq-some,
}

-- The most steps that a thread still makes with its task, while no session is stored.
abbrev pub steps_left : Task → ℕ
steps_left (starts p) = 5
steps_left (started p s) = 4
steps_left (discards p s) = 1
steps_left (uses p s) = 2
steps_left constructs = 1
steps_left (evicts s) = 1
steps_left drains = 2
steps_left (closes sessions) = 1 + length sessions

-- Each session that is stored is one step more for `close`.
abbrev pub work : World → ℕ
work w = total steps_left w.tasks + length w.backend.sessions

length-values : (sessions : Dict Text ℕ) → length (values sessions) ≡ length sessions
length-values [] = refl
length-values ((p, s) ∷ sessions) = ap suc (length-values sessions)

length-remove :
    (p : Text) (sessions : Dict Text ℕ) → length (Dict.remove p sessions) ≤ length sessions
unfolding Dict.remove
length-remove p [] = omega arith
length-remove p ((q, s) ∷ sessions) = ground (arith, length-remove p sessions)

evict-le :
    (p : Text) (s : ℕ) (b : IsolatedBackend)
    → (length (evict p s b).sessions ≤ length b.sessions) × ((evict p s b).state ≡ b.state)
unfolding evict
evict-le p s b = ground (arith, length-remove p b.sessions)

pub closing_refuses : {state : BackendState} → state ≡ is_closing → accepts state ≡ true → ⊥
closing_refuses closing accepted = refused_open (sym (ap accepts closing) ∙ accepted)
  where
    refused_open : false ≡ true → ⊥
    refused_open e = cc e

-- What is left to do; the thread in the wait of `close` may fall asleep once between two steps of the
-- others.
abbrev pub weight : World → ℕ
weight w = (work w + work w) + num (not w.backend.asleep)

num-le : (b : Bool) → num b ≤ 1
num-le true = omega arith
num-le false = omega arith

-- A step has lowered the weight, and `close` goes on or the backend is closed.
abbrev pub IsLower : World → World → Type 0
IsLower w v =
    (weight v < weight w)
    × (((v.backend.state ≡ is_closing) × (0 < total in_close v.tasks))
        ⊎ (v.backend.state ≡ is_closed))

module _ (w : World) (before after : List Task) (old : Task) (new : List Task)
    (closing : w.backend.state ≡ is_closing) (closer : 0 < total in_close w.tasks)
    (same : w.tasks ≡ before ++ old ∷ after) where
  still_closes : total in_close new ≡ in_close old → 0 < total in_close (before ++ (new ++ after))
  still_closes kept = omega (
    arith,
    kept,
    closer,
    ap (total in_close) same,
    total-swap in_close before (old ∷ []) new after,
  )

  moved-IsLower :
      (c : IsolatedBackend) (n : ℕ) (now : ℕ → Bool)
      → total steps_left new + length c.sessions < steps_left old + length w.backend.sessions
      → c.state ≡ w.backend.state
      → total in_close new ≡ in_close old
      → IsLower w (moved before new after c n now)
  moved-IsLower c n now lower kept closes_same = (
    omega (
      arith,
      lower,
      num-le (not c.asleep),
      ap (total steps_left) same,
      total-swap steps_left before (old ∷ []) new after,
    ),
    inl (kept ∙ closing, still_closes closes_same),
  )

Move-IsLower :
    (w : World) (before after : List Task) {old : Task} {new : List Task} {c : IsolatedBackend}
    {n : ℕ} {now : ℕ → Bool}
    → w.backend.state ≡ is_closing
    → 0 < total in_close w.tasks
    → w.tasks ≡ before ++ old ∷ after
    → Move w old new c n now
    → IsLower w (moved before new after c n now)
unfolding finish_creating finish_work finish_close
Move-IsLower w before after closing closer same (start_fails p) =
    moved-IsLower w before after (starts p) [] closing closer same (finish_creating p w.backend)
      w.count w.ended (omega arith) refl refl
Move-IsLower w before after closing closer same (start_succeeds p) =
    moved-IsLower w before after (starts p) (started p w.count ∷ []) closing closer same w.backend
      (w.count + 1) w.ended (omega arith) refl refl
Move-IsLower w before after closing closer same (installs p s h) =
    absurd (closing_refuses closing (install-eq-some p s w.backend h).0)
Move-IsLower w before after closing closer same (refuses p s h) =
    moved-IsLower w before after (started p s) (discards p s ∷ []) closing closer same w.backend
      w.count w.ended (omega arith) refl refl
Move-IsLower w before after closing closer same (discards_it p s) =
    moved-IsLower w before after (discards p s) [] closing closer same (finish_creating p w.backend)
      w.count (and_ended s w.ended) (omega arith) refl refl
Move-IsLower w before after closing closer same (returns p s) =
    moved-IsLower w before after (uses p s) [] closing closer same (finish_work w.backend) w.count
      w.ended (omega arith) refl refl
Move-IsLower w before after closing closer same (fails p s) =
    moved-IsLower w before after (uses p s) (evicts s ∷ []) closing closer same
      (evict p s w.backend) w.count w.ended (omega (arith, (evict-le p s w.backend).0))
      (evict-le p s w.backend).1 refl
Move-IsLower w before after closing closer same (evicts_it s) =
    moved-IsLower w before after (evicts s) [] closing closer same (finish_work w.backend) w.count
      (and_ended s w.ended) (omega arith) refl refl
Move-IsLower w before after closing closer same constructs_it =
    moved-IsLower w before after constructs [] closing closer same (finish_work w.backend) w.count
      w.ended (omega arith) refl refl
Move-IsLower w before after {c = c} closing closer same (sleeps h) =
    let (woken, _, slept) = fall_asleep-eq-some w.backend h in
    (
      omega (
        arith,
        ap num (ap not woken),
        ap (λ (b : IsolatedBackend). num (not b.asleep)) slept,
        ap (λ (b : IsolatedBackend). length b.sessions) slept,
        ap (total steps_left) same,
        total-swap steps_left before (drains ∷ []) (drains ∷ []) after,
      ),
      inl (
        ap (λ (b : IsolatedBackend). b.state) (sym slept) ∙ closing,
        still_closes w before after drains (drains ∷ []) closing closer same refl,
      ),
    )
Move-IsLower w before after {c = c} closing closer same (drains_it sessions h) =
    let (_, _, _, taken, emptied) = drain-eq-some w.backend h in
    moved-IsLower w before after drains (closes sessions ∷ []) closing closer same c w.count w.ended
      (omega (
        arith,
        length-values w.backend.sessions,
        ap length taken,
        ap (λ (b : IsolatedBackend). length b.sessions) emptied,
      ))
      (ap (λ (b : IsolatedBackend). b.state) (sym emptied)) refl
Move-IsLower w before after closing closer same (closes_one s sessions) =
    moved-IsLower w before after (closes (s ∷ sessions)) (closes sessions ∷ []) closing closer same
      w.backend w.count (and_ended s w.ended) (omega arith) refl refl
Move-IsLower w before after closing closer same closes_all = (
  omega (
    arith,
    num-le (not w.backend.asleep),
    ap (total steps_left) same,
    total-swap steps_left before (closes [] ∷ []) [] after,
  ),
  inr refl,
)

Call-refused :
    (b : IsolatedBackend) {t : Task} {c : IsolatedBackend} → b.state ≡ is_closing → Call b t c → ⊥
Call-refused b closing (shares p s h) = closing_refuses closing (acquire-shared p s b h).0
Call-refused b closing (begins p h) = closing_refuses closing (acquire-begun p b h).0
Call-refused b closing (works h) = closing_refuses closing (begin_work-eq-some b h).0
Call-refused b closing (shuts h) = closing_refuses closing (begin_close-eq-some b h).0

-- A step lowers what is left to do, or it is the interrupt of the wait of `close`.
pub Step-IsLower :
    {w v : World}
    → w.backend.state ≡ is_closing
    → 0 < total in_close w.tasks
    → total in_close w.tasks ≤ 1
    → Step w v
    → IsLower w v ⊎ (total in_close v.tasks ≡ 0)
Step-IsLower {w} closing closer alone (discovers p none_yet is_up settled absent) =
    absurd (closing_refuses closing (ap accepts is_up))
Step-IsLower {w} closing closer alone (enters call) = absurd (Call-refused w.backend closing call)
Step-IsLower {w} closing closer alone (goes_on before after same move) =
    inl (Move-IsLower w before after closing closer same move)
Step-IsLower {w} closing closer alone (interrupts before after same) = inr (
    omega
      (arith, alone, ap (total in_close) same, total-swap in_close before (drains ∷ []) [] after))
