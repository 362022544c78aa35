-- ===== src/Backend/Progress.antt =====
-- packages/wmfs/wmfs/backends/isolated.py: that some thread can go on once `close` has begun.
use wmfs.Common.{
  ℕ, Bool, true, false, Bool-cases, sym, ◌∙◌, ◌<◌, none, some, List, [], ◌∷◌, ◌++◌, nat_eq, inl,
  inr, ◌≡◌, refl, ap, arith,
}
use native.Mathlib.Decide.{dec_lt}
use wmfs.Common.Utf8.{Text}
use wmfs.Common.Text.{text_eq}
use wmfs.Backend.{is_closing, IsolatedBackend, is_drained, values, install, drain}
use wmfs.Backend.Steps.{
  Task, starts, started, discards, uses, constructs, evicts, drains, closes, World, start_fails,
  refuses, discards_it, returns, evicts_it, constructs_it, drains_it, closes_one, closes_all, Move,
  Reach,
}
use wmfs.Backend.Counts.{total, flying, builds, in_close}
use wmfs.Backend.Waits.{Reach-IsAwake}
use wmfs.Backend.Shutdown.{Reach-drains}

-- One of the tasks that are counted.
total-some :
    (f : Task → ℕ) (ts : List Task)
    → 0 < total f ts
    → (before : List Task) × (t : Task) × (after : List Task) × (ts ≡ before ++ t ∷ after)
      × (0 < f t)
total-some f [] some_task = absurd (omega (arith, some_task))
total-some f (t ∷ ts) some_task = elim (dec_lt 0 (f t)) [
  | yes first ↦ ([], t, ts, refl, first)
  | no other ↦
      let (before, u, after, same, counted) = total-some f ts (omega (arith, some_task, other)) in
      (t ∷ before, u, after, ap (λ us. t ∷ us) same, counted)
]

-- Some thread can go on by itself, without an interrupt.
pub data CanStep (w : World) : Type 0 where
  can_go :
      (before after : List Task) {old : Task} {new : List Task} {c : IsolatedBackend} {n : ℕ}
      {now : ℕ → Bool}
      → w.tasks ≡ before ++ old ∷ after
      → Move w old new c n now
      → CanStep w

module _ (w : World) (closing : w.backend.state ≡ is_closing) (before after : List Task) where
  install_refused : (p : Text) (s : ℕ) → install p s w.backend ≡ none
  unfolding install
  install_refused p s = rw closing refl

  flying-CanStep : (t : Task) → w.tasks ≡ before ++ t ∷ after → 0 < flying t → CanStep w
  flying-CanStep (uses p s) same h = (can_go before after same (returns p s))
  flying-CanStep constructs same h = (can_go before after same constructs_it)
  flying-CanStep (evicts s) same h = (can_go before after same (evicts_it s))
  flying-CanStep (starts p) same h = absurd (omega (arith, h))
  flying-CanStep (started p s) same h = absurd (omega (arith, h))
  flying-CanStep (discards p s) same h = absurd (omega (arith, h))
  flying-CanStep drains same h = absurd (omega (arith, h))
  flying-CanStep (closes sessions) same h = absurd (omega (arith, h))

  builds-CanStep :
      (q : Text) (t : Task) → w.tasks ≡ before ++ t ∷ after → 0 < builds q t → CanStep w
  builds-CanStep q (starts p) same h = (can_go before after same (start_fails p))
  builds-CanStep q (started p s) same h =
      (can_go before after same (refuses p s (install_refused p s)))
  builds-CanStep q (discards p s) same h = (can_go before after same (discards_it p s))
  builds-CanStep q (uses p s) same h = absurd (omega (arith, h))
  builds-CanStep q constructs same h = absurd (omega (arith, h))
  builds-CanStep q (evicts s) same h = absurd (omega (arith, h))
  builds-CanStep q drains same h = absurd (omega (arith, h))
  builds-CanStep q (closes sessions) same h = absurd (omega (arith, h))

-- The wait of `close` keeps it only while another thread can go on.
waiting-CanStep :
    {w : World} → Reach w → w.backend.state ≡ is_closing → is_drained w.backend ≡ false → CanStep w
waiting-CanStep {w} reached closing waiting = elim (Reach-drains reached waiting) [
  | inl some_work ↦
      let (before, t, after, same, counted) = total-some flying w.tasks some_work in
      flying-CanStep w closing before after t same counted
  | inr (p, some_build) ↦
      let (before, t, after, same, counted) = total-some (builds p) w.tasks some_build in
      builds-CanStep w closing before after p t same counted
]

drain_now :
    (b : IsolatedBackend)
    → is_drained b ≡ true
    → b.asleep ≡ false
    → drain b ≡ some (values b.sessions, record b { sessions = [] })
unfolding drain
drain_now b drained woken = rw (drained, woken) refl

closer-CanStep :
    {w : World} (before after : List Task) (t : Task)
    → Reach w
    → w.backend.state ≡ is_closing
    → w.tasks ≡ before ++ t ∷ after
    → 0 < in_close t
    → CanStep w
closer-CanStep {w} before after drains reached closing same h =
    elim (Bool-cases (is_drained w.backend)) [
      | inl drained ↦ elim (Reach-IsAwake reached) [
        | inl woken ↦
            can_go before after same
              (drains_it (values w.backend.sessions) (drain_now w.backend drained woken))
        | inr waits ↦ absurd (both_ways (sym drained ∙ waits))
      ]
      | inr waits ↦ waiting-CanStep reached closing waits
    ]
  where
    both_ways : true ≡ false → ⊥
    both_ways e = cc e
closer-CanStep before after (closes []) reached closing same h =
    (can_go before after same closes_all)
closer-CanStep before after (closes (s ∷ sessions)) reached closing same h =
    (can_go before after same (closes_one s sessions))
closer-CanStep before after (starts p) reached closing same h = absurd (omega (arith, h))
closer-CanStep before after (started p s) reached closing same h = absurd (omega (arith, h))
closer-CanStep before after (discards p s) reached closing same h = absurd (omega (arith, h))
closer-CanStep before after (uses p s) reached closing same h = absurd (omega (arith, h))
closer-CanStep before after constructs reached closing same h = absurd (omega (arith, h))
closer-CanStep before after (evicts s) reached closing same h = absurd (omega (arith, h))

pub closing-CanStep :
    {w : World} → Reach w → w.backend.state ≡ is_closing → 0 < total in_close w.tasks → CanStep w
closing-CanStep {w} reached closing closer =
    let (before, t, after, same, counted) = total-some in_close w.tasks closer in
    closer-CanStep before after t reached closing same counted
