-- ===== src/Backend/Results.antt =====
-- packages/wmfs/wmfs/backends/isolated.py: what the functions under the lock have found and done.
use wmfs.Common.{
  ℕ, ◌+◌, ◌<◌, true, false, not, ◌&&◌, Option, none, some, List, [], ◌∷◌, ◌==◌, nat_eq, if-cases,
  both, Bool-cases, inl, inr, ◌≡◌, refl, sym, ap, ◌∙◌, arith,
}
use wmfs.Common.Dict
use wmfs.Common.Dict.{Dict, get-put, get-remove}
use wmfs.Common.Utf8.{Text}
use wmfs.Common.Text.{text_eq}
use wmfs.Backend.{
  is_closing, IsolatedBackend, accepts, is_creating, without, shared, begun, acquire, install,
  begin_work, begin_close, values, is_none_creating, is_drained, fall_asleep, drain,
}
use wmfs.Backend.Counts.{num}

pub acquire-shared :
    (p : Text) (s : ℕ) (b : IsolatedBackend) {c : IsolatedBackend}
    → acquire p b ≡ shared s c
    → (accepts b.state ≡ true) × (record b { inflight = b.inflight + 1 } ≡ c)
unfolding acquire
acquire-shared p s b h = ground arith

pub acquire-begun :
    (p : Text) (b : IsolatedBackend) {c : IsolatedBackend}
    → acquire p b ≡ begun c
    → (accepts b.state ≡ true)
      × (Dict.get p b.sessions ≡ none)
      × (is_creating p b.creating ≡ false)
      × (record b { creating = p ∷ b.creating } ≡ c)
unfolding acquire
acquire-begun p b h = ground arith

pub begin_work-eq-some :
    (b : IsolatedBackend) {c : IsolatedBackend}
    → begin_work b ≡ some c
    → (accepts b.state ≡ true) × (record b { inflight = b.inflight + 1 } ≡ c)
unfolding begin_work
begin_work-eq-some b h = ground arith

pub begin_close-eq-some :
    (b : IsolatedBackend) {c : IsolatedBackend}
    → begin_close b ≡ some c
    → (accepts b.state ≡ true) × (record b { state = is_closing } ≡ c)
unfolding begin_close
begin_close-eq-some b h = ground arith

pub install-eq-some :
    (p : Text) (s : ℕ) (b : IsolatedBackend) {c : IsolatedBackend}
    → install p s b ≡ some c
    → (accepts b.state ≡ true)
      × (record b {
        sessions = Dict.put p s b.sessions;
        creating = without p b.creating;
        inflight = b.inflight + 1;
        asleep = false;
      }
          ≡ c)
unfolding install
install-eq-some p s b h = ground arith

pub drain-eq-some :
    (b : IsolatedBackend) {sessions : List ℕ} {c : IsolatedBackend}
    → drain b ≡ some (sessions, c)
    → (b.asleep ≡ false)
      × (b.inflight ≡ 0)
      × (b.creating ≡ [])
      × (values b.sessions ≡ sessions)
      × (record b { sessions = [] } ≡ c)
unfolding drain
drain-eq-some b {sessions} {c} h =
    elim (if-cases (not b.asleep && is_drained b)
      (some (values b.sessions, record b { sessions = [] })) none h) [
        | inl (test, same) ↦
            let (woken, drained) = both (not b.asleep) (is_drained b) test in
            let (idle, settled) = both (b.inflight == 0) (is_none_creating b.creating) drained in
            let pair : ◌≡◌ {A = List ℕ × IsolatedBackend}
                (values b.sessions, record b { sessions = [] }) (sessions, c) =
              cc same in
            (
              ground (arith, woken),
              ground (arith, idle),
              no_creating b.creating settled,
              ap (λ (p : List ℕ × IsolatedBackend). p.0) pair,
              ap (λ (p : List ℕ × IsolatedBackend). p.1) pair,
            )
        | inr (_, other) ↦ absurd (cc other)
      ]
  where
    no_creating : (creating : List Text) → is_none_creating creating ≡ true → creating ≡ []
    no_creating [] h = refl
    no_creating (p ∷ creating) h = absurd (cc h)

pub fall_asleep-eq-some :
    (b : IsolatedBackend) {c : IsolatedBackend}
    → fall_asleep b ≡ some c
    → (b.asleep ≡ false) × (is_drained b ≡ false) × (record b { asleep = true } ≡ c)
unfolding fall_asleep
fall_asleep-eq-some b h = ground arith

-- A new entry of the table leaves the others, and is found.
pub put-beside :
    (p q : Text) (s k : ℕ) (sessions : Dict Text ℕ)
    → Dict.get p sessions ≡ none
    → Dict.get q sessions ≡ some k
    → Dict.get q (Dict.put p s sessions) ≡ some k
put-beside p q s k sessions absent d = elim (Bool-cases (text_eq.beq p q)) [
  | inl equal ↦
      let none_there : Dict.get q sessions ≡ none =
        ap (λ r. Dict.get r sessions) (sym ((text_eq.beq_iff p q).0 equal)) ∙ absent in
      absurd (some_none (sym d ∙ none_there))
  | inr other ↦ get-put p q s sessions ∙ rw other d
]
  where
    some_none : {k : ℕ} → ◌≡◌ {A = Option ℕ} (some k) none → ⊥
    some_none e = cc e

pub put-stored :
    (p : Text) (s k : ℕ) (sessions : Dict Text ℕ)
    → 0 < num (s == k)
    → Dict.get p (Dict.put p s sessions) ≡ some k
put-stored p s k sessions held =
    let equal : s ≡ k = ground (arith, held) in
    get-put p p s sessions ∙ rw (Dict.beq_refl p) (ap some equal)
