-- ===== src/Backend/Counts.antt =====
-- packages/wmfs/wmfs/backends/isolated.py: how many threads are at what, and what holds a session.
use wmfs.Common.{
  ℕ, ◌+◌, ◌≤◌, Bool, true, false, not, ◌&&◌, some, List, [], ◌∷◌, ◌++◌, ◌==◌, nat_eq, any, ◌≡◌,
  refl, arith,
}
use wmfs.Common.Dict
use wmfs.Common.Dict.{Dict}
use wmfs.Common.Utf8.{Text}
use wmfs.Common.Text.{text_eq}
use wmfs.Backend.{is_creating, without, values}
use wmfs.Backend.Steps.{Task, starts, started, discards, uses, constructs, evicts, drains, closes}

abbrev pub num : Bool → ℕ
num true = 1
num false = 0

abbrev pub total : (Task → ℕ) → List Task → ℕ
total f [] = 0
total f (t ∷ ts) = f t + total f ts

-- A call that is counted as in flight.
abbrev pub flying : Task → ℕ
flying (uses p s) = 1
flying constructs = 1
flying (evicts s) = 1
flying _ = 0

-- The start of a session of the plugin.
abbrev pub builds : Text → Task → ℕ
builds p (starts q) = num (text_eq.beq p q)
builds p (started q s) = num (text_eq.beq p q)
builds p (discards q s) = num (text_eq.beq p q)
builds p _ = 0

-- The call of `close` that does the work, and its part after the wait.
abbrev pub in_close : Task → ℕ
in_close drains = 1
in_close (closes sessions) = 1
in_close _ = 0

abbrev pub shutting : Task → ℕ
shutting (closes sessions) = 1
shutting _ = 0

-- The session is in the hands of the thread, which is about to close it or to store it.
abbrev pub holds : ℕ → Task → ℕ
holds s (started p k) = num (k == s)
holds s (discards p k) = num (k == s)
holds s (evicts k) = num (k == s)
holds s (closes sessions) = num (any (λ k. k == s) sessions)
holds s _ = 0

pub total-append : (f : Task → ℕ) (ts us : List Task) → total f (ts ++ us) ≡ total f ts + total f us
total-append f [] us = omega arith
total-append f (t ∷ ts) us = omega (arith, total-append f ts us)

-- A part of the tasks is replaced.
pub total-swap :
    (f : Task → ℕ) (before old new after : List Task)
    → total f (before ++ (new ++ after)) + total f old
      ≡ total f (before ++ (old ++ after)) + total f new
total-swap f before old new after = omega (
  arith,
  total-append f before (new ++ after),
  total-append f before (old ++ after),
  total-append f new after,
  total-append f old after,
)

pub total-part :
    (f : Task → ℕ) (before mid after : List Task) → total f mid ≤ total f (before ++ (mid ++ after))
total-part f before mid after =
    omega (arith, total-append f before (mid ++ after), total-append f mid after)

pub total-le :
    (f g : Task → ℕ) → ((t : Task) → f t ≤ g t) → (ts : List Task) → total f ts ≤ total g ts
total-le f g below [] = omega arith
total-le f g below (t ∷ ts) = omega (arith, below t, total-le f g below ts)

pub shutting-in_close : (t : Task) → shutting t ≤ in_close t
shutting-in_close (starts p) = omega arith
shutting-in_close (started p s) = omega arith
shutting-in_close (discards p s) = omega arith
shutting-in_close (uses p s) = omega arith
shutting-in_close constructs = omega arith
shutting-in_close (evicts s) = omega arith
shutting-in_close drains = omega arith
shutting-in_close (closes sessions) = omega arith

pub num-beq : (p : Text) → num (text_eq.beq p p) ≡ 1
num-beq p = rw (Dict.beq_refl p) refl

-- Where no call is in flight, no session is being started and nothing is shut down, no thread holds
-- a session.
pub total-holds :
    (s : ℕ) (ts : List Task)
    → total flying ts ≡ 0
    → ((p : Text) → total (builds p) ts ≡ 0)
    → total in_close ts ≡ 0
    → total (holds s) ts ≡ 0
total-holds s [] f b c = refl
total-holds s (t ∷ ts) f b c =
    let rest = total-holds s ts (omega (arith, f)) (λ p. omega (arith, b p)) (omega (arith, c)) in
    omega (arith, rest, none_held t (omega (arith, f)) (λ p. omega (arith, b p)) (omega (arith, c)))
  where
    none_held :
        (t : Task) → flying t ≡ 0 → ((p : Text) → builds p t ≡ 0) → in_close t ≡ 0 → holds s t ≡ 0
    none_held (starts p) f b c = refl
    none_held (started p k) f b c = absurd (omega (arith, num-beq p, b p))
    none_held (discards p k) f b c = absurd (omega (arith, num-beq p, b p))
    none_held (uses p k) f b c = refl
    none_held constructs f b c = refl
    none_held (evicts k) f b c = absurd (omega (arith, f))
    none_held drains f b c = refl
    none_held (closes sessions) f b c = absurd (omega (arith, c))

-- The set of the plugins whose session is being started.
pub is_creating-without :
    (p q : Text) (creating : List Text)
    → is_creating q (without p creating) ≡ (not (text_eq.beq p q) && is_creating q creating)
unfolding is_creating without
is_creating-without p q [] = ground arith
is_creating-without p q (r ∷ creating) = ground (
  arith,
  is_creating-without p q creating,
  text_eq.beq_iff p q,
  text_eq.beq_iff p r,
  text_eq.beq_iff q r,
)

-- A session that is stored is among the values.
pub get-values :
    (p : Text) (s : ℕ) (sessions : Dict Text ℕ)
    → Dict.get p sessions ≡ some s
    → any (λ k. k == s) (values sessions) ≡ true
unfolding Dict.get
get-values p s [] h = absurd (cc h)
get-values p s ((q, k) ∷ sessions) h = ground (arith, get-values p s sessions, h)
