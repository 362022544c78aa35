-- ===== src/Common/Results.antt =====
-- A Python call that may raise: its value, or the exception.
use Prim.Native.Nat.{suc}
use mathlib.Core.Path.{◌≡◌, refl, ap, subst}
use mathlib.Core.Bool.{Bool, true, false}
use mathlib.Core.Logic.{◌⊎◌, inl, inr}
use mathlib.Core.Option.{Option, none, some}
use mathlib.Core.List.{List, [], ◌∷◌}
use wmfs.Common.Lists.{All, length}

pub data Result {ℓ κ} (E : Type ℓ) (A : Type κ) : Type (ℓ ⊔ κ) where
  ok : A → Result E A
  err : E → Result E A

infixl 5 ◌>>=◌ ◌>>◌
abbrev pub ◌>>=◌ {ℓ κ μ} :
    {E : Type ℓ} {A : Type κ} {B : Type μ} → Result E A → (A → Result E B) → Result E B
ok value >>= k = k value
err raised >>= k = err raised

abbrev pub ◌>>◌ {ℓ μ} : {E : Type ℓ} {B : Type μ} → Result E (Unit {0}) → Result E B → Result E B
m >> k = m >>= λ _. k

-- `if test: raise e`
abbrev pub raise_if {ℓ} : {E : Type ℓ} → Bool → E → Result E (Unit {0})
raise_if true e = err e
raise_if false e = ok tt

-- A lookup whose failure is the exception `e`.
abbrev pub or_raise {ℓ κ} : {E : Type ℓ} {A : Type κ} → Option A → E → Result E A
or_raise none e = err e
or_raise (some a) e = ok a

-- A call that returns has returned at its first step.
pub first_ok {ℓ κ μ} :
    {E : Type ℓ} {A : Type κ} {B : Type μ} (m : Result E A) (k : A → Result E B) {v : B}
    → (m >>= k) ≡ ok v
    → (value : A) × (m ≡ ok value) × (k value ≡ ok v)
first_ok (ok value) k h = (value, refl, h)
first_ok (err raised) k h = cc

pub raise_if-eq-ok {ℓ μ} :
    {E : Type ℓ} {B : Type μ} (t : Bool) (e : E) (k : Result E B) {b : B}
    → (raise_if t e >> k) ≡ ok b
    → (t ≡ false) × (k ≡ ok b)
raise_if-eq-ok true e k h = cc
raise_if-eq-ok false e k h = (refl, h)

pub Result-cases {ℓ κ} :
    {E : Type ℓ} {A : Type κ} (r : Result E A) → ((a : A) × (r ≡ ok a)) ⊎ ((e : E) × (r ≡ err e))
Result-cases (ok a) = inl (a, refl)
Result-cases (err e) = inr (e, refl)

-- A row of `if test: raise e`, each made when those before it have passed.
unfoldable pub checked {ℓ κ} : {E : Type ℓ} {A : Type κ} → List (Bool × E) → Result E A → Result E A
checked [] r = r
checked ((bad, e) ∷ tests) r =
    let rest = checked tests r in elim bad [ true ↦ err e | false ↦ rest ]

abbrev pub AllPass {ℓ} : {E : Type ℓ} → List (Bool × E) → Type 0
AllPass [] = Unit {0}
AllPass ((bad, e) ∷ tests) = (bad ≡ false) × AllPass tests

pub checked-eq-ok {ℓ κ} :
    {E : Type ℓ} {A : Type κ} (tests : List (Bool × E)) (r : Result E A) {v : A}
    → checked tests r ≡ ok v
    → AllPass tests × (r ≡ ok v)
unfolding checked
checked-eq-ok [] r h = (tt, h)
checked-eq-ok ((true, e) ∷ tests) r h = cc
checked-eq-ok ((false, e) ∷ tests) r h =
    let (passed, rest) = checked-eq-ok tests r h in ((refl, passed), rest)

pub checked-pass {ℓ κ} :
    {E : Type ℓ} {A : Type κ} (tests : List (Bool × E)) (r : Result E A)
    → AllPass tests
    → checked tests r ≡ r
unfolding checked
checked-pass [] r p = refl
checked-pass ((true, e) ∷ tests) r p = cc (p.0)
checked-pass ((false, e) ∷ tests) r p = checked-pass tests r p.1

pub or_raise-eq-ok {ℓ κ} :
    {E : Type ℓ} {A : Type κ} (o : Option A) (e : E) {a : A} → or_raise o e ≡ ok a → o ≡ some a
or_raise-eq-ok none e h = cc
or_raise-eq-ok (some b) e h = cc

-- `for x in xs: f(x)`, for the exceptions that it raises
abbrev pub for_each {ℓ κ} :
    {E : Type ℓ} {A : Type κ} → (A → Result E (Unit {0})) → List A → Result E (Unit {0})
for_each f [] = ok tt
for_each f (x ∷ xs) = f x >> for_each f xs

-- `[f(x) for x in xs]`
abbrev pub collect_all {ℓ κ μ} :
    {E : Type ℓ} {A : Type κ} {B : Type μ} → (A → Result E B) → List A → Result E (List B)
collect_all f [] = ok []
collect_all f (x ∷ xs) = do y ← f x; ys ← collect_all f xs; ok (y ∷ ys)

pub then-eq-ok {ℓ μ} :
    {E : Type ℓ} {B : Type μ} (m : Result E (Unit {0})) (k : Result E B) {b : B}
    → (m >> k) ≡ ok b
    → (m ≡ ok tt) × (k ≡ ok b)
then-eq-ok (ok tt) k h = (refl, h)
then-eq-ok (err e) k h = cc

pub for_each-eq-ok {ℓ κ} :
    {E : Type ℓ} {A : Type κ} (f : A → Result E (Unit {0})) (xs : List A)
    → for_each f xs ≡ ok tt
    → All (λ x. f x ≡ ok tt) xs
for_each-eq-ok f [] h = tt
for_each-eq-ok f (x ∷ xs) h =
    let (first, rest) = then-eq-ok (f x) (for_each f xs) h in (first, for_each-eq-ok f xs rest)

pub raise_if-pass {ℓ} : {E : Type ℓ} (t : Bool) (e : E) → raise_if t e ≡ ok tt → t ≡ false
raise_if-pass true e h = cc
raise_if-pass false e h = refl

pub ok_inj {ℓ κ} : {E : Type ℓ} {A : Type κ} {a b : A} → ◌≡◌ {A = Result E A} (ok a) (ok b) → a ≡ b
ok_inj h = cc h

-- What holds of each value that `f` returns holds of each value collected.
pub collect_all-All {ℓ κ μ ν} :
    {E : Type ℓ} {A : Type κ} {B : Type μ} (P : B → Type ν) (f : A → Result E B) (xs : List A)
    → ((x : A) (y : B) → f x ≡ ok y → P y)
    → {ys : List B} → collect_all f xs ≡ ok ys
    → (length ys ≡ length xs) × All P ys
collect_all-All P f [] each {ys} h = subst (λ zs. (length zs ≡ 0) × All P zs) (ok_inj h) (refl, tt)
collect_all-All P f (x ∷ xs) each {ys} h =
    let (y, first, h1) = first_ok (f x) _ h in
    let (rest, others, h2) = first_ok (collect_all f xs) _ h1 in
    let (count, all) = collect_all-All P f xs each others in
    subst (λ zs. (length zs ≡ suc (length xs)) × All P zs) (ok_inj h2)
      (ap suc count, (each x y first, all))
