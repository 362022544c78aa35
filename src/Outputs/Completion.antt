-- ===== src/Outputs/Completion.antt =====
-- `complete_outputs`: the specifications that the metadata gives and those that the worker plans make
-- one for each output.
use mathlib.Core.Path.{subst}
use wmfs.Common.{
  ℕ, zero, suc, ◌≤◌, ◌<◌, false, not, Option, some, none, List, [], ◌∷◌, ◌==◌, ◌≡◌, ◌≢◌, refl, ap,
  ◌∙◌, inl, inr, arith, ==_iff, ok, raise_if, ok_inj, first_ok, then-eq-ok, raise_if-pass, length,
  get_elem?, set_at, length-set_at, get-set_at_same, get-set_at_other, All-set_at, any-false, All,
  any, Bool-cases, string_eq,
}
use wmfs.Common.Int.{ℤ, is_non_positive}
use wmfs.Metadata.Words.{is_there, member, supported_output_dtypes}
use wmfs.Outputs.Model.{
  Spec, is_bad_shape, is_taken, complete_all, present, complete_outputs, unknown_output,
  invalid_shape, invalid_dtype, missing_output,
}

-- From one to sixteen dimensions, each of them positive.
abbrev pub IsShape : List ℤ → Type 0
IsShape shape =
    (0 < length shape) × (length shape ≤ 16) × All (λ n. is_non_positive n ≡ false) shape

pub IsShape-is_bad_shape : (shape : List ℤ) → is_bad_shape shape ≡ false → IsShape shape
unfolding is_bad_shape
IsShape-is_bad_shape [] h = absurd (cc h)
IsShape-is_bad_shape (n ∷ shape) h =
    (omega arith, ground arith, any-false is_non_positive (n ∷ shape) (ground arith))

abbrev pub IsShaped : Option Spec → Type 0
IsShaped none = Unit
IsShaped (some spec) = IsShape (spec.0)

is_taken-false : (o : Option (Option Spec)) → is_taken o ≡ false → o ≡ some none
is_taken-false none h = cc h
is_taken-false (some none) h = refl
is_taken-false (some (some spec)) h = cc h

-- What the loop does to the results that it starts from.
abbrev Completes : List (Option Spec) → List (ℕ × Spec) → List (Option Spec) → Type 0
Completes results planned done =
    (length done ≡ length results)
    × ((i : ℕ) (spec : Spec)
        → get_elem? results i ≡ some (some spec)
        → get_elem? done i ≡ some (some spec))
    × All (λ (p : ℕ × Spec). get_elem? done (p.0) ≡ some (some (p.1))) planned
    × (All IsShaped results → All IsShaped done)

-- A round keeps what is there, since its place is free.
kept :
    (index i : ℕ) (spec new : Spec) (results : List (Option Spec))
    → get_elem? results index ≡ some none
    → get_elem? results i ≡ some (some spec)
    → get_elem? (set_at index (some new) results) i ≡ some (some spec)
kept index i spec new results free there = elim (Bool-cases (index == i)) [
  | inl same ↦
      let e : index ≡ i = (==_iff index i).0 same in
      absurd (cc (free, there, ap (get_elem? results) e))
  | inr differ ↦
      let e : index ≢ i = λ e. ground (arith, ==_iff index i) in
      get-set_at_other index i (some new) results e ∙ there
]

complete_all-Completes :
    (results : List (Option Spec)) (planned : List (ℕ × Spec)) {done : List (Option Spec)}
    → complete_all results planned ≡ ok done
    → Completes results planned done
unfolding complete_all
complete_all-Completes results [] {done} h =
    subst (Completes results []) (ok_inj h) (refl, λ i spec e. e, tt, λ shapes. shapes)
complete_all-Completes results ((index, spec) ∷ planned) {done} h =
    let (free, h1) =
      then-eq-ok (raise_if (is_taken (get_elem? results index)) unknown_output) _ h in
    let (shaped, h2) = then-eq-ok (raise_if (is_bad_shape (spec.0)) invalid_shape) _ h1 in
    let (supported, h3) =
      then-eq-ok (raise_if (not (member (spec.1) supported_output_dtypes)) invalid_dtype) _ h2 in
    let place : get_elem? results index ≡ some none =
      is_taken-false (get_elem? results index) (raise_if-pass _ _ free) in
    let rest : Completes (set_at index (some spec) results) planned done =
      complete_all-Completes (set_at index (some spec) results) planned h3 in
    (
      rest.0 ∙ length-set_at index (some spec) results,
      λ i kept_spec there. rest.1 i kept_spec (kept index i kept_spec spec results place there),
      (rest.1 index spec (get-set_at_same index (some spec) results place), rest.2),
      λ shapes. rest.3 (
          All-set_at IsShaped index (some spec) results
            (IsShape-is_bad_shape (spec.0) (raise_if-pass _ _ shaped)) shapes),
    )

-- Where every result is there, the specifications are those of the results, place by place.
IsComplete : List (Option Spec) → Type 0
IsComplete results = any (λ result. not (is_there result)) results ≡ false

length-present :
    (results : List (Option Spec)) → IsComplete results → length (present results) ≡ length results
unfolding IsComplete
length-present [] h = refl
length-present (none ∷ results) h = absurd (cc h)
length-present (some spec ∷ results) h = ap suc (length-present results h)

get-present :
    (results : List (Option Spec)) (i : ℕ) (spec : Spec)
    → IsComplete results
    → get_elem? results i ≡ some (some spec)
    → get_elem? (present results) i ≡ some spec
unfolding IsComplete
get-present [] i spec h there = absurd (cc there)
get-present (none ∷ results) i spec h there = absurd (cc h)
get-present (some first ∷ results) zero spec h there = cc there
get-present (some first ∷ results) (suc i) spec h there = get-present results i spec h there

IsShape-present :
    (results : List (Option Spec))
    → All IsShaped results
    → All (λ (spec : Spec). IsShape (spec.0)) (present results)
IsShape-present [] shapes = tt
IsShape-present (none ∷ results) shapes = IsShape-present results shapes.1
IsShape-present (some spec ∷ results) shapes = (shapes.0, IsShape-present results shapes.1)

placed :
    (results : List (Option Spec)) (planned : List (ℕ × Spec))
    → IsComplete results
    → All (λ (p : ℕ × Spec). get_elem? results (p.0) ≡ some (some (p.1))) planned
    → All (λ (p : ℕ × Spec). get_elem? (present results) (p.0) ≡ some (p.1)) planned
placed results [] h there = tt
placed results ((i, spec) ∷ planned) h there =
    (get-present results i spec h there.0, placed results planned h there.1)

-- One specification for each output: what the metadata has told, what the worker has planned, and a
-- shape of one to sixteen positive dimensions each time.
abbrev pub IsPlan : List (Option Spec) → List (ℕ × Spec) → List Spec → Type 0
IsPlan known planned specs =
    (length specs ≡ length known)
    × ((i : ℕ) (spec : Spec) → get_elem? known i ≡ some (some spec) → get_elem? specs i ≡ some spec)
    × All (λ (p : ℕ × Spec). get_elem? specs (p.0) ≡ some (p.1)) planned
    × All (λ (spec : Spec). IsShape (spec.0)) specs

pub complete_outputs-IsPlan :
    (known : List (Option Spec)) (planned : List (ℕ × Spec)) {specs : List Spec}
    → All IsShaped known
    → complete_outputs known planned ≡ ok specs
    → IsPlan known planned specs
unfolding complete_outputs IsComplete
complete_outputs-IsPlan known planned {specs} shapes h =
    let (results, completed, h1) = first_ok (complete_all known planned) _ h in
    let (full, h2) =
      then-eq-ok (raise_if (any (λ result. not (is_there result)) results) missing_output) _ h1 in
    let complete : IsComplete results = raise_if-pass _ _ full in
    let done = complete_all-Completes known planned completed in
    subst (IsPlan known planned) (ok_inj h2) (
      length-present results complete ∙ done.0,
      λ i spec there. get-present results i spec complete (done.1 i spec there),
      placed results planned complete done.2,
      IsShape-present results (done.3 shapes),
    )
