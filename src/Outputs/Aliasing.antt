-- ===== src/Outputs/Aliasing.antt =====
-- `bind_reusable_outputs`: the tensors that it takes alias neither the inputs nor each other.
use mathlib.Core.Path.{subst, ap₂}
use wmfs.Common.{
  both, ℕ, Bool, true, false, not, ◌||◌, Option, List, [], ◌∷◌, map, ◌≡◌, refl, arith, ==_iff,
  nat_eq, string_eq, ok, raise_if, ok_inj, first_ok, then-eq-ok, raise_if-pass, All,
}
use wmfs.Common.Int.{ℤ, same_int, same_int-eq}
use wmfs.Metadata.Words.{member, has_duplicates}
use wmfs.Outputs.Model.{Descriptor, Spec, wrong_spec, aliased}
use wmfs.Outputs.Reuse.{
  Tensor, Out, out_tensors, same_shape, accept_managed, managed_of, take_output, take_outputs,
  bind_reusable_outputs,
}

same_shape-eq : (a b : List ℤ) → same_shape a b ≡ true → a ≡ b
unfolding same_shape
same_shape-eq [] [] h = refl
same_shape-eq [] (b ∷ right) h = absurd (cc h)
same_shape-eq (a ∷ left) [] h = absurd (cc h)
same_shape-eq (a ∷ left) (b ∷ right) h =
    let (first, rest) = both (same_int a b) (same_shape left right) h in
    ap₂ ◌∷◌ (same_int-eq a b first) (same_shape-eq left right rest)

-- The allocation is none of those listed.
abbrev pub IsApart : ℕ → List ℕ → Type 0
IsApart allocation others = member allocation others ≡ false

abbrev pub IsOf : Spec → Descriptor → Type 0
IsOf spec d = (d.shape ≡ spec.0) × (d.dtype ≡ spec.1)

accept_managed-eq-ok :
    (ins outs : List ℕ) (spec : Spec) (m : Descriptor) {d : Descriptor}
    → accept_managed ins outs spec m ≡ ok d
    → IsOf spec d × IsApart d.allocation_id ins × IsApart d.allocation_id outs
unfolding accept_managed
accept_managed-eq-ok ins outs spec m {d} h =
    let (matches, h1) =
      then-eq-ok
        (raise_if (not (same_shape m.shape (spec.0)) || not (string_eq.beq m.dtype (spec.1)))
          wrong_spec)
        _ h in
    let (apart, h2) =
      then-eq-ok (raise_if (member m.allocation_id ins || member m.allocation_id outs) aliased) _
        h1 in
    let same : not (same_shape m.shape (spec.0)) || not (string_eq.beq m.dtype (spec.1)) ≡ false =
      raise_if-pass _ _ matches in
    let free : member m.allocation_id ins || member m.allocation_id outs ≡ false =
      raise_if-pass _ _ apart in
    subst
      (λ (m : Descriptor). IsOf spec m × IsApart m.allocation_id ins × IsApart m.allocation_id outs)
      (ok_inj h2)
      (
        (
          same_shape-eq m.shape (spec.0) (ground (arith, same)),
          (string_eq.beq_iff m.dtype (spec.1)).0 (ground (arith, same)),
        ),
        ground (arith, free),
        ground (arith, free),
      )

abbrev pub allocations : List Descriptor → List ℕ
allocations ds = map (λ (d : Descriptor). d.allocation_id) ds

abbrev pub AreOf : List Spec → List Descriptor → Type 0
AreOf [] [] = Unit
AreOf (spec ∷ specs) (d ∷ ds) = IsOf spec d × AreOf specs ds
AreOf _ _ = ⊥

-- An allocation apart from each of a list is not one of its members, from either side.
IsApart-All :
    (a : ℕ) (prev : List ℕ) (ds : List Descriptor)
    → All (λ (d : Descriptor). IsApart d.allocation_id (a ∷ prev)) ds
    → IsApart a (allocations ds) × All (λ (d : Descriptor). IsApart d.allocation_id prev) ds
IsApart-All a prev [] h = (refl, tt)
IsApart-All a prev (d ∷ ds) h =
    let (rest, apart) = IsApart-All a prev ds h.1 in
    (ground (arith, h.0, ==_iff a d.allocation_id), (ground (arith, h.0), apart))

abbrev AreTaken : List ℕ → List ℕ → List Spec → List Descriptor → Type 0
AreTaken ins outs specs ds =
    AreOf specs ds
    × All (λ (d : Descriptor). IsApart d.allocation_id ins) ds
    × All (λ (d : Descriptor). IsApart d.allocation_id outs) ds
    × (has_duplicates (allocations ds) ≡ false)

AreTaken-cons :
    (ins outs : List ℕ) (spec : Spec) (specs : List Spec) (d : Descriptor) (ds : List Descriptor)
    → IsOf spec d × IsApart d.allocation_id ins × IsApart d.allocation_id outs
    → AreTaken ins (d.allocation_id ∷ outs) specs ds
    → AreTaken ins outs (spec ∷ specs) (d ∷ ds)
AreTaken-cons ins outs spec specs d ds one all =
    let (apart, others) = IsApart-All d.allocation_id outs ds all.2 in
    ((one.0, all.0), (one.1, all.1), (one.2, others), ground (arith, apart, all.3))

take_outputs-eq-ok :
    (mode : Bool) (ins outs : List ℕ) (values : List (Option Tensor)) (specs : List Spec)
    {ds : List Descriptor}
    → take_outputs mode ins outs values specs ≡ ok ds
    → AreTaken ins outs specs ds
unfolding take_outputs take_output
take_outputs-eq-ok mode ins outs [] [] h =
    subst (AreTaken ins outs []) (ok_inj h) (tt, tt, tt, refl)
take_outputs-eq-ok mode ins outs [] (spec ∷ specs) h = absurd (cc h)
take_outputs-eq-ok mode ins outs (v ∷ values) [] h = absurd (cc h)
take_outputs-eq-ok mode ins outs (v ∷ values) (spec ∷ specs) h =
    let (d, taken, h1) = first_ok (take_output mode ins outs v spec) _ h in
    let (rest, bound, h2) =
      first_ok (take_outputs mode ins (d.allocation_id ∷ outs) values specs) _ h1 in
    let (m, managed, accepted) = first_ok (managed_of mode v) _ taken in
    subst (AreTaken ins outs (spec ∷ specs)) (ok_inj h2) (
      AreTaken-cons ins outs spec specs d rest (accept_managed-eq-ok ins outs spec m accepted)
        (take_outputs-eq-ok mode ins (d.allocation_id ∷ outs) values specs bound))

-- The tensors that are taken are one for each specification, of its shape and its dtype; none of them
-- is in an allocation of an input, and no two are in the same.
pub bind_reusable_outputs-IsApart :
    (mode : Bool) (specs : List Spec) (inputs : List Descriptor) (out : Out) {ds : List Descriptor}
    → bind_reusable_outputs mode specs inputs out ≡ ok ds
    → AreOf specs ds
      × All (λ (d : Descriptor). IsApart d.allocation_id (allocations inputs)) ds
      × (has_duplicates (allocations ds) ≡ false)
unfolding bind_reusable_outputs
bind_reusable_outputs-IsApart mode specs inputs out h =
    let (values, _, h1) = first_ok (out_tensors specs out) _ h in
    let all = take_outputs-eq-ok mode (allocations inputs) [] values specs h1 in
    (all.0, all.1, all.3)
