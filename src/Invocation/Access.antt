-- ===== src/Invocation/Access.antt =====
-- packages/wmfs/wmfs/invocation.py: `reserve_invocation_access`. Of a tensor counts what
-- `buffers.managed` gives for it: the key of its allocation, or none.
use wmfs.Common.{
  ℕ, ◌+◌, ◌≤◌, ◌<◌, ◌≡◌, refl, ap, ◌∙◌, ◌⊎◌, inl, inr, Bool, true, false, ◌&&◌, ◌||◌, Bool-cases,
  Option, none, some, List, [], ◌∷◌, ◌++◌, if◌then◌else◌, any, Result, arith,
}
use wmfs.Common.Dict
use wmfs.Buffers.Access.Keys.{AccessKey, key_eq, access_key_eq}
use wmfs.Buffers.Access.Model.{Accesses, Waiter, Manager, AccessError, requested, reserve_access}
use wmfs.Buffers.Access.Counts.{count_items, held}
use wmfs.Buffers.Access.Exclusion.{held-append}
use wmfs.Buffers.Access.Requests.{requested_lem}
use wmfs.Buffers.Access.Fairness.{any-append}
use wmfs.Buffers.Access.Steps.{init, Reach, Reach-exclusive}

-- The tensors of a call: its inputs, with true for one that is written, and those that are given for
-- its outputs.
pub record CallTensors : Type 0 where
  pub inputs : List (Option AccessKey × Bool)
  pub outs : List (Option AccessKey)

-- The loop over the inputs: what it appends to `reads` and to `writes`.
unfoldable pub input_reads : List (Option AccessKey × Bool) → List AccessKey
input_reads [] = []
input_reads ((none, writable) ∷ inputs) = input_reads inputs
input_reads ((some k, writable) ∷ inputs) =
    let rest = input_reads inputs in if writable then rest else k ∷ rest

unfoldable pub input_writes : List (Option AccessKey × Bool) → List AccessKey
input_writes [] = []
input_writes ((none, writable) ∷ inputs) = input_writes inputs
input_writes ((some k, writable) ∷ inputs) =
    let rest = input_writes inputs in if writable then k ∷ rest else rest

-- The loop over the output values.
unfoldable pub out_writes : List (Option AccessKey) → List AccessKey
out_writes [] = []
out_writes (none ∷ outs) = out_writes outs
out_writes (some k ∷ outs) = k ∷ out_writes outs

-- `writes` after the two loops
abbrev pub call_writes : CallTensors → List AccessKey
call_writes c = input_writes c.inputs ++ out_writes c.outs

-- `reserve_invocation_access`, up to the first wait of `reserve_access`
unfoldable pub reserve_invocation_access : Manager → ℕ → CallTensors → Result AccessError Manager
reserve_invocation_access m i c = reserve_access m i (input_reads c.inputs) (call_writes c)

-- The accesses that `reserve_access` makes of them.
abbrev pub call_accesses : CallTensors → Accesses
call_accesses c = requested (input_reads c.inputs) (call_writes c)

-- The tensor lies in the allocation.
abbrev pub lies_in : AccessKey → Option AccessKey → Bool
lies_in k none = false
lies_in k (some j) = key_eq j k

-- A tensor of the call lies in the allocation, and one that it may write does.
abbrev pub is_used : AccessKey → CallTensors → Bool
is_used k c = any (λ (t, writable). lies_in k t) c.inputs || any (lies_in k) c.outs

abbrev pub is_written : AccessKey → CallTensors → Bool
is_written k c = any (λ (t, writable). writable && lies_in k t) c.inputs || any (lies_in k) c.outs

is_written-inputs :
    (k : AccessKey) (inputs : List (Option AccessKey × Bool))
    → any (λ j. key_eq j k) (input_writes inputs)
      ≡ any (λ (t, writable). writable && lies_in k t) inputs
unfolding input_writes
is_written-inputs k [] = refl
is_written-inputs k ((none, writable) ∷ inputs) = ground (arith, is_written-inputs k inputs)
is_written-inputs k ((some j, writable) ∷ inputs) = ground (arith, is_written-inputs k inputs)

is_used-inputs :
    (k : AccessKey) (inputs : List (Option AccessKey × Bool))
    → (any (λ j. key_eq j k) (input_writes inputs) || any (λ j. key_eq j k) (input_reads inputs))
      ≡ any (λ (t, writable). lies_in k t) inputs
unfolding input_writes input_reads
is_used-inputs k [] = refl
is_used-inputs k ((none, writable) ∷ inputs) = ground (arith, is_used-inputs k inputs)
is_used-inputs k ((some j, writable) ∷ inputs) = ground (arith, is_used-inputs k inputs)

is_written-outs :
    (k : AccessKey) (outs : List (Option AccessKey))
    → any (λ j. key_eq j k) (out_writes outs) ≡ any (lies_in k) outs
unfolding out_writes
is_written-outs k [] = refl
is_written-outs k (none ∷ outs) = is_written-outs k outs
is_written-outs k (some j ∷ outs) = ground (arith, is_written-outs k outs)

-- What a call asks for of an allocation.
get-call_accesses :
    (k : AccessKey) (c : CallTensors)
    → Dict.get k (call_accesses c)
      ≡ (if is_written k c then some true else if is_used k c then some false else none)
get-call_accesses k c = ground (
  arith,
  (requested_lem (input_reads c.inputs) (call_writes c) k).0,
  any-append (λ j. key_eq j k) (input_writes c.inputs) (out_writes c.outs),
  is_written-inputs k c.inputs,
  is_used-inputs k c.inputs,
  is_written-outs k c.outs,
)

count-get :
    (k : AccessKey) (b : Bool) (acc : Accesses) → Dict.get k acc ≡ some b → 0 < count_items k b acc
unfolding Dict.get
count-get k b [] h = absurd (cc h)
count-get k true ((j, true) ∷ acc) h = ground (arith, count-get k true acc)
count-get k true ((j, false) ∷ acc) h = ground (arith, count-get k true acc)
count-get k false ((j, true) ∷ acc) h = ground (arith, count-get k false acc)
count-get k false ((j, false) ∷ acc) h = ground (arith, count-get k false acc)

-- A call that uses an allocation counts among its readers or writers, among its writers where it may
-- write it.
count-call_accesses :
    (k : AccessKey) (c : CallTensors)
    → is_used k c ≡ true
    → (0 < count_items k true (call_accesses c))
      ⊎ ((is_written k c ≡ false) × (0 < count_items k false (call_accesses c)))
count-call_accesses k c used = elim (Bool-cases (is_written k c)) [
  | inl written ↦ inl (count-get k true (call_accesses c) (get-call_accesses k c ∙ rw written refl))
  | inr read ↦
      inr (read, count-get k false (call_accesses c) (get-call_accesses k c ∙ rw (read, used) refl))
]

-- Two leases among those that are held.
held-two :
    (k : AccessKey) (b : Bool) (before between after : List Waiter) (v w : Waiter)
    → count_items k b v.accesses + count_items k b w.accesses
      ≤ held k b (before ++ v ∷ (between ++ w ∷ after))
held-two k b before between after v w = omega (
  arith,
  held-append k b before (v ∷ (between ++ w ∷ after)),
  held-append k b between (w ∷ after),
)

-- Of two calls that hold their leases at once, in any state that the threads reach, both have tensors
-- in an allocation only where neither may write it.
pub Reach-isolated :
    {m : Manager} (before between after : List Waiter) (v w : Waiter) (a b : CallTensors)
    → Reach init m
    → m.granted ≡ before ++ v ∷ (between ++ w ∷ after)
    → v.accesses ≡ call_accesses a
    → w.accesses ≡ call_accesses b
    → (k : AccessKey)
    → (is_used k a ≡ false)
      ⊎ ((is_used k b ≡ false) ⊎ ((is_written k a ≡ false) × (is_written k b ≡ false)))
Reach-isolated {m} before between after v w a b reached leases first second k =
    elim (Bool-cases (is_used k a)) [
      | inr apart ↦ inl apart
      | inl here ↦ elim (Bool-cases (is_used k b)) [
        | inr apart ↦ inr (inl apart)
        | inl there ↦
            inr (inr (neither (count-call_accesses k a here) (count-call_accesses k b there)))
      ]
    ]
  where
    shared :
        (mode : Bool)
        → count_items k mode (call_accesses a) + count_items k mode (call_accesses b)
          ≤ held k mode m.granted
    shared mode = omega (
      arith,
      held-two k mode before between after v w,
      ap (held k mode) leases,
      ap (count_items k mode) first,
      ap (count_items k mode) second,
    )

    neither :
        (0 < count_items k true (call_accesses a))
          ⊎ ((is_written k a ≡ false) × (0 < count_items k false (call_accesses a)))
        → (0 < count_items k true (call_accesses b))
          ⊎ ((is_written k b ≡ false) × (0 < count_items k false (call_accesses b)))
        → (is_written k a ≡ false) × (is_written k b ≡ false)
    neither (inr (read, _)) (inr (also, _)) = (read, also)
    neither (inl written) (inl also) =
        absurd (omega (arith, written, also, shared true, (Reach-exclusive reached k).0))
    neither (inl written) (inr (_, also)) =
        absurd
          (omega (arith, written, also, shared true, shared false, (Reach-exclusive reached k).1))
    neither (inr (_, read)) (inl also) =
        absurd (omega (arith, read, also, shared true, shared false, (Reach-exclusive reached k).1))
