-- ===== src/Ring/Queue.antt =====
-- The ring is a bounded queue of records, in the order in which they are pushed.
use mathlib.Core.Path.{subst}
use wmfs.Common.{
  ℕ, suc, ◌+◌, ◌-◌, ◌%◌, ◌^◌, ◌≤◌, ◌<◌, ◌≡◌, refl, sym, ap, ◌∙◌, true, false, some, none, List, [],
  ◌∷◌, ◌++◌, ◌==◌, ltb, length, Result, ok, err, arith, Bool-cases, inl, inr, ◌⊎◌,
}
use wmfs.Ring.Model.{RingError, Ring, write_slot, new_ring, counters, try_push, Codec, try_pop}
use wmfs.Ring.Window.{window, pending, length-window, window-push}

-- The counters of a ring; they are 64 bits wide and never get near to their end.
pub record IsValid {Raw : Type 0} (r : Ring Raw) : Type 0 where
  pub room : 0 < r.capacity
  pub ordered : r.consumer ≤ r.producer
  pub bounded : r.producer - r.consumer ≤ r.capacity

next_count : (p c : ℕ) → c ≤ p → p + 1 < 2 ^ 64 → (p + 1) % 2 ^ 64 - c ≡ suc (p - c)
next_count p c h room = omega arith

module _ {Raw : Type 0} where
  pub new_ring-IsValid :
      (capacity generation : ℕ) (zeroed : Raw) {r : Ring Raw}
      → new_ring capacity generation zeroed ≡ ok r
      → IsValid r × (pending r ≡ [])
  unfolding new_ring
  new_ring-IsValid capacity generation zeroed {r} h = elim (Bool-cases (capacity == 0)) [
    | inl bad ↦ absurd (ground arith)
    | inr good ↦ elim (Bool-cases (generation == 0)) [
      | inl unset ↦ absurd (ground arith)
      | inr there ↦
          subst {A = Ring Raw} (λ s. IsValid s × (pending s ≡ []))
            {x = record {
              capacity = capacity;
              generation = generation;
              producer = 0;
              consumer = 0;
              closed = false;
              slots = λ i. zeroed;
              data_event = 0;
              space_event = 0;
            }}
            (ground arith)
            (record { room = ground arith; ordered = omega arith; bounded = omega arith }, refl)
    ]
  ]

  pub counters-IsValid : {r : Ring Raw} → IsValid r → counters r ≡ ok (r.producer, r.consumer)
  unfolding counters
  counters-IsValid v = ground arith

  -- A valid ring refuses a record exactly when it holds `capacity` of them; otherwise the record
  -- goes behind those that are pending, and the ring stays valid.
  pub try_push_lem :
      {r : Ring Raw} (payload : Raw)
      → IsValid r
      → r.producer + 1 < 2 ^ 64
      → ((length (pending r) ≡ r.capacity) × (try_push r payload ≡ ok none))
        ⊎ ((r' : Ring Raw) × (try_push r payload ≡ ok (some r'))
            × (pending r' ≡ pending r ++ payload ∷ [])
            × IsValid r'
            × (r'.data_event ≡ r.data_event + 1))
  unfolding try_push
  try_push_lem {r} payload v room = elim (Bool-cases (ltb (r.producer - r.consumer) r.capacity)) [
    | inl space ↦ inr (
      record r {
        slots = write_slot r.slots (r.producer % r.capacity) payload;
        producer = (r.producer + 1) % 2 ^ 64;
        data_event = r.data_event + 1;
      },
      ground arith,
      rw (next_count r.producer r.consumer v.ordered room) (
          window-push r.slots r.capacity payload r.consumer (r.producer - r.consumer) r.producer
            (omega arith) (ground arith)),
      record { room = v.room; ordered = omega arith; bounded = ground arith },
      refl,
    )
    | inr full ↦ inl (
      length-window r.slots r.capacity r.consumer (r.producer - r.consumer) ∙ ground arith,
      ground arith,
    )
  ]

none_between : (p c : ℕ) → (p == c) ≡ true → p - c ≡ 0
none_between p c h = ground arith

one_between : (p c : ℕ) → (p == c) ≡ false → c ≤ p → p - c ≡ suc (p - (c + 1))
one_between p c h g = ground arith

next_position : (p c : ℕ) → (p == c) ≡ false → c ≤ p → p < 2 ^ 64 → (c + 1) % 2 ^ 64 ≡ c + 1
next_position p c h g room = ground arith

try_push-producer :
    {Raw : Type 0} (r : Ring Raw) (raw : Raw) {r' : Ring Raw}
    → try_push r raw ≡ ok (some r')
    → r'.producer < 2 ^ 64
unfolding try_push
try_push-producer {Raw} r raw {r'} h = ground (arith, h)

module _ (codec : Codec) where
  open codec use {Item, Raw, encode, decode, IsExact, decode-encode}

  -- What a pop of a ring does whose oldest record decodes to the given result, before the rest.
  abbrev pub IsPopped : Ring Raw → List Raw → Result RingError Item → Type 0
  IsPopped r rest (err e) = try_pop codec r ≡ err e
  IsPopped r rest (ok item) =
      (r' : Ring Raw) × (try_pop codec r ≡ ok (some (item, r')))
      × (pending r' ≡ rest)
      × IsValid r'
      × (r'.space_event ≡ r.space_event + 1)

  -- A valid ring has nothing to give exactly when nothing is pending. Otherwise it gives what the
  -- oldest record decodes to and drops that record; a record that does not decode raises and stays.
  pub try_pop_lem :
      {r : Ring Raw}
      → IsValid r
      → r.producer < 2 ^ 64
      → ((pending r ≡ []) × (try_pop codec r ≡ ok none))
        ⊎ ((raw : Raw) × (rest : List Raw) × (pending r ≡ raw ∷ rest)
            × IsPopped r rest (decode raw))
  unfolding try_pop
  try_pop_lem {r} v room = elim (Bool-cases (r.producer == r.consumer)) [
    | inl same ↦ inl (rw (none_between r.producer r.consumer same), ground arith)
    | inr more ↦ inr (
      oldest,
      rest,
      rw (one_between r.producer r.consumer more v.ordered),
      popped more (decode oldest) refl,
    )
  ]
    where
      oldest : Raw
      oldest = r.slots (r.consumer % r.capacity)

      rest : List Raw
      rest = window r.slots r.capacity (r.consumer + 1) (r.producer - (r.consumer + 1))

      popped :
          (r.producer == r.consumer) ≡ false
          → (found : Result RingError Item) → decode oldest ≡ found
          → IsPopped r rest found
      popped more (err e) broken = ground arith
      popped more (ok item) decoded = (
        record r { consumer = (r.consumer + 1) % 2 ^ 64; space_event = r.space_event + 1 },
        ground arith,
        rw (next_position r.producer r.consumer more v.ordered room),
        record { room = v.room; ordered = ground arith; bounded = ground arith },
        refl,
      )

  -- What is pushed on a valid ring with nothing pending is what is popped next, and nothing is pending
  -- after it, for a record that the codec neither wraps nor cuts.
  pub try_pop-try_push :
      {r r' : Ring Raw} (x : Item) {raw : Raw}
      → IsValid r
      → r.producer + 1 < 2 ^ 64
      → pending r ≡ []
      → IsExact x
      → encode x ≡ ok raw
      → try_push r raw ≡ ok (some r')
      → (r'' : Ring Raw) × (try_pop codec r' ≡ ok (some (x, r''))) × (pending r'' ≡ [])
  try_pop-try_push {r} {r'} x {raw} v room none_pending exact encoded pushed =
      elim (try_push_lem raw v room) [
        | inl (_, full) ↦ absurd (cc (full, pushed))
        | inr (s, done, behind, valid, _) ↦
            let same : s ≡ r' = cc (done, pushed) in
            let valid' : IsValid r' = subst IsValid same valid in
            let one : pending r' ≡ raw ∷ [] =
              ap pending (sym same) ∙ behind ∙ ap (λ raws. raws ++ raw ∷ []) none_pending in
            elim (try_pop_lem valid' (try_push-producer r raw pushed)) [
              | inl (empty, _) ↦ absurd (cc (empty, one))
              | inr (raw', rest, there, gives) ↦
                  let first : raw' ≡ raw = cc (there, one) in
                  let no_more : rest ≡ [] = cc (there, one) in
                  let decoded : decode raw' ≡ ok x =
                    ap decode first ∙ decode-encode x exact encoded in
                  let (r'', popped, left, _, _) : IsPopped r' rest (ok x) =
                    subst (IsPopped r' rest) decoded gives in
                  (r'', popped, left ∙ no_more)
            ]
      ]
