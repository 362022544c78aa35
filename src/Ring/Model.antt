-- ===== src/Ring/Model.antt =====
-- packages/wmfs/wmfs/transport/ring.py: `RingOwner` and `RingEndpoint`. A slot of the mapping is
-- the item of `slots` at its index; the 16384 bytes in it are a value of the type `Raw`.
use wmfs.Common.{
  ℕ, ◌+◌, ◌-◌, ◌%◌, ◌^◌, ◌≡◌, Bool, true, false, not, ◌||◌, Option, some, none, List, [], ◌∷◌, ◌==◌,
  ltb, if◌then◌else◌, Result, ok, err, ◌>>=◌, ◌>>◌, raise_if,
}

pub data RingError : Type 0 where
  invalid_record : RingError
  impossible_counters : RingError
  ring_closed : RingError
  timed_out : RingError
  wrong_side : RingError
  bad_capacity : RingError
  bad_generation : RingError
  invalid_header : RingError

-- The record codec that an endpoint uses. Its law is its round trip, for the records that the codec
-- neither wraps nor cuts.
pub record Codec : Type 1 where
  pub Item : Type 0
  pub Raw : Type 0
  pub encode : Item → Result RingError Raw
  pub decode : Raw → Result RingError Item
  pub IsExact : Item → Type 0
  pub decode-encode : (x : Item) {raw : Raw} → IsExact x → encode x ≡ ok raw → decode raw ≡ ok x

-- What the two processes share: the header's counters and its closed bit, the slots, and the
-- counters of the two eventfds.
pub record Ring (Raw : Type 0) : Type 0 where
  pub capacity : ℕ
  pub generation : ℕ
  pub producer : ℕ
  pub consumer : ℕ
  pub closed : Bool
  pub slots : ℕ → Raw
  pub data_event : ℕ
  pub space_event : ℕ

abbrev pub write_slot {ℓ} : {R : Type ℓ} → (ℕ → R) → ℕ → R → ℕ → R
write_slot slots i raw j = if i == j then raw else slots j

module _ {Raw : Type 0} where
  -- `RingOwner.__init__`: the mapping is zeroed.
  unfoldable pub new_ring : ℕ → ℕ → Raw → Result RingError (Ring Raw)
  new_ring capacity generation zeroed = do
    raise_if (capacity == 0) bad_capacity
    raise_if (generation == 0) bad_generation
    ok (record {
      capacity = capacity;
      generation = generation;
      producer = 0;
      consumer = 0;
      closed = false;
      slots = λ i. zeroed;
      data_event = 0;
      space_event = 0;
    })

  -- `_counters`
  unfoldable pub counters : Ring Raw → Result RingError (ℕ × ℕ)
  counters r =
      if ltb r.producer r.consumer || ltb r.capacity (r.producer - r.consumer)
      then err impossible_counters
      else ok (r.producer, r.consumer)

  -- One round of the loop of `push`: nothing where the ring is full. The counter is a `c_uint64`.
  unfoldable pub try_push : Ring Raw → Raw → Result RingError (Option (Ring Raw))
  unfolding counters
  try_push r payload = do
    (producer, consumer) ← counters r
    ok (
        if ltb (producer - consumer) r.capacity
        then some (record r {
          slots = write_slot r.slots (producer % r.capacity) payload;
          producer = (producer + 1) % 2 ^ 64;
          data_event = r.data_event + 1;
        })
        else none)

  -- `interrupt` of an endpoint, whose `_interrupted` is the first argument: the bit is set and both
  -- sides are woken.
  unfoldable pub interrupt : Bool → Ring Raw → Bool × Ring Raw
  interrupt interrupted r = if interrupted then (true, r) else (
    true,
    record r { closed = true; data_event = r.data_event + 1; space_event = r.space_event + 1 },
  )

-- How a wait on an eventfd ends: another round finds the ring as the other side has left it, or
-- the deadline passes.
pub data Wake (Raw : Type 0) : Type 0 where
  woken : Ring Raw → Wake Raw
  expired : Wake Raw

module _ (codec : Codec) where
  open codec use {Item, Raw, encode, decode}

  -- One round of the loop of `pop`. A record that does not decode raises before the counter moves.
  unfoldable pub try_pop : Ring Raw → Result RingError (Option (Item × Ring Raw))
  unfolding counters
  try_pop r = do
    (producer, consumer) ← counters r
    if producer == consumer then ok none else do
      item ← decode (r.slots (consumer % r.capacity))
      ok (
          some (
            item,
            record r { consumer = (consumer + 1) % 2 ^ 64; space_event = r.space_event + 1 },
          ))

  -- The loop of `push`, for the ends of its waits; `none` is a wait that has not ended.
  unfoldable pub push_loop : Ring Raw → Raw → List (Wake Raw) → Result RingError (Option (Ring Raw))
  unfolding try_push
  push_loop r payload [] = do
    pushed ← try_push r payload
    elim pushed [ some r' ↦ ok (some r') | none ↦ if r.closed then err ring_closed else ok none ]
  push_loop r payload (w ∷ ws) = do
    pushed ← try_push r payload
    elim pushed [
      | some r' ↦ ok (some r')
      | none ↦
          if r.closed
          then err ring_closed
          else elim w [ woken r' ↦ push_loop r' payload ws | expired ↦ err timed_out ]
    ]

  -- `push`
  unfoldable pub push :
      Bool → Ring Raw → Item → List (Wake Raw) → Result RingError (Option (Ring Raw))
  unfolding push_loop
  push is_producer r item wakes = do
    raise_if (not is_producer) wrong_side
    payload ← encode item
    push_loop r payload wakes

  -- The loop of `pop`.
  unfoldable pub pop_loop : Ring Raw → List (Wake Raw) → Result RingError (Option (Item × Ring Raw))
  unfolding try_pop
  pop_loop r [] = do
    popped ← try_pop r
    elim popped [ some x ↦ ok (some x) | none ↦ if r.closed then err ring_closed else ok none ]
  pop_loop r (w ∷ ws) = do
    popped ← try_pop r
    elim popped [
      | some x ↦ ok (some x)
      | none ↦
          if r.closed
          then err ring_closed
          else elim w [ woken r' ↦ pop_loop r' ws | expired ↦ err timed_out ]
    ]

  -- `pop`
  unfoldable pub pop :
      Bool → Ring Raw → List (Wake Raw) → Result RingError (Option (Item × Ring Raw))
  unfolding pop_loop
  pop is_producer r wakes = do raise_if is_producer wrong_side; pop_loop r wakes
