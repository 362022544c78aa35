-- ===== src/Ring/Tests.antt =====
-- The ring at concrete records: a record is a number, encoded as it stands up to 250.
use wmfs.Common.{
  ℕ, ◌≤◌, ◌≡◌, refl, true, false, ◌⊎◌, some, none, List, [], ◌∷◌, ◌++◌, ltb, ◌==◌, if◌then◌else◌,
  length, ok, err, arith, Bool-cases, inl, inr,
}
use wmfs.Ring.Model.{
  invalid_record, impossible_counters, ring_closed, timed_out, wrong_side, Codec, Ring, counters,
  try_push, try_pop, write_slot, interrupt, woken, expired, push, pop,
}
use wmfs.Ring.Window.{pending}
use wmfs.Ring.Queue.{IsValid, IsPopped, try_push_lem, try_pop_lem}
use wmfs.Ring.Interleaving.{
  World, Reach, start, begin, step, push_load, push_admit, push_fill, push_store, pop_load,
  pop_admit, pop_empty, pop_copy, Pushing, Popping,
}
use wmfs.Ring.Interleaving.Fifo.{Reach-fifo}

abbrev byte_codec : Codec
byte_codec = record {
  Item = ℕ;
  Raw = ℕ;
  encode = λ x. if ltb x 251 then ok x else err invalid_record;
  decode = λ x. if ltb x 251 then ok x else err invalid_record;
  IsExact = λ x. Unit {0};
  decode-encode = λ x {raw} exact h. elim (Bool-cases (ltb x 251)) [
    | inl small ↦ ground arith
    | inr large ↦ absurd (ground arith)
  ];
}

-- A ring of two slots, the second round just begun: 7 is pending in slot 1.
abbrev one_pending : Ring ℕ
one_pending = record {
  capacity = 2;
  generation = 5;
  producer = 2;
  consumer = 1;
  closed = false;
  slots = λ i. if i == 1 then 7 else 4;
  data_event = 0;
  space_event = 0;
}

one_pending-IsValid : IsValid one_pending
one_pending-IsValid = record { room = omega arith; ordered = omega arith; bounded = omega arith }

try_push_lem_example :
    ((length (pending one_pending) ≡ 2) × (try_push one_pending 9 ≡ ok none))
    ⊎ ((r' : Ring ℕ) × (try_push one_pending 9 ≡ ok (some r'))
        × (pending r' ≡ 7 ∷ 9 ∷ [])
        × IsValid r'
        × (r'.data_event ≡ 1))
try_push_lem_example = try_push_lem 9 one_pending-IsValid (omega arith)

try_pop_lem_example :
    ((pending one_pending ≡ []) × (try_pop byte_codec one_pending ≡ ok none))
    ⊎ ((raw : ℕ) × (rest : List ℕ) × (pending one_pending ≡ raw ∷ rest)
        × IsPopped byte_codec one_pending rest (byte_codec.decode raw))
try_pop_lem_example = try_pop_lem byte_codec one_pending-IsValid (omega arith)

-- A full ring waits, and gives up when the deadline passes or the ring is closed.
abbrev full : Ring ℕ
full = record one_pending { consumer = 0 }

push-full_errors :
    (push byte_codec true full 3 (expired ∷ []) ≡ err timed_out)
    × (push byte_codec true full 3 (woken (interrupt false full).1 ∷ []) ≡ err ring_closed)
    × (push byte_codec false full 3 [] ≡ err wrong_side)
    × (push byte_codec true full 251 [] ≡ err invalid_record)
unfolding push interrupt
push-full_errors = (refl, refl, refl, refl)

pop_one :
    pop byte_codec false one_pending []
    ≡ ok (some (7, record one_pending { consumer = 2; space_event = 1 }))
unfolding pop
pop_one = refl

-- A consumer counter past the producer's is refused.
bad_counters : counters (record one_pending { consumer = 3 }) ≡ err impossible_counters
unfolding counters
bad_counters = refl

-- The producer stores 7 while the consumer, which has looked before, finds nothing; then the
-- producer is in the middle of a second record and the consumer in the middle of the first.
abbrev between : World ℕ
between = record (start ℕ 2 (λ i. 0)) {
  producer = 1;
  slots = write_slot (write_slot (λ i. 0) 0 7) 1 8;
  pushing = Pushing.filled 8 1;
  popping = Popping.copied 7 0;
  sent = 7 ∷ [];
}

one_sent :
    Reach ℕ 2
      (λ i. 0)
      (record (start ℕ 2 (λ i. 0)) { producer = 1; slots = write_slot (λ i. 0) 0 7; sent = 7 ∷ [] })
one_sent =
    step
      (step
        (step
          (step (step (step begin (pop_load refl refl)) (push_load 7 refl refl))
            (push_admit 7 0 refl refl (omega arith) refl))
          (pop_empty 0 refl refl refl refl))
        (push_fill 7 0 refl refl))
      (push_store 7 0 refl (omega arith) refl)

between-Reach : Reach ℕ 2 (λ i. 0) between
between-Reach =
    step
      (step
        (step
          (step (step (step one_sent (push_load 8 refl refl)) (pop_load refl refl))
            (push_admit 8 1 refl refl (omega arith) refl))
          (pop_admit 1 refl refl refl refl))
        (push_fill 8 1 refl refl))
      (pop_copy 0 refl refl)

Reach-fifo_example : (rest : List ℕ) × (7 ∷ [] ≡ [] ++ rest) × (length rest ≤ 2) × (false ≡ false)
Reach-fifo_example = Reach-fifo (omega arith) between-Reach
