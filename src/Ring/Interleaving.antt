-- ===== src/Ring/Interleaving.antt =====
-- A producer and a consumer on one ring, with their accesses to the shared memory in any order:
-- each step is one load, one copy of a slot or one store of `push` or `pop` in
-- packages/wmfs/wmfs/transport/ring.py.
pub mod Invariant
pub mod Fifo
use wmfs.Common.{
  ℕ, zero, suc, ◌+◌, ◌-◌, ◌%◌, ◌^◌, ◌≤◌, ◌<◌, ◌≡◌, ◌≢◌, refl, sym, ap, ◌∙◌, Bool, true, false, ◌||◌,
  List, [], ◌∷◌, ◌++◌, ◌==◌, ltb, append_assoc, if◌then◌else◌, length, arith,
}
use wmfs.Ring.Model.{write_slot}
use wmfs.Ring.Window.{window, length-window, window-suc, window-write_ne, slot_ne}

-- The test of `_counters`.
abbrev pub is_impossible : ℕ → ℕ → ℕ → Bool
is_impossible capacity producer consumer =
    ltb producer consumer || ltb capacity (producer - consumer)

module _ (Raw : Type 0) where
  -- How far the producer is with a record: it has loaded its own counter, it has seen space, it has
  -- filled the slot.
  pub data Pushing : Type 0 where
    rests : Pushing
    loaded : Raw → ℕ → Pushing
    admitted : Raw → ℕ → Pushing
    filled : Raw → ℕ → Pushing

  -- How far the consumer is: it has loaded the producer's counter, it has seen a record, it has
  -- read the slot.
  pub data Popping : Type 0 where
    rests : Popping
    loaded : ℕ → Popping
    admitted : ℕ → Popping
    copied : Raw → ℕ → Popping

  -- `sent` and `received` are the records whose counter has been stored, oldest first; `broken`
  -- tells that a side has found impossible counters.
  pub record World : Type 0 where
    pub capacity : ℕ
    pub producer : ℕ
    pub consumer : ℕ
    pub slots : ℕ → Raw
    pub pushing : Pushing
    pub popping : Popping
    pub sent : List Raw
    pub received : List Raw
    pub broken : Bool

  abbrev pub start : ℕ → (ℕ → Raw) → World
  start capacity slots = record {
    capacity = capacity;
    producer = 0;
    consumer = 0;
    slots = slots;
    pushing = Pushing.rests;
    popping = Popping.rests;
    sent = [];
    received = [];
    broken = false;
  }

  -- The counters are 64 bits wide; a run that stores 2 ^ 64 records is left out.
  pub data Step (m n : World) : Type 0 where
    push_load :
        (x : Raw)
        → m.pushing ≡ Pushing.rests
        → n ≡ record m { pushing = Pushing.loaded x m.producer }
        → Step m n
    push_admit :
        (x : Raw) (p : ℕ)
        → m.pushing ≡ Pushing.loaded x p
        → is_impossible m.capacity p m.consumer ≡ false
        → p - m.consumer < m.capacity
        → n ≡ record m { pushing = Pushing.admitted x p }
        → Step m n
    push_full :
        (x : Raw) (p : ℕ)
        → m.pushing ≡ Pushing.loaded x p
        → is_impossible m.capacity p m.consumer ≡ false
        → m.capacity ≤ p - m.consumer
        → n ≡ record m { pushing = Pushing.rests }
        → Step m n
    push_break :
        (x : Raw) (p : ℕ)
        → m.pushing ≡ Pushing.loaded x p
        → is_impossible m.capacity p m.consumer ≡ true
        → n ≡ record m { broken = true }
        → Step m n
    push_fill :
        (x : Raw) (p : ℕ)
        → m.pushing ≡ Pushing.admitted x p
        → n
          ≡ record m { slots = write_slot m.slots (p % m.capacity) x; pushing = Pushing.filled x p }
        → Step m n
    push_store :
        (x : Raw) (p : ℕ)
        → m.pushing ≡ Pushing.filled x p
        → p + 1 < 2 ^ 64
        → n ≡ record m {
          producer = (p + 1) % 2 ^ 64;
          pushing = Pushing.rests;
          sent = m.sent ++ x ∷ [];
        }
        → Step m n
    pop_load :
        m.popping ≡ Popping.rests → n ≡ record m { popping = Popping.loaded m.producer } → Step m n
    pop_admit :
        (p : ℕ)
        → m.popping ≡ Popping.loaded p
        → is_impossible m.capacity p m.consumer ≡ false
        → (p == m.consumer) ≡ false
        → n ≡ record m { popping = Popping.admitted m.consumer }
        → Step m n
    pop_empty :
        (p : ℕ)
        → m.popping ≡ Popping.loaded p
        → is_impossible m.capacity p m.consumer ≡ false
        → (p == m.consumer) ≡ true
        → n ≡ record m { popping = Popping.rests }
        → Step m n
    pop_break :
        (p : ℕ)
        → m.popping ≡ Popping.loaded p
        → is_impossible m.capacity p m.consumer ≡ true
        → n ≡ record m { broken = true }
        → Step m n
    pop_copy :
        (c : ℕ)
        → m.popping ≡ Popping.admitted c
        → n ≡ record m { popping = Popping.copied (m.slots (c % m.capacity)) c }
        → Step m n
    pop_store :
        (x : Raw) (c : ℕ)
        → m.popping ≡ Popping.copied x c
        → c + 1 < 2 ^ 64
        → n ≡ record m {
          consumer = (c + 1) % 2 ^ 64;
          popping = Popping.rests;
          received = m.received ++ x ∷ [];
        }
        → Step m n

  pub data Reach (capacity : ℕ) (slots : ℕ → Raw) : World → Type 0 where
    begin : Reach capacity slots (start capacity slots)
    step : {m n : World} → Reach capacity slots m → Step m n → Reach capacity slots n
