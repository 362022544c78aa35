-- ===== src/Ring/Interleaving/Fifo.antt =====
-- Whatever the order of the two sides' accesses, no record is lost, doubled, reordered or torn.
use wmfs.Common.{ℕ, ◌+◌, ◌-◌, ◌%◌, ◌≤◌, ◌<◌, ◌≡◌, refl, false, List, ◌++◌, ◌==◌, length, arith}
use wmfs.Ring.Window.{window, length-window}
use wmfs.Ring.Interleaving.{
  Pushing, Popping, World, is_impossible, start, Step, Reach, push_load, push_admit, push_full,
  push_break, push_fill, push_store, pop_load, pop_admit, pop_empty, pop_break, pop_copy, pop_store,
  begin, step,
}
use wmfs.Ring.Interleaving.Invariant.{
  possible, PushingOk, PoppingOk, IsValid, push_fill-IsValid, later_pops, later_pushes,
  push_store-IsValid, pop_store-IsValid,
}

module _ {Raw : Type 0} where
  -- A side that moves on in its own round keeps the rest of the invariant.
  pushing_moves :
      {m n : World Raw} (q : Pushing Raw)
      → n ≡ record m { pushing = q }
      → PushingOk m q
      → IsValid m
      → IsValid n
  pushing_moves {m} q e ok v = rw e (record {
    room = v.room;
    ordered = v.ordered;
    bounded = v.bounded;
    content = v.content;
    pushes = same_pushes q ok;
    pops = same_pops m.popping v.pops;
    whole = v.whole;
  })
    where
      same_pushes : (k : Pushing Raw) → PushingOk m k → PushingOk (record m { pushing = q }) k
      same_pushes k h = later_pushes m (record m { pushing = q }) k (omega arith) refl refl refl h

      same_pops : (k : Popping Raw) → PoppingOk m k → PoppingOk (record m { pushing = q }) k
      same_pops k h = later_pops m (record m { pushing = q }) k (omega arith) refl refl refl h

  popping_moves :
      {m n : World Raw} (q : Popping Raw)
      → n ≡ record m { popping = q }
      → PoppingOk m q
      → IsValid m
      → IsValid n
  popping_moves {m} q e ok v = rw e (record {
    room = v.room;
    ordered = v.ordered;
    bounded = v.bounded;
    content = v.content;
    pushes = same_pushes m.pushing v.pushes;
    pops = same_pops q ok;
    whole = v.whole;
  })
    where
      same_pushes : (k : Pushing Raw) → PushingOk m k → PushingOk (record m { popping = q }) k
      same_pushes k h = later_pushes m (record m { popping = q }) k (omega arith) refl refl refl h

      same_pops : (k : Popping Raw) → PoppingOk m k → PoppingOk (record m { popping = q }) k
      same_pops k h = later_pops m (record m { popping = q }) k (omega arith) refl refl refl h

  -- Neither side ever finds impossible counters.
  push_never_breaks :
      {m : World Raw} (x : Raw) (p : ℕ)
      → IsValid m
      → m.pushing ≡ Pushing.loaded x p
      → is_impossible m.capacity p m.consumer ≡ false
  push_never_breaks {m} x p v s =
      let e : p ≡ m.producer = rw s at v.pushes in
      possible m.capacity p m.consumer (omega (arith, v.ordered)) (omega (arith, v.bounded))

  pop_never_breaks :
      {m : World Raw} (p : ℕ)
      → IsValid m
      → m.popping ≡ Popping.loaded p
      → is_impossible m.capacity p m.consumer ≡ false
  pop_never_breaks {m} p v s =
      let (below, above) : (p ≤ m.producer) × (m.consumer ≤ p) = rw s at v.pops in
      possible m.capacity p m.consumer above (omega (arith, v.bounded))

  admits_push :
      {m : World Raw} (x : Raw) (p : ℕ)
      → IsValid m
      → m.pushing ≡ Pushing.loaded x p
      → p - m.consumer < m.capacity
      → (p ≡ m.producer) × (m.producer < m.consumer + m.capacity)
  admits_push {m} x p v s space =
      let e : p ≡ m.producer = rw s at v.pushes in (e, omega (arith, v.ordered))

  admits_pop :
      {m : World Raw} (p : ℕ)
      → IsValid m
      → m.popping ≡ Popping.loaded p
      → (p == m.consumer) ≡ false
      → (m.consumer ≡ m.consumer) × (m.consumer < m.producer)
  admits_pop {m} p v s more =
      let (below, above) : (p ≤ m.producer) × (m.consumer ≤ p) = rw s at v.pops in
      (refl, ground arith)

  copies :
      {m : World Raw} (c : ℕ)
      → IsValid m
      → m.popping ≡ Popping.admitted c
      → PoppingOk m (Popping.copied (m.slots (c % m.capacity)) c)
  copies {m} c v s =
      let (e, more) : (c ≡ m.consumer) × (m.consumer < m.producer) = rw s at v.pops in
      (e, more, refl)

  -- Every access of either side keeps the invariant.
  pub Step-IsValid : {m n : World Raw} → Step Raw m n → IsValid m → IsValid n
  Step-IsValid (push_load x s e) v = pushing_moves (Pushing.loaded x _) e refl v
  Step-IsValid (push_admit x p s possible_counters space e) v =
      pushing_moves (Pushing.admitted x p) e (admits_push x p v s space) v
  Step-IsValid (push_full x p s possible_counters full e) v = pushing_moves Pushing.rests e tt v
  Step-IsValid (push_break x p s impossible e) v = absurd (cc (push_never_breaks x p v s))
  Step-IsValid (push_fill x p s e) v = rw e (push_fill-IsValid x p s v)
  Step-IsValid (push_store x p s limit e) v = rw e (push_store-IsValid x p s limit v)
  Step-IsValid (pop_load s e) v = popping_moves (Popping.loaded _) e (omega arith, v.ordered) v
  Step-IsValid (pop_admit p s possible_counters more e) v =
      popping_moves (Popping.admitted _) e (admits_pop p v s more) v
  Step-IsValid (pop_empty p s possible_counters none_left e) v = popping_moves Popping.rests e tt v
  Step-IsValid (pop_break p s impossible e) v = absurd (cc (pop_never_breaks p v s))
  Step-IsValid (pop_copy c s e) v = popping_moves (Popping.copied _ c) e (copies c v s) v
  Step-IsValid (pop_store x c s limit e) v = rw e (pop_store-IsValid x c s limit v)

  start-IsValid :
      (capacity : ℕ) (slots : ℕ → Raw) → 0 < capacity → IsValid (start Raw capacity slots)
  start-IsValid capacity slots h = record {
    room = h;
    ordered = omega arith;
    bounded = omega arith;
    content = refl;
    pushes = tt;
    pops = tt;
    whole = refl;
  }

  pub Reach-IsValid :
      {capacity : ℕ} {slots : ℕ → Raw} {m : World Raw}
      → 0 < capacity
      → Reach Raw capacity slots m
      → IsValid m
  Reach-IsValid h begin = start-IsValid _ _ h
  Reach-IsValid h (step r s) = Step-IsValid s (Reach-IsValid h r)

  -- In every state that the accesses of the two sides reach in any order, on a ring with a slot,
  -- what has been popped is a prefix of what has been pushed, at most `capacity` records are
  -- between, and neither side has found impossible counters.
  pub Reach-fifo :
      {capacity : ℕ} {slots : ℕ → Raw} {m : World Raw}
      → 0 < capacity
      → Reach Raw capacity slots m
      → (rest : List Raw) × (m.sent ≡ m.received ++ rest)
        × (length rest ≤ m.capacity)
        × (m.broken ≡ false)
  Reach-fifo {m = m} h r =
      let v = Reach-IsValid h r in
      (
        window m.slots m.capacity m.consumer (m.producer - m.consumer),
        v.content,
        omega (
          arith,
          length-window m.slots m.capacity m.consumer (m.producer - m.consumer),
          v.bounded,
        ),
        v.whole,
      )
