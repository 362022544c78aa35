-- ===== src/Ring/Interleaving/Invariant.antt =====
-- What holds between the accesses of the two sides, and how a filled slot, a stored counter and a
-- taken record keep it.
use wmfs.Common.{
  ℕ, suc, ◌+◌, ◌-◌, ◌%◌, ◌^◌, ◌≤◌, ◌<◌, ◌≡◌, refl, sym, ap, ◌∙◌, false, List, [], ◌∷◌, ◌++◌,
  append_assoc, arith,
}
use wmfs.Ring.Model.{write_slot}
use wmfs.Ring.Window.{window, window-suc, window-write_ne, slot_ne}
use wmfs.Ring.Interleaving.{Pushing, Popping, World, is_impossible}

pub possible : (capacity p c : ℕ) → c ≤ p → p ≤ c + capacity → is_impossible capacity p c ≡ false
possible capacity p c h g = ground arith

next_word : (p q : ℕ) → p ≡ q → p + 1 < 2 ^ 64 → (p + 1) % 2 ^ 64 ≡ q + 1
next_word p q e h = omega arith

module _ {Raw : Type 0} where
  abbrev pub PushingOk : World Raw → Pushing Raw → Type 0
  PushingOk m Pushing.rests = Unit {0}
  PushingOk m (Pushing.loaded x p) = p ≡ m.producer
  PushingOk m (Pushing.admitted x p) = (p ≡ m.producer) × (m.producer < m.consumer + m.capacity)
  PushingOk m (Pushing.filled x p) =
      (p ≡ m.producer) × (m.producer < m.consumer + m.capacity) × (m.slots (p % m.capacity) ≡ x)

  abbrev pub PoppingOk : World Raw → Popping Raw → Type 0
  PoppingOk m Popping.rests = Unit {0}
  PoppingOk m (Popping.loaded p) = (p ≤ m.producer) × (m.consumer ≤ p)
  PoppingOk m (Popping.admitted c) = (c ≡ m.consumer) × (m.consumer < m.producer)
  PoppingOk m (Popping.copied x c) =
      (c ≡ m.consumer) × (m.consumer < m.producer) × (m.slots (c % m.capacity) ≡ x)

  pub record IsValid (m : World Raw) : Type 0 where
    pub room : 0 < m.capacity
    pub ordered : m.consumer ≤ m.producer
    pub bounded : m.producer ≤ m.consumer + m.capacity
    pub content :
        m.sent ≡ m.received ++ window m.slots m.capacity m.consumer (m.producer - m.consumer)
    pub pushes : PushingOk m m.pushing
    pub pops : PoppingOk m m.popping
    pub whole : m.broken ≡ false

  -- The consumer's slot is not the one that the producer fills.
  copied_slot :
      {m : World Raw} (x : Raw) (p : ℕ)
      → IsValid m
      → p ≡ m.producer
      → m.producer < m.consumer + m.capacity
      → (q : Popping Raw) → PoppingOk m q
      → PoppingOk (record m { slots = write_slot m.slots (p % m.capacity) x }) q
  copied_slot x p v e space Popping.rests h = tt
  copied_slot x p v e space (Popping.loaded k) h = h
  copied_slot x p v e space (Popping.admitted c) h = h
  copied_slot {m} x p v e space (Popping.copied y c) h =
      (h.0, h.1, slot_ne m.slots m.capacity x c p (omega arith) (omega arith) ∙ h.2)

  pub push_fill-IsValid :
      {m : World Raw} (x : Raw) (p : ℕ)
      → m.pushing ≡ Pushing.admitted x p
      → IsValid m
      → IsValid
          (record m { slots = write_slot m.slots (p % m.capacity) x; pushing = Pushing.filled x p })
  push_fill-IsValid {m} x p s v =
      let (e, space) = rw s at v.pushes in
      record {
        room = v.room;
        ordered = v.ordered;
        bounded = v.bounded;
        content =
            rw
              (window-write_ne m.slots m.capacity x m.consumer (m.producer - m.consumer) p
                (omega arith) (omega arith))
              v.content;
        pushes = (e, space, ground arith);
        pops = copied_slot x p v e space m.popping v.pops;
        whole = v.whole;
      }

  stored :
      (slots : ℕ → Raw) (capacity c p q : ℕ) (x : Raw) (sent received : List Raw)
      → sent ≡ received ++ window slots capacity c (p - c)
      → slots (p % capacity) ≡ x
      → c ≤ p
      → q ≡ p + 1
      → sent ++ x ∷ [] ≡ received ++ window slots capacity c (q - c)
  stored slots capacity c p q x sent received e slot h g =
      let size : q - c ≡ suc (p - c) = omega arith in
      let last : slots ((c + (p - c)) % capacity) ≡ x =
        ap (λ k. slots (k % capacity)) (omega arith) ∙ slot in
      rw (e, size, window-suc slots capacity c (p - c), last) (append_assoc received _ _)

  taken :
      (slots : ℕ → Raw) (capacity c p d : ℕ) (x : Raw) (sent received : List Raw)
      → sent ≡ received ++ window slots capacity c (p - c)
      → slots (c % capacity) ≡ x
      → c < p
      → d ≡ c + 1
      → sent ≡ (received ++ x ∷ []) ++ window slots capacity d (p - d)
  taken slots capacity c p d x sent received e slot h g =
      let size : p - c ≡ suc (p - d) = omega arith in
      e
      ∙ ap (λ n. received ++ window slots capacity c n) size
      ∙ ap (λ k. received ++ slots (c % capacity) ∷ window slots capacity k (p - d)) (sym g)
      ∙ ap (λ y. received ++ y ∷ window slots capacity d (p - d)) slot
      ∙ sym (append_assoc received (x ∷ []) _)

  pub later_pops :
      (m n : World Raw) (q : Popping Raw)
      → m.producer ≤ n.producer
      → n.consumer ≡ m.consumer
      → n.slots ≡ m.slots
      → n.capacity ≡ m.capacity
      → PoppingOk m q
      → PoppingOk n q
  later_pops m n Popping.rests h c s k g = tt
  later_pops m n (Popping.loaded p) h c s k g = omega arith
  later_pops m n (Popping.admitted p) h c s k g = omega arith
  later_pops m n (Popping.copied x p) h c s k g = (omega arith, omega arith, rw (s, k) g.2)

  pub later_pushes :
      (m n : World Raw) (q : Pushing Raw)
      → m.consumer ≤ n.consumer
      → n.producer ≡ m.producer
      → n.slots ≡ m.slots
      → n.capacity ≡ m.capacity
      → PushingOk m q
      → PushingOk n q
  later_pushes m n Pushing.rests h c s k g = tt
  later_pushes m n (Pushing.loaded x p) h c s k g = omega arith
  later_pushes m n (Pushing.admitted x p) h c s k g = omega arith
  later_pushes m n (Pushing.filled x p) h c s k g = (omega arith, omega arith, rw (s, k) g.2)

  pub push_store-IsValid :
      {m : World Raw} (x : Raw) (p : ℕ)
      → m.pushing ≡ Pushing.filled x p
      → p + 1 < 2 ^ 64
      → IsValid m
      → IsValid (record m {
        producer = (p + 1) % 2 ^ 64;
        pushing = Pushing.rests;
        sent = m.sent ++ x ∷ [];
      })
  push_store-IsValid {m} x p s limit v =
      let (e, space, slot) = rw s at v.pushes in
      let next = next_word p m.producer e limit in
      record {
        room = v.room;
        ordered = omega (arith, next, v.ordered);
        bounded = omega (arith, next);
        content =
            stored m.slots m.capacity m.consumer m.producer _ x m.sent m.received v.content
              (rw (← e) slot) v.ordered next;
        pushes = tt;
        pops =
            later_pops m
              (record m {
                producer = (p + 1) % 2 ^ 64;
                pushing = Pushing.rests;
                sent = m.sent ++ x ∷ [];
              })
              m.popping (omega (arith, next)) refl refl refl v.pops;
        whole = v.whole;
      }

  pub pop_store-IsValid :
      {m : World Raw} (x : Raw) (c : ℕ)
      → m.popping ≡ Popping.copied x c
      → c + 1 < 2 ^ 64
      → IsValid m
      → IsValid (record m {
        consumer = (c + 1) % 2 ^ 64;
        popping = Popping.rests;
        received = m.received ++ x ∷ [];
      })
  pop_store-IsValid {m} x c s limit v =
      let (e, some_record, slot) = rw s at v.pops in
      let next = next_word c m.consumer e limit in
      record {
        room = v.room;
        ordered = omega (arith, next);
        bounded = omega (arith, next, v.bounded);
        content =
            taken m.slots m.capacity m.consumer m.producer _ x m.sent m.received v.content
              (rw (← e) slot) some_record next;
        pushes =
            later_pushes m
              (record m {
                consumer = (c + 1) % 2 ^ 64;
                popping = Popping.rests;
                received = m.received ++ x ∷ [];
              })
              m.pushing (omega (arith, next)) refl refl refl v.pushes;
        pops = tt;
        whole = v.whole;
      }
