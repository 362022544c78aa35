-- ===== src/Ring/Window.antt =====
-- The records that are pushed and not popped yet, oldest first.
use native.Mathlib.Decide.{dec_lt}
use native.Mathlib.Nat.{mod-add-mod, mod-eq_of_lt, mod-eq-sub-mod, mod-lt}
use mathlib.Core.Path.{ap₂}
use wmfs.Common.{
  ℕ, zero, suc, ◌+◌, ◌-◌, ◌%◌, ◌≤◌, ◌<◌, ◌≡◌, ◌≢◌, refl, ap, ◌∙◌, List, [], ◌∷◌, ◌++◌, length,
  arith,
}
use wmfs.Ring.Model.{Ring, write_slot}

module _ {Raw : Type 0} where
  -- The `n` records from the position `c` of the stream on.
  abbrev pub window : (ℕ → Raw) → ℕ → ℕ → ℕ → List Raw
  window slots capacity c zero = []
  window slots capacity c (suc n) = slots (c % capacity) ∷ window slots capacity (c + 1) n

  abbrev pub pending : Ring Raw → List Raw
  pending r = window r.slots r.capacity r.consumer (r.producer - r.consumer)

  pub length-window : (slots : ℕ → Raw) (capacity c n : ℕ) → length (window slots capacity c n) ≡ n
  length-window slots capacity c zero = refl
  length-window slots capacity c (suc n) = ap suc (length-window slots capacity (c + 1) n)

add_back : (c p : ℕ) → c ≤ p → c + (p - c) ≡ p
add_back c p h = omega arith

-- Fewer than `capacity` steps do not come back to the same slot.
pub mod-ne : (c k capacity : ℕ) → 0 < k → k < capacity → c % capacity ≢ (c + k) % capacity
mod-ne c k capacity pos small = elim (dec_lt (c % capacity + k) capacity) [
  | yes below ↦
      omega
        (arith, mod-add-mod c capacity k, mod-eq_of_lt {n = c % capacity + k} {m = capacity} below)
  | no above ↦ omega (
    arith,
    mod-add-mod c capacity k,
    mod-eq-sub-mod {n = c % capacity + k} {m = capacity} (omega arith),
    mod-lt c {m = capacity} (omega arith),
    mod-eq_of_lt {n = c % capacity + k - capacity} {m = capacity}
        (omega (arith, mod-lt c {m = capacity} (omega arith))),
  )
]

-- A write to a slot that no record of the window stands in changes none of them, and one just past
-- the window extends it.
module _ {Raw : Type 0} (slots : ℕ → Raw) (capacity : ℕ) (raw : Raw) where
  pub slot_ne :
      (c p : ℕ)
      → c < p
      → p < c + capacity
      → write_slot slots (p % capacity) raw (c % capacity) ≡ slots (c % capacity)
  slot_ne c p h g = ground (
    arith,
    mod-ne c (p - c) capacity (omega arith) (omega arith),
    ap (λ k. k % capacity) (add_back c p (omega arith)),
  )

  pub window-push :
      (c n p : ℕ)
      → p ≡ c + n
      → n < capacity
      → window (write_slot slots (p % capacity) raw) capacity c (suc n)
        ≡ window slots capacity c n ++ raw ∷ []
  window-push c zero p e h =
      ap (λ r. r ∷ []) (ground (arith, ap (λ k. k % capacity) (at_end c p e)))
    where
      at_end : (c p : ℕ) → p ≡ c + 0 → p ≡ c
      at_end c p e = omega arith
  window-push c (suc n) p e h =
      ap₂ ◌∷◌ (slot_ne c p (omega arith) (omega arith))
        (window-push (c + 1) n p (omega arith) (omega arith))

  -- A write to a slot in which no record of the window stands changes none of them.
  pub window-write_ne :
      (c n p : ℕ)
      → c + n ≤ p
      → p < c + capacity
      → window (write_slot slots (p % capacity) raw) capacity c n ≡ window slots capacity c n
  window-write_ne c zero p h g = refl
  window-write_ne c (suc n) p h g =
      ap₂ ◌∷◌ (slot_ne c p (omega arith) (omega arith))
        (window-write_ne (c + 1) n p (omega arith) (omega arith))

-- A window that grows by a position takes the record that stands there.
pub window-suc :
    {Raw : Type 0} (slots : ℕ → Raw) (capacity c n : ℕ)
    → window slots capacity c (suc n) ≡ window slots capacity c n ++ slots ((c + n) % capacity) ∷ []
window-suc slots capacity c zero = ap (λ k. slots (k % capacity) ∷ []) (omega arith)
window-suc slots capacity c (suc n) =
    ap (λ w. slots (c % capacity) ∷ w)
      (window-suc slots capacity (c + 1) n
        ∙ ap (λ k. window slots capacity (c + 1) n ++ slots (k % capacity) ∷ []) (omega arith))
