-- ===== src/Views/Extent.antt =====
-- The extent of a strided view: how far its last element lies from its first.
use wmfs.Common.{ℕ, ◌+◌, ◌-◌, ◌*◌, ◌≤◌, ◌<◌, List, [], ◌∷◌, arith}

-- `sum((dimension - 1) * stride for dimension, stride in zip(shape, byte_strides, strict=True))`;
-- where the lengths differ, which `strict` refuses, the shorter list ends the sum.
unfoldable pub extent : List ℕ → List ℕ → ℕ
extent [] strides = 0
extent (d ∷ ds) [] = 0
extent (d ∷ ds) (s ∷ strides) = (d - 1) * s + extent ds strides

-- The distance of the element at an index from the first one.
unfoldable pub address : List ℕ → List ℕ → ℕ
address [] strides = 0
address (i ∷ is) [] = 0
address (i ∷ is) (s ∷ strides) = i * s + address is strides

-- An index into a shape.
abbrev pub IsIndex : List ℕ → List ℕ → Type 0
IsIndex [] [] = Unit {0}
IsIndex [] (d ∷ ds) = ⊥
IsIndex (i ∷ is) [] = ⊥
IsIndex (i ∷ is) (d ∷ ds) = (i < d) × IsIndex is ds

mul_mono : (i d s : ℕ) → i < d → i * s ≤ (d - 1) * s
mul_mono i d s h = grind arith

-- No element lies beyond the extent.
pub address-le-extent :
    (is ds strides : List ℕ) → IsIndex is ds → address is strides ≤ extent ds strides
unfolding address extent
address-le-extent [] [] strides h = omega arith
address-le-extent [] (d ∷ ds) strides h = absurd h
address-le-extent (i ∷ is) [] strides h = absurd h
address-le-extent (i ∷ is) (d ∷ ds) [] h = omega arith
address-le-extent (i ∷ is) (d ∷ ds) (s ∷ strides) h =
    omega (arith, mul_mono i d s h.0, address-le-extent is ds strides h.1)
