-- ===== src/Views/Contiguous.antt =====
-- packages/wmfs/wmfs/memory/buffers.py: `_element_count`, `_contiguous_strides`, and the layout
-- that `empty` gives a new tensor.
use mathlib.Core.List.{reverse, reverse-cons}
use mathlib.Core.Path.{subst}
use native.Mathlib.Nat.{mul_comm, mul_assoc}
use wmfs.Common.{
  ℕ, zero, suc, ◌+◌, ◌-◌, ◌*◌, ◌<◌, ◌≡◌, refl, ap, ◌∙◌, List, [], ◌∷◌, ◌++◌, map, ◌==◌,
  if◌then◌else◌, any, Bool-cases, inl, inr, false, Result, ok, err, arith,
}
use wmfs.Views.Extent.{extent}

-- The loop of `_element_count`.
unfoldable pub count_from : ℕ → List ℕ → ℕ
count_from count [] = count
count_from count (d ∷ ds) = count_from (count * d) ds

unfoldable pub element_count : List ℕ → ℕ
unfolding count_from
element_count shape = count_from 1 shape

-- The loop of `_contiguous_strides`; the head of the list is what `strides[-1]` is, so that the
-- list is at the end what `reversed(strides)` is.
unfoldable pub strides_loop : List ℕ → List ℕ → List ℕ
strides_loop [] strides = strides
strides_loop (d ∷ ds) [] = []
strides_loop (d ∷ ds) (last ∷ strides) = strides_loop ds ((last * d) ∷ last ∷ strides)

abbrev shape_tail : List ℕ → List ℕ
shape_tail [] = []
shape_tail (d ∷ ds) = ds

unfoldable pub contiguous_strides : List ℕ → List ℕ
unfolding strides_loop
contiguous_strides shape = strides_loop (reverse (shape_tail shape)) (1 ∷ [])

pub data ShapeError : Type 0 where
  not_positive : ShapeError

pub record Layout : Type 0 where
  pub byte_length : ℕ
  pub byte_strides : List ℕ

-- The part of `empty` that computes the layout. A dimension that is not positive is 0 here.
unfoldable pub layout : List ℕ → ℕ → Result ShapeError Layout
unfolding element_count contiguous_strides
layout [] item_size = err not_positive
layout (d ∷ ds) item_size =
    if any (λ n. n == 0) (d ∷ ds)
    then err not_positive
    else ok (record {
      byte_length = element_count (d ∷ ds) * item_size;
      byte_strides = map (λ s. s * item_size) (contiguous_strides (d ∷ ds));
    })

-- The products of the dimensions behind each dimension.
abbrev pub product : List ℕ → ℕ
product [] = 1
product (d ∷ ds) = d * product ds

abbrev pub row_major : List ℕ → List ℕ
row_major [] = []
row_major (d ∷ ds) = product ds ∷ row_major ds

count_from-product : (count : ℕ) (ds : List ℕ) → count_from count ds ≡ count * product ds
unfolding count_from
count_from-product count [] = omega arith
count_from-product count (d ∷ ds) =
    count_from-product (count * d) ds ∙ mul_assoc count d (product ds)

strides_loop-append :
    (xs ys strides : List ℕ)
    → strides_loop (xs ++ ys) strides ≡ strides_loop ys (strides_loop xs strides)
unfolding strides_loop
strides_loop-append [] ys strides = refl
strides_loop-append (x ∷ xs) ys [] = nothing_left ys
  where
    nothing_left : (zs : List ℕ) → [] ≡ strides_loop zs []
    nothing_left [] = refl
    nothing_left (z ∷ zs) = refl
strides_loop-append (x ∷ xs) ys (s ∷ strides) = strides_loop-append xs ys ((s * x) ∷ s ∷ strides)

strides_loop-row_major :
    (d : ℕ) (ds : List ℕ) → strides_loop (reverse ds) (1 ∷ []) ≡ row_major (d ∷ ds)
unfolding strides_loop
strides_loop-row_major d [] = refl
strides_loop-row_major d (x ∷ xs) =
    rw
      (
        reverse-cons x xs,
        strides_loop-append (reverse xs) (x ∷ []) (1 ∷ []),
        strides_loop-row_major x xs,
      )
      (ap (λ n. n ∷ product xs ∷ row_major xs) (mul_comm (product xs) x))

-- The strides are those of the row-major order: each is the product of the dimensions behind its
-- own, and the element count is the product of all.
pub contiguous_strides_lem :
    (d : ℕ) (ds : List ℕ)
    → (contiguous_strides (d ∷ ds) ≡ row_major (d ∷ ds))
      × (element_count (d ∷ ds) ≡ product (d ∷ ds))
unfolding contiguous_strides element_count
contiguous_strides_lem d ds =
    (strides_loop-row_major d ds, count_from-product 1 (d ∷ ds) ∙ omega arith)

scaled_step : (d p k e : ℕ) → 0 < d → e + k ≡ p * k → (d - 1) * (p * k) + e + k ≡ d * p * k
scaled_step zero p k e h g = elim h [ ]
scaled_step (suc d) p k e h g = grind arith

row_major-extent :
    (k : ℕ) (ds : List ℕ)
    → any (λ n. n == 0) ds ≡ false
    → extent ds (map (λ s. s * k) (row_major ds)) + k ≡ product ds * k
unfolding extent
row_major-extent k [] h = omega arith
row_major-extent k (d ∷ ds) h =
    scaled_step d (product ds) k (extent ds (map (λ s. s * k) (row_major ds))) (ground arith)
      (row_major-extent k ds (ground arith))

-- A new tensor spans exactly the bytes that are allocated for it: its last element ends where the
-- allocation ends.
pub layout-extent :
    (shape : List ℕ) (item_size : ℕ) {l : Layout}
    → layout shape item_size ≡ ok l
    → item_size + extent shape l.byte_strides ≡ l.byte_length
unfolding layout
layout-extent [] item_size h = cc
layout-extent (d ∷ ds) item_size {l} h = elim (Bool-cases (any (λ n. n == 0) (d ∷ ds))) [
  | inl bad ↦ absurd (ground arith)
  | inr good ↦
      let e = row_major-extent item_size (d ∷ ds) good in
      let (strides, count) = contiguous_strides_lem d ds in
      subst (λ (m : Layout). item_size + extent (d ∷ ds) m.byte_strides ≡ m.byte_length)
        {x = record {
          byte_length = element_count (d ∷ ds) * item_size;
          byte_strides = map (λ s. s * item_size) (contiguous_strides (d ∷ ds));
        }}
        (ground arith) (rw (strides, count) (omega (arith, e)))
]
