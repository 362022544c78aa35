-- ===== src/Metadata/Reader.antt =====
-- packages/wmfs/wmfs/protocol/metadata.py: reading an expression from a message. The message is a
-- third party's: a node of it is a value of any type, and `which()` with the accessors of its member
-- is a parameter. Nothing says that the nodes are finitely nested.
use Prim.Native.Nat.{max}
use wmfs.Common.{
  ℕ, zero, suc, ◌+◌, ◌≤◌, Bool, true, false, List, [], ◌∷◌, leb, ◌≡◌, refl, arith, Result, ok, err,
  ◌>>=◌,
}
use wmfs.Common.Int.{ℤ}
use wmfs.Metadata.Model.{DimensionExpression, Dimensions, none_left, dimension}
use wmfs.Metadata.Words.{max_expression_depth}

-- What `which()` and the accessors tell of a node.
pub data Node {ℓ} (N : Type ℓ) : Type ℓ where
  constant : ℤ → Node N
  input_axis : ℤ → ℤ → Node N
  minimum : List N → Node N
  select : ℤ → N → N → Node N

-- Running out of fuel is not an exception of the code.
pub data ReadError : Type 0 where
  too_deep out_of_fuel : ReadError

module _ {ℓ} {N : Type ℓ} where
  -- The loop over the operands of a minimum.
  unfoldable pub read_all :
      (N → Result ReadError DimensionExpression) → List N → Result ReadError Dimensions
  read_all read [] = ok none_left
  read_all read (n ∷ ns) = do e ← read n; es ← read_all read ns; ok (dimension e es)

  -- The members, once the nesting has been checked.
  unfoldable pub read_node :
      (N → Result ReadError DimensionExpression) → Node N → Result ReadError DimensionExpression
  read_node read (constant n) = ok (DimensionExpression.constant n)
  read_node read (input_axis i axis) = ok (DimensionExpression.input_axis i axis)
  read_node read (minimum ns) = do es ← read_all read ns; ok (DimensionExpression.minimum es)
  read_node read (select i t f) = do
    when_true ← read t
    when_false ← read f
    ok (DimensionExpression.select i when_true when_false)

module _ {ℓ} {N : Type ℓ} (which : N → Node N) where
  -- `_dimension_from_reader`, on fuel
  unfoldable pub dimension_from_reader : ℕ → N → ℕ → Result ReadError DimensionExpression
  dimension_from_reader zero n depth = err out_of_fuel
  dimension_from_reader (suc fuel) n depth =
      let rest = read_node (λ m. dimension_from_reader fuel m (depth + 1)) (which n) in
      elim (leb max_expression_depth depth) [ true ↦ err too_deep | false ↦ rest ]

-- How deeply an expression is nested.
unfoldable mutual
  pub nesting : DimensionExpression → ℕ
  nesting (DimensionExpression.constant n) = 1
  nesting (DimensionExpression.input_axis i axis) = 1
  nesting (DimensionExpression.minimum es) = nesting_all es + 1
  nesting (DimensionExpression.select i t f) = max (nesting t) (nesting f) + 1
  nesting DimensionExpression.unknown_dimension = 1

  pub nesting_all : Dimensions → ℕ
  nesting_all none_left = 0
  nesting_all (dimension e es) = max (nesting e) (nesting_all es)

-- The reading ends within its fuel: in an expression that the limit allows, or in its exception.
abbrev pub EndsWithin : ℕ → Result ReadError DimensionExpression → Type 0
EndsWithin depth (ok e) = nesting e + depth ≤ 16
EndsWithin depth (err too_deep) = Unit
EndsWithin depth (err out_of_fuel) = ⊥

abbrev AllEndWithin : ℕ → Result ReadError Dimensions → Type 0
AllEndWithin depth (ok es) = nesting_all es + depth ≤ 16
AllEndWithin depth (err too_deep) = Unit
AllEndWithin depth (err out_of_fuel) = ⊥

module _ {ℓ} {N : Type ℓ} where
  read_all-ends :
      (read : N → Result ReadError DimensionExpression) (depth : ℕ)
      → depth ≤ 16
      → ((m : N) → EndsWithin depth (read m))
      → (ns : List N) → AllEndWithin depth (read_all read ns)
  unfolding read_all nesting
  read_all-ends read depth low each [] = omega (arith, low)
  read_all-ends read depth low each (n ∷ ns) =
      joined (read n) (read_all read ns) (each n) (read_all-ends read depth low each ns)
    where
      joined :
          (r : Result ReadError DimensionExpression) (rs : Result ReadError Dimensions)
          → EndsWithin depth r
          → AllEndWithin depth rs
          → AllEndWithin depth (r >>= λ e. rs >>= λ es. ok (dimension e es))
      joined (ok e) (ok es) h hs = ground (arith, h, hs)
      joined (ok e) (err too_deep) h hs = tt
      joined (ok e) (err out_of_fuel) h hs = hs
      joined (err too_deep) rs h hs = tt
      joined (err out_of_fuel) rs h hs = h

  read_node-ends :
      (read : N → Result ReadError DimensionExpression) (depth : ℕ)
      → depth + 1 ≤ 16
      → ((m : N) → EndsWithin (depth + 1) (read m))
      → (node : Node N) → EndsWithin depth (read_node read node)
  unfolding read_node nesting
  read_node-ends read depth low each (constant n) = omega arith
  read_node-ends read depth low each (input_axis i axis) = omega arith
  read_node-ends read depth low each (minimum ns) =
      whole (read_all read ns) (read_all-ends read (depth + 1) low each ns)
    where
      whole :
          (rs : Result ReadError Dimensions)
          → AllEndWithin (depth + 1) rs
          → EndsWithin depth (rs >>= λ es. ok (DimensionExpression.minimum es))
      whole (ok es) h = omega (arith, h)
      whole (err too_deep) h = tt
      whole (err out_of_fuel) h = h
  read_node-ends read depth low each (select i t f) = branches (read t) (read f) (each t) (each f)
    where
      branches :
          (r s : Result ReadError DimensionExpression)
          → EndsWithin (depth + 1) r
          → EndsWithin (depth + 1) s
          → EndsWithin depth (r >>= λ a. s >>= λ b. ok (DimensionExpression.select i a b))
      branches (ok a) (ok b) h g = ground (arith, h, g)
      branches (ok a) (err too_deep) h g = tt
      branches (ok a) (err out_of_fuel) h g = g
      branches (err too_deep) s h g = tt
      branches (err out_of_fuel) s h g = h

module _ {ℓ} {N : Type ℓ} (which : N → Node N) where
  -- From a depth of at most 16, fuel for the levels that are left and one more is enough, whatever the
  -- nodes are, also if a node contains itself: the reading raises its exception or returns an
  -- expression nested at most as deeply as the levels that are left.
  pub dimension_from_reader-EndsWithin :
      (fuel : ℕ) (n : N) (depth : ℕ)
      → depth ≤ 16
      → 17 ≤ fuel + depth
      → EndsWithin depth (dimension_from_reader which fuel n depth)
  unfolding dimension_from_reader
  dimension_from_reader-EndsWithin zero n depth low enough = absurd (omega arith)
  dimension_from_reader-EndsWithin (suc fuel) n depth low enough =
      guarded (leb max_expression_depth depth) _ λ shallow.
        read_node-ends (λ m. dimension_from_reader which fuel m (depth + 1)) depth
          (ground (arith, shallow))
          (λ m.
            dimension_from_reader-EndsWithin fuel m (depth + 1) (ground (arith, shallow))
              (omega arith))
          (which n)
    where
      guarded :
          (b : Bool) (r : Result ReadError DimensionExpression)
          → (b ≡ false → EndsWithin depth r)
          → EndsWithin depth (elim b [ true ↦ err too_deep | false ↦ r ])
      guarded true r h = tt
      guarded false r h = h refl
