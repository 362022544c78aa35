-- ===== src/Ring/Record/Signed.antt =====
-- Tables that are read backwards, signed fields and padding.
use wmfs.Common.{
  ℕ, zero, suc, ◌-◌, ◌≤◌, ◌<◌, Bool, true, false, not, some, List, [], ◌∷◌, ◌++◌, map, ◌==◌, Eq,
  if-cases, inl, inr, ◌≡◌, refl, ap, arith, any, replicate, length, take, drop, length-append,
  drop-append, take-append,
}
use mathlib.Core.Path.{ap₂}
use wmfs.Common.Dict
use wmfs.Common.Dict.{Dict, UniqueKeys}
use wmfs.Common.Int.{ℤ, pos, negsuc}
use wmfs.Common.Bytes.{Bytes, Fit, widths_of, values_of, bound}
use wmfs.Ring.Record.{flipped, to_unsigned, of_unsigned, zeros, area}

-- A table without a value twice is read backwards.
pub get-flipped {ℓ κ} :
    {K : Type ℓ} {V : Type κ} ⦃e : Eq K⦄ ⦃f : Eq V⦄ (d : Dict K V) (k : K) (v : V)
    → UniqueKeys ⦃e = f⦄ (flipped d)
    → Dict.get ⦃e = e⦄ k d ≡ some v
    → Dict.get ⦃e = f⦄ v (flipped d) ≡ some k
unfolding Dict.get
get-flipped ⦃e⦄ ⦃f⦄ [] k v u h = absurd (cc h)
get-flipped ⦃e⦄ ⦃f⦄ ((j, w) ∷ d) k v u h = elim (if-cases (e.beq j k) _ _ h) [
  | inl (same, got) ↦ ground (arith, e.beq_iff j k, f.beq_iff w v, same, got)
  | inr (_, got) ↦ let rest = get-flipped d k v u.1 got in ground (arith, f.beq_iff w v, rest, u.0)
]

pub of_unsigned-to_unsigned : (z : ℤ) → to_unsigned z < bound 8 → of_unsigned (to_unsigned z) ≡ z
unfolding to_unsigned of_unsigned
of_unsigned-to_unsigned (pos n) h = ground (arith, h)
of_unsigned-to_unsigned (negsuc n) h = ground (arith, h)

-- "<16q" of the numbers, behind which come zeros.
abbrev pub signed_fields : List ℤ → List (ℕ × ℕ)
signed_fields [] = []
signed_fields (z ∷ zs) = (8, to_unsigned z) ∷ signed_fields zs

unfoldable pub padded : List ℤ → List ℤ
padded zs = zs ++ replicate (16 - length zs) (pos 0)

pub length-signed_fields : (zs : List ℤ) → widths_of (signed_fields zs) ≡ replicate (length zs) 8
length-signed_fields [] = refl
length-signed_fields (z ∷ zs) = ap (λ ws. 8 ∷ ws) (length-signed_fields zs)

pub map-signed_fields :
    (zs : List ℤ) → Fit (signed_fields zs) → map of_unsigned (values_of (signed_fields zs)) ≡ zs
map-signed_fields [] h = refl
map-signed_fields (z ∷ zs) h = ap₂ ◌∷◌ (of_unsigned-to_unsigned z h.0) (map-signed_fields zs h.1)

pub length-replicate {ℓ} : {A : Type ℓ} (n : ℕ) (a : A) → length (replicate n a) ≡ n
length-replicate zero a = refl
length-replicate (suc n) a = ap suc (length-replicate n a)

pub length-padded : (zs : List ℤ) → length zs ≤ 16 → length (padded zs) ≡ 16
unfolding padded
length-padded zs h = omega (
  arith,
  length-append zs (replicate (16 - length zs) (pos 0)),
  length-replicate (16 - length zs) (pos 0),
)

pub length-zeros : (n : ℕ) → length (zeros n) ≡ n
unfolding zeros
length-zeros n = length-replicate n 0

pub length-area : (size : ℕ) (bs : Bytes) → length bs ≤ size → length (area size bs) ≡ size
unfolding area
length-area size bs h =
    omega (arith, length-append bs (zeros (size - length bs)), length-zeros (size - length bs))

-- n != 0, of an item of a byte string
abbrev pub is_nonzero : ℕ → Bool
is_nonzero n = not (n == 0)

abbrev pub is_nonzero_int : ℤ → Bool
is_nonzero_int (pos n) = not (n == 0)
is_nonzero_int (negsuc n) = true

any-replicate {ℓ} :
    {A : Type ℓ} (p : A → Bool) (n : ℕ) (a : A) → p a ≡ false → any p (replicate n a) ≡ false
any-replicate p zero a h = refl
any-replicate p (suc n) a h = ground (arith, h, any-replicate p n a h)

pub any-zeros : (n : ℕ) → any is_nonzero (zeros n) ≡ false
unfolding zeros
any-zeros n = any-replicate is_nonzero n 0 refl

pub any-padding : (n : ℕ) → any is_nonzero_int (replicate n (pos 0)) ≡ false
any-padding n = any-replicate is_nonzero_int n (pos 0) refl

-- An area is what is written into it, and zeros.
pub take-area : (size : ℕ) (bs : Bytes) → take (length bs) (area size bs) ≡ bs
unfolding area
take-area size bs = take-append bs (zeros (size - length bs))

pub drop-area : (size : ℕ) (bs : Bytes) → drop (length bs) (area size bs) ≡ zeros (size - length bs)
unfolding area
drop-area size bs = drop-append bs (zeros (size - length bs))
