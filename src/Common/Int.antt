-- ===== src/Common/Int.antt =====
-- Python's `int`, where a negative value matters; `negsuc n` is -(n + 1).
use Prim.Native.Nat.{ℕ}
use mathlib.Core.Bool.{Bool, true, false}
use mathlib.Core.Path.{◌≡◌, sym, ap, ◌∙◌}
use native.Mathlib.Omega.{arith}
use wmfs.Common.Tests.{◌==◌, ==_iff, leb, if◌then◌else◌, Eq}

pub data ℤ : Type 0 where
  pos : ℕ → ℤ
  negsuc : ℕ → ℤ

-- n < 0
abbrev pub is_negative : ℤ → Bool
is_negative (pos n) = false
is_negative (negsuc n) = true

-- n <= 0
abbrev pub is_non_positive : ℤ → Bool
is_non_positive (pos n) = n == 0
is_non_positive (negsuc n) = true

abbrev pub pos_part : ℤ → ℕ
pos_part (pos n) = n
pos_part (negsuc n) = 0

-- a <= b
abbrev pub leb_int : ℤ → ℤ → Bool
leb_int (pos a) (pos b) = leb a b
leb_int (pos a) (negsuc b) = false
leb_int (negsuc a) (pos b) = true
leb_int (negsuc a) (negsuc b) = leb b a

abbrev pub min_int : ℤ → ℤ → ℤ
min_int a b = if leb_int a b then a else b

unfoldable pub same_int : ℤ → ℤ → Bool
same_int (pos a) (pos b) = a == b
same_int (negsuc a) (negsuc b) = a == b
same_int _ _ = false

pub same_int-eq : (a b : ℤ) → same_int a b ≡ true → a ≡ b
unfolding same_int
same_int-eq (pos a) (pos b) h = ap pos ((==_iff a b).0 h)
same_int-eq (negsuc a) (negsuc b) h = ap negsuc ((==_iff a b).0 h)
same_int-eq (pos a) (negsuc b) h = absurd (cc h)
same_int-eq (negsuc a) (pos b) h = absurd (cc h)

pub same_int_refl : (a : ℤ) → same_int a a ≡ true
unfolding same_int
same_int_refl (pos a) = ground arith
same_int_refl (negsuc a) = ground arith

instance abbrev pub integer_eq : Eq ℤ
integer_eq = record {
  beq = same_int;
  beq_iff = λ a b. (same_int-eq a b, λ e. ap (same_int a) (sym e) ∙ same_int_refl a);
}
