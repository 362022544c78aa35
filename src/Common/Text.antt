-- ===== src/Common/Text.antt =====
-- Texts: when two are the same, and how many bytes one has in UTF-8.
use Prim.Native.Nat.{ℕ}
use mathlib.Core.Path.{◌≡◌, refl, sym, ap, ap₂, ◌∙◌}
use mathlib.Core.Bool.{Bool, true, false, ◌&&◌}
use mathlib.Core.List.{[], ◌∷◌}
use mathlib.Core.Option.{Option, none, some}
use native.Mathlib.Omega.{arith}
use wmfs.Common.Tests.{◌==◌, ==_iff, both, Eq}
use wmfs.Common.Lists.{length}
use wmfs.Common.Bytes.{Bytes}
use wmfs.Common.Utf8.{Text, utf8_encode}

unfoldable pub same_text : Text → Text → Bool
same_text [] [] = true
same_text [] (d ∷ ds) = false
same_text (c ∷ cs) [] = false
same_text (c ∷ cs) (d ∷ ds) = c == d && same_text cs ds

pub same_text→eq : (s t : Text) → same_text s t ≡ true → s ≡ t
unfolding same_text
same_text→eq [] [] h = refl
same_text→eq [] (d ∷ ds) h = cc
same_text→eq (c ∷ cs) [] h = cc
same_text→eq (c ∷ cs) (d ∷ ds) h =
    let (first, rest) = both (c == d) (same_text cs ds) h in
    ap₂ ◌∷◌ ((==_iff c d).0 first) (same_text→eq cs ds rest)

same_text_refl : (s : Text) → same_text s s ≡ true
unfolding same_text
same_text_refl [] = refl
same_text_refl (c ∷ cs) = ground (arith, same_text_refl cs)

pub eq→same_text : (s t : Text) → s ≡ t → same_text s t ≡ true
eq→same_text s t e = ap (same_text s) (sym e) ∙ same_text_refl s

instance abbrev pub text_eq : Eq Text
text_eq = record { beq = same_text; beq_iff = λ s t. (same_text→eq s t, eq→same_text s t) }

-- The number of bytes of a text.
abbrev pub encoded_length : Text → ℕ
encoded_length t = length_or_zero (utf8_encode t)
  where
    length_or_zero : Option Bytes → ℕ
    length_or_zero none = 0
    length_or_zero (some bs) = length bs

pub encoded_length-eq :
    (t : Text) (bs : Bytes) → utf8_encode t ≡ some bs → encoded_length t ≡ length bs
encoded_length-eq t bs h = rw h refl
