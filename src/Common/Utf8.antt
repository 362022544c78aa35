-- ===== src/Common/Utf8.antt =====
-- Python's `str.encode("utf-8")` and strict `bytes.decode("utf-8")`; a string is the list of its
-- code points.
pub mod RoundTrip
use Prim.Native.Nat.{ℕ, zero, suc, ◌+◌, ◌-◌, ◌*◌, ◌/◌, ◌%◌, ◌<◌, ◌≤◌}
use mathlib.Core.Path.{◌≡◌, refl, ap, ◌∙◌}
use mathlib.Core.Bool.{Bool, true, not, ◌&&◌}
use mathlib.Core.List.{List, [], ◌∷◌, ◌++◌}
use mathlib.Core.Option.{Option, none, some}
use mathlib.Core.Logic.{inl, inr}
use native.Mathlib.Omega.{arith}
use wmfs.Common.Tests.{ltb, leb, if◌then◌else◌, Bool-cases, Option-cases}
use wmfs.Common.Bytes.{Bytes}

abbrev pub Text : Type 0
Text = List ℕ

-- A code point that is no surrogate.
abbrev pub is_scalar : ℕ → Bool
is_scalar c = ltb c 1114112 && not (leb 55296 c && ltb c 57344)

unfoldable pub encode_char : ℕ → Bytes
encode_char c =
    if ltb c 128
    then c ∷ []
    else if ltb c 2048
    then (192 + c / 64) ∷ (128 + c % 64) ∷ []
    else if ltb c 65536
    then (224 + c / 4096) ∷ (128 + c / 64 % 64) ∷ (128 + c % 64) ∷ []
    else (240 + c / 262144) ∷ (128 + c / 4096 % 64) ∷ (128 + c / 64 % 64) ∷ (128 + c % 64) ∷ []

-- `none` is `UnicodeEncodeError`.
unfoldable pub utf8_encode : Text → Option Bytes
utf8_encode [] = some []
utf8_encode (c ∷ cs) =
    let rest : Option Bytes = (elim (utf8_encode cs) [
      | none ↦ none
      | some bs ↦ some (encode_char c ++ bs)
    ]) in
    if is_scalar c then rest else none

abbrev pub with_char : ℕ → Option Text → Option Text
with_char c none = none
with_char c (some cs) = some (c ∷ cs)

-- The decoder has read the front of a code point with the bits `acc`; `need` bytes of it are to
-- come, and `least` is the least code point of its length.
unfoldable pub decode_from : ℕ → ℕ → ℕ → Bytes → Option Text
decode_from zero acc least [] = some []
decode_from (suc need) acc least [] = none
decode_from zero acc least (b ∷ bs) =
    let ascii = decode_from 0 0 0 bs in
    let two = decode_from 1 (b - 192) 128 bs in
    let three = decode_from 2 (b - 224) 2048 bs in
    let four = decode_from 3 (b - 240) 65536 bs in
    if ltb b 128
    then with_char b ascii
    else if ltb b 192
    then none
    else if ltb b 224
    then two
    else if ltb b 240
    then three
    else if ltb b 248
    then four
    else none
decode_from (suc zero) acc least (b ∷ bs) =
    let c = acc * 64 + (b - 128) in
    let rest = decode_from 0 0 0 bs in
    if leb 128 b && ltb b 192 && leb least c && is_scalar c then with_char c rest else none
decode_from (suc (suc need)) acc least (b ∷ bs) =
    let rest = decode_from (suc need) (acc * 64 + (b - 128)) least bs in
    if leb 128 b && ltb b 192 then rest else none

-- `none` is `UnicodeDecodeError`.
unfoldable pub utf8_decode : Bytes → Option Text
unfolding decode_from
utf8_decode bs = decode_from 0 0 0 bs
