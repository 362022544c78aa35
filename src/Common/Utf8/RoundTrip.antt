-- ===== src/Common/Utf8/RoundTrip.antt =====
-- A text that is encoded in UTF-8 is decoded.
use Prim.Native.Nat.{ℕ, suc, ◌+◌, ◌-◌, ◌*◌, ◌/◌, ◌%◌, ◌<◌, ◌≤◌}
use mathlib.Core.Path.{◌≡◌, refl, ap, ◌∙◌}
use mathlib.Core.Bool.{true}
use mathlib.Core.List.{[], ◌∷◌, ◌++◌}
use mathlib.Core.Option.{some}
use mathlib.Core.Logic.{inl, inr}
use native.Mathlib.Omega.{arith}
use wmfs.Common.Tests.{ltb, Bool-cases, Option-cases}
use wmfs.Common.Bytes.{Bytes}
use wmfs.Common.Utf8.{
  Text, decode_from, encode_char, is_scalar, utf8_decode, utf8_encode, with_char,
}

-- A byte of a longer code point moves the decoder on.
continues :
    (need acc least b : ℕ) (bs : Bytes)
    → 128 ≤ b
    → b < 192
    → decode_from (suc (suc need)) acc least (b ∷ bs)
      ≡ decode_from (suc need) (acc * 64 + (b - 128)) least bs
unfolding decode_from
continues need acc least b bs h g = ground arith

ends :
    (acc least b c : ℕ) (bs : Bytes)
    → 128 ≤ b
    → b < 192
    → acc * 64 + (b - 128) ≡ c
    → least ≤ c
    → is_scalar c ≡ true
    → decode_from 1 acc least (b ∷ bs) ≡ with_char c (decode_from 0 0 0 bs)
unfolding decode_from
ends acc least b c bs h g e low scalar = rw e (ground arith)

lead_one :
    (b : ℕ) (bs : Bytes) → b < 128 → decode_from 0 0 0 (b ∷ bs) ≡ with_char b (decode_from 0 0 0 bs)
unfolding decode_from
lead_one b bs h = ground arith

lead_two :
    (b k : ℕ) (bs : Bytes)
    → b ≡ 192 + k
    → b < 224
    → decode_from 0 0 0 (b ∷ bs) ≡ decode_from 1 k 128 bs
unfolding decode_from
lead_two b k bs e h = leads b bs (omega arith) h ∙ ap (λ j. decode_from 1 j 128 bs) (rest b k e)
  where
    leads :
        (b : ℕ) (bs : Bytes)
        → 192 ≤ b
        → b < 224
        → decode_from 0 0 0 (b ∷ bs) ≡ decode_from 1 (b - 192) 128 bs
    leads b bs h g = ground arith

    rest : (b k : ℕ) → b ≡ 192 + k → b - 192 ≡ k
    rest b k e = omega arith

lead_three :
    (b k : ℕ) (bs : Bytes)
    → b ≡ 224 + k
    → b < 240
    → decode_from 0 0 0 (b ∷ bs) ≡ decode_from 2 k 2048 bs
unfolding decode_from
lead_three b k bs e h = leads b bs (omega arith) h ∙ ap (λ j. decode_from 2 j 2048 bs) (rest b k e)
  where
    leads :
        (b : ℕ) (bs : Bytes)
        → 224 ≤ b
        → b < 240
        → decode_from 0 0 0 (b ∷ bs) ≡ decode_from 2 (b - 224) 2048 bs
    leads b bs h g = ground arith

    rest : (b k : ℕ) → b ≡ 224 + k → b - 224 ≡ k
    rest b k e = omega arith

lead_four :
    (b k : ℕ) (bs : Bytes)
    → b ≡ 240 + k
    → b < 248
    → decode_from 0 0 0 (b ∷ bs) ≡ decode_from 3 k 65536 bs
unfolding decode_from
lead_four b k bs e h = leads b bs (omega arith) h ∙ ap (λ j. decode_from 3 j 65536 bs) (rest b k e)
  where
    leads :
        (b : ℕ) (bs : Bytes)
        → 240 ≤ b
        → b < 248
        → decode_from 0 0 0 (b ∷ bs) ≡ decode_from 3 (b - 240) 65536 bs
    leads b bs h g = ground arith

    rest : (b k : ℕ) → b ≡ 240 + k → b - 240 ≡ k
    rest b k e = omega arith

two_bytes :
    (c : ℕ) (bs : Bytes)
    → is_scalar c ≡ true
    → 128 ≤ c
    → c < 2048
    → decode_from 0 0 0 ((192 + c / 64) ∷ (128 + c % 64) ∷ bs) ≡ with_char c (decode_from 0 0 0 bs)
two_bytes c bs s h g =
    lead_two _ (c / 64) ((128 + c % 64) ∷ bs) refl (omega arith)
    ∙ ends (c / 64) 128 (128 + c % 64) c bs (omega arith) (omega arith) (omega arith) h s

three_bytes :
    (c : ℕ) (bs : Bytes)
    → is_scalar c ≡ true
    → 2048 ≤ c
    → c < 65536
    → decode_from 0 0 0 ((224 + c / 4096) ∷ (128 + c / 64 % 64) ∷ (128 + c % 64) ∷ bs)
      ≡ with_char c (decode_from 0 0 0 bs)
three_bytes c bs s h g =
    lead_three _ (c / 4096) ((128 + c / 64 % 64) ∷ (128 + c % 64) ∷ bs) refl (omega arith)
    ∙ continues 0 (c / 4096) 2048 (128 + c / 64 % 64) ((128 + c % 64) ∷ bs) (omega arith)
        (omega arith)
    ∙ ends (c / 4096 * 64 + (128 + c / 64 % 64 - 128)) 2048 (128 + c % 64) c bs (omega arith)
        (omega arith) (omega arith) h s

four_bytes :
    (c : ℕ) (bs : Bytes)
    → is_scalar c ≡ true
    → 65536 ≤ c
    → c < 1114112
    → decode_from 0 0 0
        ((240 + c / 262144) ∷ (128 + c / 4096 % 64) ∷ (128 + c / 64 % 64) ∷ (128 + c % 64) ∷ bs)
      ≡ with_char c (decode_from 0 0 0 bs)
four_bytes c bs s h g =
    lead_four _ (c / 262144) ((128 + c / 4096 % 64) ∷ (128 + c / 64 % 64) ∷ (128 + c % 64) ∷ bs)
      refl (omega arith)
    ∙ continues 1 (c / 262144) 65536 (128 + c / 4096 % 64)
        ((128 + c / 64 % 64) ∷ (128 + c % 64) ∷ bs) (omega arith) (omega arith)
    ∙ continues 0 (c / 262144 * 64 + (128 + c / 4096 % 64 - 128)) 65536 (128 + c / 64 % 64)
        ((128 + c % 64) ∷ bs) (omega arith) (omega arith)
    ∙ ends ((c / 262144 * 64 + (128 + c / 4096 % 64 - 128)) * 64 + (128 + c / 64 % 64 - 128)) 65536
        (128 + c % 64) c bs (omega arith) (omega arith) (omega arith) h s

decode-encode_char :
    (c : ℕ) (bs : Bytes)
    → is_scalar c ≡ true
    → decode_from 0 0 0 (encode_char c ++ bs) ≡ with_char c (decode_from 0 0 0 bs)
unfolding encode_char
decode-encode_char c bs s = elim (Bool-cases (ltb c 128)) [
  | inl one ↦
      let e : encode_char c ≡ c ∷ [] = ground arith in
      ap (λ front. decode_from 0 0 0 (front ++ bs)) e ∙ lead_one c bs (ground arith)
  | inr more ↦ elim (Bool-cases (ltb c 2048)) [
    | inl two ↦
        let e : encode_char c ≡ (192 + c / 64) ∷ (128 + c % 64) ∷ [] = ground arith in
        ap (λ front. decode_from 0 0 0 (front ++ bs)) e
        ∙ two_bytes c bs s (ground arith) (ground arith)
    | inr longer ↦ elim (Bool-cases (ltb c 65536)) [
      | inl three ↦
          let e : encode_char c ≡ (224 + c / 4096) ∷ (128 + c / 64 % 64) ∷ (128 + c % 64) ∷ [] =
            ground arith in
          ap (λ front. decode_from 0 0 0 (front ++ bs)) e
          ∙ three_bytes c bs s (ground arith) (ground arith)
      | inr four ↦
          let e : encode_char c
              ≡ (240 + c / 262144)
                ∷ (128 + c / 4096 % 64)
                ∷ (128 + c / 64 % 64)
                ∷ (128 + c % 64)
                ∷ [] =
            ground arith in
          ap (λ front. decode_from 0 0 0 (front ++ bs)) e
          ∙ four_bytes c bs s (ground arith) (ground arith)
    ]
  ]
]

-- A string that encodes decodes to itself.
pub utf8_decode-encode : (t : Text) {bs : Bytes} → utf8_encode t ≡ some bs → utf8_decode bs ≡ some t
unfolding utf8_encode utf8_decode decode_from
utf8_decode-encode [] {bs} h = let e : bs ≡ [] = ground arith in ap (decode_from 0 0 0) e
utf8_decode-encode (c ∷ cs) {bs} h = elim (Option-cases (utf8_encode cs)) [
  | inl bad ↦ absurd (ground arith)
  | inr (rest, good) ↦ elim (Bool-cases (is_scalar c)) [
    | inl s ↦
        let e : bs ≡ encode_char c ++ rest = ground arith in
        ap (decode_from 0 0 0) e
        ∙ decode-encode_char c rest s
        ∙ ap (with_char c) (utf8_decode-encode cs good)
    | inr surrogate ↦ absurd (ground arith)
  ]
]
