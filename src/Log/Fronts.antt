-- ===== src/Log/Fronts.antt =====
-- packages/wmfs-plugin/wmfs_plugin/log_codec.py: a text is cut to its room, and is whole where it has
-- the room.
use mathlib.Core.Path.{subst}
use wmfs.Common.{
  ℕ, ◌-◌, ◌≤◌, Bool, true, false, some, [], ◌∷◌, leb, leb→le, le→leb, Bool-cases, inl, inr, ◌≡◌,
  sym, ap, ◌∙◌, arith, length, length-append, ok, or_raise, or_raise-eq-ok, ok_inj, first_ok,
}
use wmfs.Common.Utf8.{Text, utf8_encode, encode_char}
use wmfs.Common.Text.{encoded_length, encoded_length-eq}
use wmfs.Common.Bytes.{Bytes}
use wmfs.Log.{not_encodable}
use wmfs.Log.Encode.{front_bytes, fit_text}

pub length-front_bytes : (limit : ℕ) (t : Text) → length (front_bytes limit t) ≤ limit
unfolding front_bytes
length-front_bytes limit [] = omega arith
length-front_bytes limit (c ∷ cs) = elim (Bool-cases (leb (length (encode_char c)) limit)) [
  | inl fits ↦
      let rest = length-front_bytes (limit - length (encode_char c)) cs in
      let small = leb→le _ _ fits in
      rw fits (
        omega (
          arith,
          rest,
          small,
          length-append (encode_char c) (front_bytes (limit - length (encode_char c)) cs),
        ))
  | inr full ↦ rw full (omega arith)
]

-- Whether a text fits, its bytes are within the limit.
pub fit_text-fits :
    (t : Text) (limit : ℕ) {bs : Bytes} {cut : Bool}
    → fit_text t limit ≡ ok (bs, cut)
    → length bs ≤ limit
unfolding fit_text
fit_text-fits t limit {bs} {cut} h =
    let (encoded, made, h1) = first_ok (or_raise (utf8_encode t) not_encodable) _ h in
    elim (Bool-cases (leb (length encoded) limit)) [
      | inl fits ↦
          let same : encoded ≡ bs = ap (λ (p : Bytes × Bool). p.0) (ok_inj (rw fits at h1)) in
          subst (λ b. length b ≤ limit) same (leb→le _ _ fits)
      | inr long ↦
          let same : front_bytes limit t ≡ bs =
            ap (λ (p : Bytes × Bool). p.0) (ok_inj (rw long at h1)) in
          subst (λ b. length b ≤ limit) same (length-front_bytes limit t)
    ]

-- A text that fits is encoded whole.
pub fit_text-whole :
    (t : Text) (limit : ℕ) {bs : Bytes} {cut : Bool}
    → fit_text t limit ≡ ok (bs, cut)
    → encoded_length t ≤ limit
    → (utf8_encode t ≡ some bs) × (length bs ≡ encoded_length t) × (cut ≡ false)
unfolding fit_text
fit_text-whole t limit {bs} {cut} h room =
    let (encoded, made, h1) = first_ok (or_raise (utf8_encode t) not_encodable) _ h in
    let encodes = or_raise-eq-ok (utf8_encode t) not_encodable made in
    let size = encoded_length-eq t encoded encodes in
    let fits : leb (length encoded) limit ≡ true = le→leb _ _ (omega (arith, size, room)) in
    let same = ok_inj (rw fits at h1) in
    let bytes : encoded ≡ bs = ap (λ (p : Bytes × Bool). p.0) same in
    let whole : false ≡ cut = ap (λ (p : Bytes × Bool). p.1) same in
    (encodes ∙ ap some bytes, ap length (sym bytes) ∙ sym size, sym whole)
