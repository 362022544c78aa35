-- ===== src/Control/Startup/RoundTrip.antt =====
-- A startup frame that is sent is the one that is received.
use wmfs.Common.{
  ℕ, ◌≤◌, ◌≡◌, ap, ◌∙◌, Bool, true, false, not, ◌||◌, [], ◌∷◌, ◌++◌, ◌==◌, ltb, ok, or_raise,
  or_raise-eq-ok, checked-eq-ok, first_ok, length, arith,
}
use wmfs.Common.Bytes.{Bytes, pack, packed, pack-eq-some}
use wmfs.Control.Frame.{struct_error, encode_frame}
use wmfs.Control.Canonical.{expect_frame-encode_frame}
use wmfs.Control.Startup.{
  Startup, startup_fields, encode_roles, startup_kind, encode_startup, decode_startup,
}
use wmfs.Control.Startup.Payload.{
  length-encode_roles, payload_of, length-payload_of, decode_payload,
}

fingerprint_sizes : (m n : ℕ) → (not (m == 32) || not (n == 32)) ≡ false → (m ≡ 32) × (n ≡ 32)
fingerprint_sizes m n h = ground arith

not_long : (m n : ℕ) → ltb m n ≡ false → n ≤ m
not_long m n h = ground arith

valid_text : (b : Bool) → not b ≡ false → b ≡ true
valid_text b h = ground arith

-- The startup frame of either direction that `encode_startup` sends is the one that
-- `decode_startup` receives, with its request ID, its roles and its configuration.
pub decode_startup-encode_startup :
    (s : Startup) (response : Bool) (r : ℕ) {packet : Bytes}
    → encode_startup s response r ≡ ok packet
    → decode_startup packet response ≡ ok (r, s)
unfolding encode_startup decode_startup
decode_startup-encode_startup s response r {packet} h =
    let (p, h1) = checked-eq-ok _ _ h in
    let (front, made, h2) =
      first_ok (or_raise (pack ((8, s.session_generation) ∷ [])) struct_error) _ h1 in
    let (back, made_back, h3) = first_ok (or_raise (pack (startup_fields s)) struct_error) _ h2 in
    let (roles, made_roles, framed) = first_ok (encode_roles s.descriptor_roles) _ h3 in
    let (fit, same) = pack-eq-some ((8, s.session_generation) ∷ []) (or_raise-eq-ok _ _ made) in
    let (fit_back, same_back) = pack-eq-some (startup_fields s) (or_raise-eq-ok _ _ made_back) in
    let (interface_size, configuration_size) = fingerprint_sizes _ _ (p.1.1.0) in
    let short = not_long 65536 (length s.config) p.1.0 in
    let few = not_long 16 (length s.descriptor_roles) (p.1.1.1.0) in
    let body =
      decode_payload s roles interface_size configuration_size fit fit_back (valid_text _ p.0) short
        few made_roles in
    let size =
      length-payload_of s roles interface_size configuration_size
        (length-encode_roles s.descriptor_roles made_roles) in
    let sent : encode_frame (startup_kind response) r (payload_of s roles) ≡ ok packet =
      ap
        (λ b. encode_frame (startup_kind response) r (
          b
          ++ (s.interface_fingerprint
              ++ (s.configuration_fingerprint
                  ++ (packed (startup_fields s) ++ (roles ++ s.config))))))
        same
      ∙ ap
          (λ b. encode_frame (startup_kind response) r (
            front
            ++ (s.interface_fingerprint
                ++ (s.configuration_fingerprint ++ (b ++ (roles ++ s.config))))))
          same_back
      ∙ framed in
    rw (
      expect_frame-encode_frame (startup_kind response) 112 r (payload_of s roles) sent
          (omega (arith, size)),
      body,
    )
