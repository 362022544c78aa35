-- ===== src/Control/Startup/Payload.antt =====
-- The parts of a startup payload, and what is decoded from each.
use wmfs.Common.{
  drop_front, take_front, ℕ, ◌+◌, ◌*◌, ◌≤◌, ◌≡◌, refl, sym, ap, ◌∙◌, true, false, not, ◌||◌, List,
  [], ◌∷◌, ◌++◌, ◌==◌, ltb, ok, or_raise, or_raise-eq-ok, checked-pass, first_ok, length, take,
  drop, get_or, arith, length-append, append_assoc,
}
use wmfs.Common.Bytes.{
  Bytes, pack, unpack, packed, Fit, pack-eq-some, unpack-packed, length-packed, values_of,
  drop-drop,
}
use wmfs.Control.Frame.{struct_error}
use wmfs.Control.Enums.{
  status_of-status_value, log_mode_of-log_mode_value, DescriptorRole, role_of-role_value,
}
use wmfs.Control.Startup.{
  Startup, is_utf8, role_widths, role_fields, startup_widths, startup_fields, encode_roles,
  decode_role, decode_roles, decode_body,
}

-- Past the front, the next part comes off.
drop_next : (m n : ℕ) (p xs ys : Bytes) → drop n p ≡ xs ++ ys → length xs ≡ m → drop (m + n) p ≡ ys
drop_next m n p xs ys e h = sym (drop-drop m n p) ∙ ap (drop m) e ∙ drop_front m xs ys h

decode_role_lem : (role : DescriptorRole) → decode_role (values_of (role_fields role)) ≡ ok role
unfolding decode_role
decode_role_lem role = rw (role_of-role_value role) refl

pub length-encode_roles :
    (roles : List DescriptorRole) {bs : Bytes}
    → encode_roles roles ≡ ok bs
    → length bs ≡ length roles * 8
unfolding encode_roles
length-encode_roles [] h = ground arith
length-encode_roles (role ∷ roles) {bs} h =
    let (front, h1, h2) = first_ok (or_raise (pack (role_fields role)) struct_error) _ h in
    let (rest, h3, h4) = first_ok (encode_roles roles) _ h2 in
    let (fit, same) = pack-eq-some (role_fields role) (or_raise-eq-ok _ _ h1) in
    let whole : front ++ rest ≡ bs = cc in
    omega (
      arith,
      length-encode_roles roles h3,
      length-packed (role_fields role),
      ap length same,
      ap length whole,
      length-append front rest,
    )

decode_roles-encode_roles :
    (roles : List DescriptorRole) (more : Bytes) {bs : Bytes}
    → encode_roles roles ≡ ok bs
    → decode_roles (length roles) (bs ++ more) ≡ ok roles
unfolding encode_roles decode_roles
decode_roles-encode_roles [] more h = refl
decode_roles-encode_roles (role ∷ roles) more {bs} h =
    let (front, h1, h2) = first_ok (or_raise (pack (role_fields role)) struct_error) _ h in
    let (rest, h3, h4) = first_ok (encode_roles roles) _ h2 in
    let (fit, same) = pack-eq-some (role_fields role) (or_raise-eq-ok _ _ h1) in
    let e : bs ≡ packed (role_fields role) ++ rest = cc in
    let whole : bs ++ more ≡ packed (role_fields role) ++ (rest ++ more) =
      ap (λ b. b ++ more) e ∙ append_assoc (packed (role_fields role)) rest more in
    let values : unpack role_widths (bs ++ more) ≡ values_of (role_fields role) =
      ap (unpack role_widths) whole ∙ unpack-packed (role_fields role) (rest ++ more) fit in
    let later : drop 8 (bs ++ more) ≡ rest ++ more =
      ap (drop 8) whole
      ∙ drop_front 8 (packed (role_fields role)) (rest ++ more)
          (length-packed (role_fields role)) in
    rw (values, decode_role_lem role, later, decode_roles-encode_roles roles more h3)

limits_pass : (c r : ℕ) → c ≤ 65536 → r ≤ 16 → (ltb 65536 c || ltb 16 r) ≡ false
limits_pass c r h g = ground arith

size_passes : (c r n : ℕ) → n ≡ 112 + r * 8 + c → not (112 + r * 8 + c == n) ≡ false
size_passes c r n h = ground arith

decode_body_lem :
    (s : Startup) (payload roles : Bytes)
    → is_utf8 s.config ≡ true
    → length s.config ≤ 65536
    → length s.descriptor_roles ≤ 16
    → length payload ≡ 112 + length s.descriptor_roles * 8 + length s.config
    → drop 112 payload ≡ roles ++ s.config
    → drop (112 + length s.descriptor_roles * 8) payload ≡ s.config
    → decode_roles (length s.descriptor_roles) (roles ++ s.config) ≡ ok s.descriptor_roles
    → decode_body s.session_generation s.interface_fingerprint s.configuration_fingerprint
        (values_of (startup_fields s))
        payload
      ≡ ok s
unfolding decode_body
decode_body_lem s payload roles text short few size rest config read =
    checked-pass _ _ (limits_pass _ _ short few, (size_passes _ _ _ size, tt))
    ∙ rw
        (
          rest,
          read,
          config,
          text,
          log_mode_of-log_mode_value s.log_mode,
          status_of-status_value s.status,
        )
        refl

abbrev pub payload_of : Startup → Bytes → Bytes
payload_of s roles =
    packed ((8, s.session_generation) ∷ [])
    ++ (s.interface_fingerprint
        ++ (s.configuration_fingerprint ++ (packed (startup_fields s) ++ (roles ++ s.config))))

-- The parts of the payload, at the offsets at which `_STARTUP` places them.
module _ (s : Startup) (roles : Bytes) (interface_size : length s.interface_fingerprint ≡ 32)
    (configuration_size : length s.configuration_fingerprint ≡ 32) where
  after_generation :
      drop 8 (payload_of s roles)
      ≡ s.interface_fingerprint
        ++ (s.configuration_fingerprint ++ (packed (startup_fields s) ++ (roles ++ s.config)))
  after_generation =
      drop_front 8 (packed ((8, s.session_generation) ∷ [])) _
        (length-packed ((8, s.session_generation) ∷ []))

  after_interface :
      drop 40 (payload_of s roles)
      ≡ s.configuration_fingerprint ++ (packed (startup_fields s) ++ (roles ++ s.config))
  after_interface =
      drop_next 32 8 (payload_of s roles) s.interface_fingerprint _ after_generation interface_size

  after_configuration :
      drop 72 (payload_of s roles) ≡ packed (startup_fields s) ++ (roles ++ s.config)
  after_configuration =
      drop_next 32 40 (payload_of s roles) s.configuration_fingerprint _ after_interface
        configuration_size

  after_fields : drop 112 (payload_of s roles) ≡ roles ++ s.config
  after_fields =
      drop_next 40 72 (payload_of s roles) (packed (startup_fields s)) _ after_configuration
        (length-packed (startup_fields s))

  after_roles :
      length roles ≡ length s.descriptor_roles * 8
      → drop (112 + length s.descriptor_roles * 8) (payload_of s roles) ≡ s.config
  after_roles size =
      let e : 112 + length s.descriptor_roles * 8 ≡ length s.descriptor_roles * 8 + 112 =
        omega arith in
      ap (λ n. drop n (payload_of s roles)) e
      ∙ drop_next (length s.descriptor_roles * 8) 112 (payload_of s roles) roles s.config
          after_fields size

  pub length-payload_of :
      length roles ≡ length s.descriptor_roles * 8
      → length (payload_of s roles) ≡ 112 + length s.descriptor_roles * 8 + length s.config
  length-payload_of size = omega (
    arith,
    size,
    interface_size,
    configuration_size,
    length-packed ((8, s.session_generation) ∷ []),
    length-packed (startup_fields s),
    length-append (packed ((8, s.session_generation) ∷ [])) (
        s.interface_fingerprint
        ++ (s.configuration_fingerprint ++ (packed (startup_fields s) ++ (roles ++ s.config)))),
    length-append s.interface_fingerprint
        (s.configuration_fingerprint ++ (packed (startup_fields s) ++ (roles ++ s.config))),
    length-append s.configuration_fingerprint (packed (startup_fields s) ++ (roles ++ s.config)),
    length-append (packed (startup_fields s)) (roles ++ s.config),
    length-append roles s.config,
  )

  pub decode_payload :
      Fit ((8, s.session_generation) ∷ [])
      → Fit (startup_fields s)
      → is_utf8 s.config ≡ true
      → length s.config ≤ 65536
      → length s.descriptor_roles ≤ 16
      → encode_roles s.descriptor_roles ≡ ok roles
      → decode_body
          (get_or (unpack (8 ∷ []) (payload_of s roles)) 0 0)
          (take 32 (drop 8 (payload_of s roles)))
          (take 32 (drop 40 (payload_of s roles)))
          (unpack startup_widths (drop 72 (payload_of s roles)))
          (payload_of s roles)
        ≡ ok s
  decode_payload fit fit_fields text short few made =
      let size = length-encode_roles s.descriptor_roles made in
      ap
        (λ vs.
          decode_body (get_or vs 0 0) (take 32 (drop 8 (payload_of s roles)))
            (take 32 (drop 40 (payload_of s roles)))
            (unpack startup_widths (drop 72 (payload_of s roles))) (payload_of s roles))
        (unpack-packed ((8, s.session_generation) ∷ []) _ fit)
      ∙ ap
          (λ i.
            decode_body s.session_generation i (take 32 (drop 40 (payload_of s roles)))
              (unpack startup_widths (drop 72 (payload_of s roles))) (payload_of s roles))
          (ap (take 32) after_generation ∙ take_front 32 s.interface_fingerprint _ interface_size)
      ∙ ap
          (λ c.
            decode_body s.session_generation s.interface_fingerprint c
              (unpack startup_widths (drop 72 (payload_of s roles))) (payload_of s roles))
          (ap (take 32) after_interface
            ∙ take_front 32 s.configuration_fingerprint _ configuration_size)
      ∙ ap
          (λ vs.
            decode_body s.session_generation s.interface_fingerprint s.configuration_fingerprint vs
              (payload_of s roles))
          (ap (unpack startup_widths) after_configuration
            ∙ unpack-packed (startup_fields s) _ fit_fields)
      ∙ decode_body_lem s (payload_of s roles) roles text short few (length-payload_of size)
          after_fields (after_roles size)
          (decode_roles-encode_roles s.descriptor_roles s.config made)
