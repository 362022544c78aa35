-- ===== src/Control/Startup.antt =====
-- packages/wmfs/wmfs/protocol/control.py: `encode_startup` and `decode_startup`.
pub mod Payload
pub mod RoundTrip
use wmfs.Common.{
  ℕ, zero, suc, ◌+◌, ◌*◌, ◌^◌, ◌≡◌, Bool, true, false, not, ◌||◌, Option, some, none, List, [], ◌∷◌,
  ◌++◌, ◌==◌, ltb, if◌then◌else◌, Result, ok, err, ◌>>=◌, ◌>>◌, raise_if, or_raise, checked, length,
  take, drop, get_or,
}
use wmfs.Common.Bytes.{Bytes, pack, unpack}
use wmfs.Common.Utf8.{utf8_decode}
use wmfs.Control.Frame.{
  Kind, startup_request, startup_response, ControlError, outside_uint64, outside_uint32,
  exceeds_limit, bad_fingerprint, not_utf8, invalid_role_flags, payload_size_mismatch,
  unknown_enum_value, struct_error, Frame, expect_frame, encode_frame,
}
use wmfs.Control.Enums.{
  Status, status_value, status_of, LogMode, log_mode_value, log_mode_of, DescriptorRole, role_value,
  role_of,
}

abbrev pub max_config_bytes : ℕ
max_config_bytes = 65536

abbrev pub max_descriptor_roles : ℕ
max_descriptor_roles = 16

pub record Startup : Type 0 where
  pub session_generation : ℕ
  pub interface_fingerprint : Bytes
  pub configuration_fingerprint : Bytes
  pub metadata_fingerprint : ℕ
  pub capabilities : ℕ
  pub operation_count : ℕ
  pub protocol_version : ℕ
  pub configuration_schema_version : ℕ
  pub config : Bytes
  pub descriptor_roles : List DescriptorRole
  pub log_mode : LogMode
  pub status : Status

-- `_validate_utf8`, which tells whether the decoder raises.
abbrev pub is_utf8 : Bytes → Bool
is_utf8 bs = elim (utf8_decode bs) [ none ↦ false | some t ↦ true ]

-- `_ROLE`
abbrev pub role_widths : List ℕ
role_widths = 2 ∷ 2 ∷ 4 ∷ []

abbrev pub role_fields : DescriptorRole → List (ℕ × ℕ)
role_fields role = (2, role_value role) ∷ (2, 0) ∷ (4, 0) ∷ []

-- `_STARTUP` behind its two byte strings.
abbrev pub startup_widths : List ℕ
startup_widths = 8 ∷ 8 ∷ 4 ∷ 4 ∷ 4 ∷ 4 ∷ 2 ∷ 2 ∷ 4 ∷ []

abbrev pub startup_fields : Startup → List (ℕ × ℕ)
startup_fields s =
    (8, s.metadata_fingerprint)
    ∷ (8, s.capabilities)
    ∷ (4, s.operation_count)
    ∷ (4, s.protocol_version)
    ∷ (4, s.configuration_schema_version)
    ∷ (4, length s.config)
    ∷ (2, length s.descriptor_roles)
    ∷ (2, log_mode_value s.log_mode)
    ∷ (4, status_value s.status)
    ∷ []

unfoldable pub encode_roles : List DescriptorRole → Result ControlError Bytes
encode_roles [] = ok []
encode_roles (role ∷ roles) = do
  front ← or_raise (pack (role_fields role)) struct_error
  rest ← encode_roles roles
  ok (front ++ rest)

abbrev pub startup_kind : Bool → Kind
startup_kind response = if response then startup_response else startup_request

unfoldable pub encode_startup : Startup → Bool → ℕ → Result ControlError Bytes
encode_startup s response request_id =
    checked
      ((not (is_utf8 s.config), not_utf8)
        ∷ (ltb max_config_bytes (length s.config), exceeds_limit)
        ∷ (
          not (length s.interface_fingerprint == 32)
              || not (length s.configuration_fingerprint == 32),
          bad_fingerprint,
        )
        ∷ (ltb max_descriptor_roles (length s.descriptor_roles), exceeds_limit)
        ∷ (not (ltb s.session_generation (2 ^ 64)), outside_uint64)
        ∷ (not (ltb s.metadata_fingerprint (2 ^ 64)), outside_uint64)
        ∷ (not (ltb s.capabilities (2 ^ 64)), outside_uint64)
        ∷ (not (ltb s.operation_count (2 ^ 32)), outside_uint32)
        ∷ (not (ltb s.protocol_version (2 ^ 32)), outside_uint32)
        ∷ (not (ltb s.configuration_schema_version (2 ^ 32)), outside_uint32)
        ∷ [])
      (do
        front ← or_raise (pack ((8, s.session_generation) ∷ [])) struct_error
        back ← or_raise (pack (startup_fields s)) struct_error
        roles ← encode_roles s.descriptor_roles
        encode_frame (startup_kind response) request_id (
            front
            ++ (s.interface_fingerprint
                ++ (s.configuration_fingerprint ++ (back ++ (roles ++ s.config))))))

-- One round of the loop over the roles, from the values that `_ROLE` unpacks.
unfoldable pub decode_role : List ℕ → Result ControlError DescriptorRole
decode_role values = do
  raise_if (not (get_or values 1 0 == 0) || not (get_or values 2 0 == 0)) invalid_role_flags
  or_raise (role_of (get_or values 0 0)) unknown_enum_value

unfoldable pub decode_roles : ℕ → Bytes → Result ControlError (List DescriptorRole)
decode_roles zero bs = ok []
decode_roles (suc count) bs = do
  role ← decode_role (unpack role_widths bs)
  roles ← decode_roles count (drop 8 bs)
  ok (role ∷ roles)

-- `decode_startup` from the fields of `_STARTUP` on.
unfoldable pub decode_body : ℕ → Bytes → Bytes → List ℕ → Bytes → Result ControlError Startup
decode_body generation interface configuration values payload =
    let config_length = get_or values 5 0 in
    let role_count = get_or values 6 0 in
    let roles_end = 112 + role_count * 8 in
    checked
      ((ltb max_config_bytes config_length || ltb max_descriptor_roles role_count, exceeds_limit)
        ∷ (not (roles_end + config_length == length payload), payload_size_mismatch)
        ∷ [])
      (do
        roles ← decode_roles role_count (drop 112 payload)
        raise_if (not (is_utf8 (drop roles_end payload))) not_utf8
        log_mode ← or_raise (log_mode_of (get_or values 7 0)) unknown_enum_value
        status ← or_raise (status_of (get_or values 8 0)) unknown_enum_value
        ok (record {
          session_generation = generation;
          interface_fingerprint = interface;
          configuration_fingerprint = configuration;
          metadata_fingerprint = get_or values 0 0;
          capabilities = get_or values 1 0;
          operation_count = get_or values 2 0;
          protocol_version = get_or values 3 0;
          configuration_schema_version = get_or values 4 0;
          config = drop roles_end payload;
          descriptor_roles = roles;
          log_mode = log_mode;
          status = status;
        }))

unfoldable pub decode_startup : Bytes → Bool → Result ControlError (ℕ × Startup)
decode_startup packet response = do
  frame ← expect_frame (startup_kind response) 112 packet
  s ←
      decode_body (get_or (unpack (8 ∷ []) frame.payload) 0 0) (take 32 (drop 8 frame.payload))
        (take 32 (drop 40 frame.payload)) (unpack startup_widths (drop 72 frame.payload))
        frame.payload
  ok (frame.request_id, s)
