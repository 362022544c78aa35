-- ===== src/Control/Frame.antt =====
-- packages/wmfs/wmfs/protocol/control.py: `encode_frame`, `decode_frame` and `encode_empty`. A
-- number here is not negative: of `_u64` and `_u32` the upper bound is left.
use wmfs.Common.{
  ℕ, ◌-◌, ◌^◌, ◌<◌, ◌≡◌, refl, not, ◌||◌, Option, some, none, List, [], ◌∷◌, ◌++◌, ◌==◌, ltb,
  if◌then◌else◌, Result, ok, err, ◌>>=◌, ◌>>◌, raise_if, or_raise, checked, arith, length, drop,
  get_or,
}
use wmfs.Common.Bytes.{Bytes, pack, unpack}

pub data Kind : Type 0 where
  startup_request : Kind
  startup_response : Kind
  ping : Kind
  pong : Kind
  shutdown : Kind
  shutdown_ack : Kind
  error_response : Kind
  fd_transfer : Kind
  fd_transfer_ack : Kind

unfoldable pub kind_value : Kind → ℕ
kind_value startup_request = 1
kind_value startup_response = 2
kind_value ping = 3
kind_value pong = 4
kind_value shutdown = 5
kind_value shutdown_ack = 6
kind_value error_response = 7
kind_value fd_transfer = 16
kind_value fd_transfer_ack = 17

-- `Kind(value)`, whose `ValueError` is `none`.
unfoldable pub kind_of : ℕ → Option Kind
kind_of n =
    if n == 1
    then some startup_request
    else if n == 2
    then some startup_response
    else if n == 3
    then some ping
    else if n == 4
    then some pong
    else if n == 5
    then some shutdown
    else if n == 6
    then some shutdown_ack
    else if n == 7
    then some error_response
    else if n == 16
    then some fd_transfer
    else if n == 17
    then some fd_transfer_ack
    else none

-- Each is a `ProtocolError` with its message, and the last three what `struct`, `str.encode` and `array` raise.
pub data ControlError : Type 0 where
  outside_uint64 : ControlError
  outside_uint32 : ControlError
  exceeds_packet_limit : ControlError
  invalid_packet_size : ControlError
  unsupported_abi : ControlError
  invalid_frame_header : ControlError
  payload_size_mismatch : ControlError
  unknown_kind : ControlError
  no_empty_payload : ControlError
  unexpected_or_truncated : ControlError
  exceeds_limit : ControlError
  bad_fingerprint : ControlError
  invalid_role_flags : ControlError
  unknown_enum_value : ControlError
  not_utf8 : ControlError
  bad_entry_count : ControlError
  unknown_entry_flags : ControlError
  retire_with_flags : ControlError
  invalid_batch_header : ControlError
  fd_count_mismatch : ControlError
  invalid_acknowledgement : ControlError
  invalid_error_response : ControlError
  truncated_datagram : ControlError
  multiple_messages : ControlError
  unsupported_message : ControlError
  malformed_rights : ControlError
  too_many_descriptors : ControlError
  descriptor_count_mismatch : ControlError
  control_socket_closed : ControlError
  struct_error : ControlError
  unicode_encode_error : ControlError
  overflow_error : ControlError

abbrev pub magic_number : ℕ
magic_number = 0x314C544353464D57

abbrev pub abi_major : ℕ
abi_major = 1

abbrev pub abi_minor : ℕ
abi_minor = 0

abbrev pub frame_header_size : ℕ
frame_header_size = 32

abbrev pub max_packet_bytes : ℕ
max_packet_bytes = 69632

pub record Frame : Type 0 where
  pub kind : Kind
  pub request_id : ℕ
  pub payload : Bytes

-- `_u64` and `_u32`
abbrev pub u64 : ℕ → Result ControlError (Unit {0})
u64 value = raise_if (not (ltb value (2 ^ 64))) outside_uint64

abbrev pub u32 : ℕ → Result ControlError (Unit {0})
u32 value = raise_if (not (ltb value (2 ^ 32))) outside_uint32

-- `_FRAME`
abbrev pub frame_widths : List ℕ
frame_widths = 8 ∷ 2 ∷ 2 ∷ 2 ∷ 2 ∷ 4 ∷ 4 ∷ 8 ∷ []

abbrev pub frame_fields : Kind → ℕ → ℕ → List (ℕ × ℕ)
frame_fields kind request_id size =
    (8, magic_number)
    ∷ (2, abi_major)
    ∷ (2, abi_minor)
    ∷ (2, kind_value kind)
    ∷ (2, 0)
    ∷ (4, frame_header_size)
    ∷ (4, size)
    ∷ (8, request_id)
    ∷ []

unfoldable pub encode_frame : Kind → ℕ → Bytes → Result ControlError Bytes
encode_frame kind request_id payload = do
  u64 request_id
  raise_if (ltb (max_packet_bytes - frame_header_size) (length payload)) exceeds_packet_limit
  header ← or_raise (pack (frame_fields kind request_id (length payload))) struct_error
  ok (header ++ payload)

-- `decode_frame` from the values of the header on.
unfoldable pub decode_header : List ℕ → Bytes → Result ControlError Frame
decode_header values packet =
    checked
      ((
        not (get_or values 0 0 == magic_number)
            || not (get_or values 1 0 == abi_major)
            || ltb abi_minor (get_or values 2 0),
        unsupported_abi,
      )
        ∷ (
          not (get_or values 4 0 == 0) || not (get_or values 5 0 == frame_header_size),
          invalid_frame_header,
        )
        ∷ (not (get_or values 6 0 == length packet - frame_header_size), payload_size_mismatch)
        ∷ [])
      (do
        kind ← or_raise (kind_of (get_or values 3 0)) unknown_kind
        ok (record {
          kind = kind;
          request_id = get_or values 7 0;
          payload = drop frame_header_size packet;
        }))

unfoldable pub decode_frame : Bytes → Result ControlError Frame
decode_frame packet =
    if ltb (length packet) frame_header_size || ltb max_packet_bytes (length packet)
    then err invalid_packet_size
    else decode_header (unpack frame_widths packet) packet

-- The lines with which each decoder of a payload starts: the kind that it expects, and the size of
-- the fixed part.
unfoldable pub expect_frame : Kind → ℕ → Bytes → Result ControlError Frame
unfolding kind_value
expect_frame expected size packet = do
  frame ← decode_frame packet
  raise_if (not (kind_value frame.kind == kind_value expected) || ltb (length frame.payload) size)
      unexpected_or_truncated
  ok frame

-- `encode_empty`
unfoldable pub encode_empty : Kind → ℕ → Result ControlError Bytes
unfolding encode_frame
encode_empty kind request_id = elim kind [
  | ping ↦ encode_frame ping request_id []
  | pong ↦ encode_frame pong request_id []
  | shutdown ↦ encode_frame shutdown request_id []
  | shutdown_ack ↦ encode_frame shutdown_ack request_id []
  | _ ↦ err no_empty_payload
]

pub kind_of-kind_value : (k : Kind) → kind_of (kind_value k) ≡ some k
unfolding kind_of kind_value
kind_of-kind_value startup_request = refl
kind_of-kind_value startup_response = refl
kind_of-kind_value ping = refl
kind_of-kind_value pong = refl
kind_of-kind_value shutdown = refl
kind_of-kind_value shutdown_ack = refl
kind_of-kind_value error_response = refl
kind_of-kind_value fd_transfer = refl
kind_of-kind_value fd_transfer_ack = refl

pub kind_value-kind_of : (n : ℕ) {k : Kind} → kind_of n ≡ some k → kind_value k ≡ n
unfolding kind_of kind_value
kind_value-kind_of n {k} h = ground arith

pub kind_value-lt : (k : Kind) → kind_value k < 18
unfolding kind_value
kind_value-lt k = ground arith
