-- ===== src/Control/Transfer.antt =====
-- packages/wmfs/wmfs/protocol/control.py: `_expected_fd_count`, `sendmsg_strict`, `_extract_fds` and
-- `recvmsg_strict`. The socket is left out: a message is what `sendmsg` is given and what `recvmsg`
-- returns. A descriptor is not negative.
pub mod Descriptors
use wmfs.Common.{
  ℕ, zero, suc, ◌/◌, ◌%◌, ◌^◌, ◌≡◌, Bool, true, false, not, ◌||◌, List, [], ◌∷◌, ◌++◌, ◌==◌, ltb,
  if◌then◌else◌, Result, ok, err, ◌>>=◌, ◌>>◌, raise_if, checked, any, length, take, drop,
}
use wmfs.Common.Bytes.{Bytes, le_bytes, le_value}
use wmfs.Control.Frame.{
  Kind, startup_request, startup_response, fd_transfer, ControlError, fd_count_mismatch,
  truncated_datagram, multiple_messages, unsupported_message, malformed_rights,
  too_many_descriptors, descriptor_count_mismatch, control_socket_closed, overflow_error, Frame,
  decode_frame,
}
use wmfs.Control.Startup.{decode_startup}
use wmfs.Control.FdBatch.{max_fd_entries, fd_count, decode_fd_batch}

-- `is_rights` tells whether level and kind are `SOL_SOCKET` and `SCM_RIGHTS`.
pub record ControlMessage : Type 0 where
  pub is_rights : Bool
  pub content : Bytes

-- `truncated` is either of the flags `MSG_TRUNC` and `MSG_CTRUNC`.
pub record Message : Type 0 where
  pub packet : Bytes
  pub ancillary : List ControlMessage
  pub truncated : Bool

-- `_expected_fd_count`
unfoldable pub expected_fd_count : Frame → Bytes → Result ControlError ℕ
expected_fd_count frame packet = elim frame.kind [
  | fd_transfer ↦ do (r, b) ← decode_fd_batch packet; ok (fd_count b.entries)
  | startup_request ↦ do (r, s) ← decode_startup packet false; ok (length s.descriptor_roles)
  | startup_response ↦ do (r, s) ← decode_startup packet true; ok (length s.descriptor_roles)
  | _ ↦ ok 0
]

-- `array.array("i", descriptors)` as bytes.
abbrev pub int_bytes : List ℕ → Bytes
int_bytes [] = []
int_bytes (fd ∷ fds) = le_bytes 4 fd ++ int_bytes fds

abbrev pub rights_of : List ℕ → List ControlMessage
rights_of [] = []
rights_of (fd ∷ fds) = record { is_rights = true; content = int_bytes (fd ∷ fds) } ∷ []

-- `sendmsg_strict` up to `sendmsg`, with the message that it is given.
unfoldable pub sendmsg_strict : Bytes → List ℕ → Result ControlError Message
sendmsg_strict packet descriptors = do
  frame ← decode_frame packet
  expected ← expected_fd_count frame packet
  raise_if (not (length descriptors == expected) || ltb max_fd_entries (length descriptors))
      descriptor_count_mismatch
  raise_if (any (λ fd. not (ltb fd (2 ^ 31))) descriptors) overflow_error
  ok (record { packet = packet; ancillary = rights_of descriptors; truncated = false })

-- `array.frombytes` for `count` integers.
abbrev pub ints_of : ℕ → Bytes → List ℕ
ints_of zero content = []
ints_of (suc count) content = le_value (take 4 content) ∷ ints_of count (drop 4 content)

abbrev pub descriptors_of : Bytes → List ℕ
descriptors_of content = ints_of (length content / 4) content

-- The loop of `_extract_fds` and what is behind it: what it closes, and what it returns.
unfoldable pub extract_loop : List ControlMessage → List ℕ → List ℕ × Result ControlError (List ℕ)
extract_loop [] result =
    if ltb max_fd_entries (length result)
    then (result, err too_many_descriptors)
    else ([], ok result)
extract_loop (m ∷ ms) result =
    let rest = extract_loop ms (result ++ descriptors_of m.content) in
    if not m.is_rights
    then (result, err unsupported_message)
    else if not (length m.content % 4 == 0)
    then (result, err malformed_rights)
    else rest

-- `_extract_fds`
unfoldable pub extract_fds : List ControlMessage → List ℕ × Result ControlError (List ℕ)
extract_fds ancillary =
    if ltb 1 (length ancillary) then ([], err multiple_messages) else extract_loop ancillary []

-- The lines of `recvmsg_strict` behind `_extract_fds`.
unfoldable pub check_message : Message → List ℕ → Result ControlError (Bytes × List ℕ)
check_message m descriptors =
    checked ((m.truncated, truncated_datagram) ∷ (length m.packet == 0, control_socket_closed) ∷ [])
      (do
        frame ← decode_frame m.packet
        expected ← expected_fd_count frame m.packet
        raise_if (not (length descriptors == expected)) descriptor_count_mismatch
        ok (m.packet, descriptors))

-- `except BaseException: close_fds(descriptors); raise`
abbrev pub closing :
    List ℕ → Result ControlError (Bytes × List ℕ) → List ℕ × Result ControlError (Bytes × List ℕ)
closing descriptors (ok received) = ([], ok received)
closing descriptors (err raised) = (descriptors, err raised)

abbrev pub receive :
    Message → List ℕ × Result ControlError (List ℕ) → List ℕ × Result ControlError (Bytes × List ℕ)
receive m (closed, err raised) = (closed, err raised)
receive m (closed, ok descriptors) = closing descriptors (check_message m descriptors)

-- `recvmsg_strict`: the descriptors that it closes, and what it returns or raises.
unfoldable pub recvmsg_strict : Message → List ℕ × Result ControlError (Bytes × List ℕ)
recvmsg_strict m = receive m (extract_fds m.ancillary)
