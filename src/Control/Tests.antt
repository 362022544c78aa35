-- ===== src/Control/Tests.antt =====
-- Packets of the control socket at concrete values.
use wmfs.Common.{◌≡◌, refl, true, false, [], ◌∷◌, ◌++◌, Result, ok, err, replicate, arith}
use wmfs.Common.Bytes.{Bytes, IsBytes, pack, unpack, le_bytes, le_value}
use wmfs.Common.Utf8.{utf8_decode, decode_from}
use wmfs.Common.{checked}
use wmfs.Control.Frame.{
  ping, fd_transfer, kind_value, kind_of, ControlError, invalid_packet_size, unsupported_abi,
  no_empty_payload, encode_frame, decode_frame, decode_header, encode_empty,
}
use wmfs.Control.Enums.{
  okay, status_value, centralized, log_mode_value, command_ring, log, role_value, map_entry,
  retire_entry, entry_kind_value,
}
use wmfs.Control.FdBatch.{FdBatch, encode_entry, encode_entries, encode_fd_batch, decode_fd_batch}
use wmfs.Control.FdBatch.RoundTrip.{decode_fd_batch-encode_fd_batch}
use wmfs.Control.FdBatch.Canonical.{encode_fd_batch-decode_fd_batch}
use wmfs.Control.Startup.{Startup, encode_roles, encode_startup, decode_startup}
use wmfs.Control.Startup.RoundTrip.{decode_startup-encode_startup}
use wmfs.Control.Transfer.{
  Message, int_bytes, descriptors_of, expected_fd_count, recvmsg_strict, extract_fds, extract_loop,
  check_message,
}
use wmfs.Control.Transfer.Descriptors.{
  returned, recvmsg_strict-disposes, recvmsg_strict-sendmsg_strict, sendmsg_strict-encode_fd_batch,
}

-- A ping with the request ID 258.
abbrev ping_packet : Bytes
ping_packet =
    0x57 ∷ 0x4D ∷ 0x46 ∷ 0x53 ∷ 0x43 ∷ 0x54 ∷ 0x4C ∷ 0x31 ∷ 1 ∷ 0 ∷ 0 ∷ 0 ∷ 3 ∷ 0 ∷ 0 ∷ 0 ∷ 32 ∷ 0
    ∷ 0 ∷ 0 ∷ 0 ∷ 0 ∷ 0 ∷ 0 ∷ 2 ∷ 1 ∷ 0 ∷ 0 ∷ 0 ∷ 0 ∷ 0 ∷ 0 ∷ []

ping_encodes : encode_frame ping 258 [] ≡ ok ping_packet
unfolding encode_frame kind_value pack le_bytes
ping_encodes = refl

ping_decodes :
    decode_frame ping_packet ≡ ok (record { kind = ping; request_id = 258; payload = [] })
unfolding decode_frame decode_header kind_of unpack le_value checked
ping_decodes = refl

refusals :
    (decode_frame (1 ∷ 2 ∷ []) ≡ err invalid_packet_size)
    × (decode_frame (0x58 ∷ ping_packet) ≡ err unsupported_abi)
    × (encode_empty fd_transfer 1 ≡ err no_empty_payload)
unfolding decode_frame decode_header kind_of unpack le_value checked encode_empty
refusals = (refl, refl, refl)

abbrev packet_of : Result ControlError Bytes → Bytes
packet_of (ok packet) = packet
packet_of (err e) = []

-- One buffer is mapped, writable, and one is retired.
abbrev batch : FdBatch
batch = record {
  transfer_id = 9;
  session_generation = 3;
  entries =
      record {
        kind = map_entry;
        flags = 1;
        buffer_id = 70;
        generation = 1;
        allocation_id = 5;
        invocation_id = 0;
        byte_length = 4096;
      }
      ∷ record {
        kind = retire_entry;
        flags = 0;
        buffer_id = 71;
        generation = 1;
        allocation_id = 0;
        invocation_id = 0;
        byte_length = 0;
      }
      ∷ [];
}

abbrev batch_packet : Bytes
batch_packet = packet_of (encode_fd_batch batch 12)

batch_encodes : encode_fd_batch batch 12 ≡ ok batch_packet
unfolding encode_fd_batch encode_entries encode_entry entry_kind_value encode_frame kind_value pack
    le_bytes checked
batch_encodes = refl

decode_fd_batch-encode_fd_batch_example : decode_fd_batch batch_packet ≡ ok (12, batch)
decode_fd_batch-encode_fd_batch_example = decode_fd_batch-encode_fd_batch batch 12 batch_encodes

batch_packet-IsBytes : IsBytes batch_packet
unfolding encode_fd_batch encode_entries encode_entry entry_kind_value encode_frame kind_value pack
    le_bytes checked
batch_packet-IsBytes = ground arith

encode_fd_batch-decode_fd_batch_example : encode_fd_batch batch 12 ≡ ok batch_packet
encode_fd_batch-decode_fd_batch_example =
    encode_fd_batch-decode_fd_batch batch_packet-IsBytes decode_fd_batch-encode_fd_batch_example

recvmsg_strict-sendmsg_strict_example :
    recvmsg_strict (record {
      packet = batch_packet;
      ancillary = record { is_rights = true; content = int_bytes (6 ∷ []) } ∷ [];
      truncated = false;
    })
    ≡ ([], ok (batch_packet, 6 ∷ []))
recvmsg_strict-sendmsg_strict_example =
    recvmsg_strict-sendmsg_strict batch_packet (6 ∷ [])
      (sendmsg_strict-encode_fd_batch batch 12 (6 ∷ []) batch_encodes refl refl)

-- A ping carries no descriptors: the two that come with it are closed.
abbrev stray : Message
stray = record {
  packet = ping_packet;
  ancillary = record { is_rights = true; content = 4 ∷ 0 ∷ 0 ∷ 0 ∷ 9 ∷ 0 ∷ 0 ∷ 0 ∷ [] } ∷ [];
  truncated = false;
}

recvmsg_strict-disposes_example :
    (recvmsg_strict stray).0 ++ returned (recvmsg_strict stray).1
    ≡ descriptors_of (4 ∷ 0 ∷ 0 ∷ 0 ∷ 9 ∷ 0 ∷ 0 ∷ 0 ∷ [])
recvmsg_strict-disposes_example =
    recvmsg_strict-disposes ping_packet (4 ∷ 0 ∷ 0 ∷ 0 ∷ 9 ∷ 0 ∷ 0 ∷ 0 ∷ []) false refl

stray_closes : (recvmsg_strict stray).0 ≡ 4 ∷ 9 ∷ []
unfolding recvmsg_strict extract_fds extract_loop check_message expected_fd_count decode_frame
    decode_header kind_of unpack le_value checked
stray_closes = refl

abbrev hello : Startup
hello = record {
  session_generation = 3;
  interface_fingerprint = replicate 32 1;
  configuration_fingerprint = replicate 32 2;
  metadata_fingerprint = 77;
  capabilities = 5;
  operation_count = 2;
  protocol_version = 1;
  configuration_schema_version = 1;
  config = 0x7B ∷ 0x7D ∷ [];
  descriptor_roles = command_ring ∷ log ∷ [];
  log_mode = centralized;
  status = okay;
}

abbrev hello_packet : Bytes
hello_packet = packet_of (encode_startup hello false 1)

hello_encodes : encode_startup hello false 1 ≡ ok hello_packet
unfolding encode_startup encode_roles role_value log_mode_value status_value utf8_decode decode_from
    encode_frame kind_value pack le_bytes checked
hello_encodes = refl

decode_startup-encode_startup_example : decode_startup hello_packet false ≡ ok (1, hello)
decode_startup-encode_startup_example = decode_startup-encode_startup hello false 1 hello_encodes
