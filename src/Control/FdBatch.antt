-- ===== src/Control/FdBatch.antt =====
-- packages/wmfs/wmfs/protocol/control.py: `encode_fd_batch` and `decode_fd_batch`.
pub mod RoundTrip
pub mod Canonical
use wmfs.Common.{
  ℕ, zero, suc, ◌+◌, ◌-◌, ◌*◌, ◌^◌, ◌≤◌, ◌<◌, ◌≡◌, Bool, true, false, not, ◌&&◌, ◌||◌, List, [],
  ◌∷◌, ◌++◌, ◌==◌, ltb, if◌then◌else◌, Result, ok, err, ◌>>=◌, ◌>>◌, raise_if, or_raise, checked,
  length, drop, get_or,
}
use wmfs.Common.Bytes.{Bytes, pack, unpack}
use wmfs.Control.Frame.{
  Kind, fd_transfer, kind_value, ControlError, outside_uint64, struct_error, bad_entry_count,
  unknown_entry_flags, retire_with_flags, unexpected_or_truncated, invalid_batch_header,
  payload_size_mismatch, unknown_enum_value, fd_count_mismatch, Frame, u64, encode_frame,
  expect_frame,
}
use wmfs.Control.Enums.{FdEntryKind, map_entry, retire_entry, entry_kind_value, entry_kind_of}

abbrev pub max_fd_entries : ℕ
max_fd_entries = 240

abbrev pub fd_batch_transactional : ℕ
fd_batch_transactional = 1

pub record FdEntry : Type 0 where
  pub kind : FdEntryKind
  pub flags : ℕ
  pub buffer_id : ℕ
  pub generation : ℕ
  pub allocation_id : ℕ
  pub invocation_id : ℕ
  pub byte_length : ℕ

pub record FdBatch : Type 0 where
  pub transfer_id : ℕ
  pub session_generation : ℕ
  pub entries : List FdEntry

abbrev pub is_retire : FdEntryKind → Bool
is_retire map_entry = false
is_retire retire_entry = true

abbrev pub is_map : FdEntryKind → ℕ
is_map map_entry = 1
is_map retire_entry = 0

-- `FdBatch.fd_count`
abbrev pub fd_count : List FdEntry → ℕ
fd_count [] = 0
fd_count (e ∷ es) = is_map e.kind + fd_count es

-- `_FD_ENTRY` and `_FD_BATCH`
abbrev pub entry_widths : List ℕ
entry_widths = 4 ∷ 4 ∷ 8 ∷ 8 ∷ 8 ∷ 8 ∷ 8 ∷ []

abbrev pub entry_fields : FdEntry → List (ℕ × ℕ)
entry_fields e =
    (4, entry_kind_value e.kind)
    ∷ (4, e.flags)
    ∷ (8, e.buffer_id)
    ∷ (8, e.generation)
    ∷ (8, e.allocation_id)
    ∷ (8, e.invocation_id)
    ∷ (8, e.byte_length)
    ∷ []

abbrev pub batch_widths : List ℕ
batch_widths = 8 ∷ 8 ∷ 2 ∷ 2 ∷ 4 ∷ 8 ∷ []

abbrev pub batch_fields : FdBatch → List (ℕ × ℕ)
batch_fields b =
    (8, b.transfer_id)
    ∷ (8, b.session_generation)
    ∷ (2, length b.entries)
    ∷ (2, fd_count b.entries)
    ∷ (4, fd_batch_transactional)
    ∷ (8, 0)
    ∷ []

-- The flags are the bits 1 and 2, so that `flags & ~3` is not zero exactly where `flags` is above 3.
abbrev pub is_unknown_flags : ℕ → Bool
is_unknown_flags flags = ltb 3 flags

unfoldable pub encode_entry : FdEntry → Result ControlError Bytes
encode_entry e =
    checked
      ((is_unknown_flags e.flags, unknown_entry_flags)
        ∷ (is_retire e.kind && not (e.flags == 0), retire_with_flags)
        ∷ (not (ltb e.buffer_id (2 ^ 64)), outside_uint64)
        ∷ (not (ltb e.generation (2 ^ 64)), outside_uint64)
        ∷ (not (ltb e.allocation_id (2 ^ 64)), outside_uint64)
        ∷ (not (ltb e.invocation_id (2 ^ 64)), outside_uint64)
        ∷ (not (ltb e.byte_length (2 ^ 64)), outside_uint64)
        ∷ [])
      (or_raise (pack (entry_fields e)) struct_error)

-- The loop of `encode_fd_batch`, joined.
unfoldable pub encode_entries : List FdEntry → Result ControlError Bytes
encode_entries [] = ok []
encode_entries (e ∷ es) = do front ← encode_entry e; rest ← encode_entries es; ok (front ++ rest)

unfoldable pub encode_fd_batch : FdBatch → ℕ → Result ControlError Bytes
encode_fd_batch b request_id =
    checked
      ((length b.entries == 0 || ltb max_fd_entries (length b.entries), bad_entry_count)
        ∷ (not (ltb b.transfer_id (2 ^ 64)), outside_uint64)
        ∷ (not (ltb b.session_generation (2 ^ 64)), outside_uint64)
        ∷ [])
      (do
        encoded ← encode_entries b.entries
        header ← or_raise (pack (batch_fields b)) struct_error
        encode_frame fd_transfer request_id (header ++ encoded))

-- One round of the loop of `decode_fd_batch`, from the values that `_FD_ENTRY` unpacks.
unfoldable pub decode_entry : List ℕ → Result ControlError FdEntry
decode_entry values = do
  kind ← or_raise (entry_kind_of (get_or values 0 0)) unknown_enum_value
  raise_if (is_unknown_flags (get_or values 1 0)) unknown_entry_flags
  raise_if (is_retire kind && not (get_or values 1 0 == 0)) retire_with_flags
  ok (record {
    kind = kind;
    flags = get_or values 1 0;
    buffer_id = get_or values 2 0;
    generation = get_or values 3 0;
    allocation_id = get_or values 4 0;
    invocation_id = get_or values 5 0;
    byte_length = get_or values 6 0;
  })

unfoldable pub decode_entries : ℕ → Bytes → Result ControlError (List FdEntry)
decode_entries zero bs = ok []
decode_entries (suc count) bs = do
  e ← decode_entry (unpack entry_widths bs)
  es ← decode_entries count (drop 48 bs)
  ok (e ∷ es)

-- `decode_fd_batch` from the values of the batch header on.
unfoldable pub decode_batch : List ℕ → Bytes → Result ControlError FdBatch
decode_batch values payload =
    let count = get_or values 2 0 in
    checked
      ((
        count == 0
            || ltb max_fd_entries count
            || not (get_or values 4 0 == fd_batch_transactional)
            || not (get_or values 5 0 == 0),
        invalid_batch_header,
      )
        ∷ (not (length payload == 32 + count * 48), payload_size_mismatch)
        ∷ [])
      (do
        entries ← decode_entries count (drop 32 payload)
        raise_if (not (fd_count entries == get_or values 3 0)) fd_count_mismatch
        ok (record {
          transfer_id = get_or values 0 0;
          session_generation = get_or values 1 0;
          entries = entries;
        }))

unfoldable pub decode_fd_batch : Bytes → Result ControlError (ℕ × FdBatch)
decode_fd_batch packet = do
  frame ← expect_frame fd_transfer 32 packet
  b ← decode_batch (unpack batch_widths frame.payload) frame.payload
  ok (frame.request_id, b)
