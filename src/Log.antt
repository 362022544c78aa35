-- ===== src/Log.antt =====
-- packages/wmfs-plugin/wmfs_plugin/log_codec.py: a log record and the tables of its encoding. A
-- number that is packed unsigned is natural, a float is its 64 bits, and a dictionary of fields is
-- in the order of insertion.
pub mod Encode
pub mod Decode
pub mod Fronts
pub mod Fields
pub mod Bounds
pub mod Packets
pub mod RoundTrip
pub mod Queue
mod Tests
use wmfs.Common.{ℕ, ◌+◌, ◌*◌, ◌/◌, ◌%◌, ◌^◌, Bool, not, ◌||◌, List, [], ◌∷◌, ◌==◌}
use wmfs.Common.Dict.{Dict}
use wmfs.Common.Int.{ℤ}
use wmfs.Common.Utf8.{Text}

-- The exceptions of `encode_log_record` and of `decode_log_record`.
pub data LogError : Type 0 where
  invalid_level integer_out_of_range float_not_finite unsupported_field : LogError
  unknown_flags not_encodable struct_error : LogError
  invalid_packet_size invalid_header invalid_header_value invalid_text_bounds : LogError
  text_not_utf8 truncated_field invalid_field field_not_utf8 inconsistent_field : LogError
  invalid_boolean_field non_finite_field trailing_data : LogError

-- `LogValue`, and a value of another class
pub data LogValue : Type 0 where
  boolean : Bool → LogValue
  integer : ℤ → LogValue
  real : ℕ → LogValue
  string : Text → LogValue
  unsupported : LogValue

pub record LogContext : Type 0 where
  pub session : ℕ
  pub submission : ℕ
  pub invocation : ℕ
  pub operation : ℕ

pub record LogRecord : Type 0 where
  pub level : ℕ
  pub message : Text
  pub category : Text
  pub fields : Dict Text LogValue
  pub sequence : ℕ
  pub time_ns : ℕ
  pub context : LogContext
  pub flags : ℕ
  pub dropped_before : ℕ

-- record.level in {10, 20, 30, 40, 50}
unfoldable pub is_level : ℕ → Bool
is_level n = n == 10 || (n == 20 || (n == 30 || (n == 40 || n == 50)))

-- math.isfinite, of the float with the bits
unfoldable pub is_finite : ℕ → Bool
is_finite bits = not (bits / 2 ^ 52 % 2048 == 2047)

-- `LOG_MAGIC`
abbrev pub log_magic : ℕ
log_magic = 3550894020438150487

-- `_HEADER`
abbrev pub log_header_widths : List ℕ
log_header_widths = 8 ∷ 2 ∷ 2 ∷ 4 ∷ 4 ∷ 4 ∷ 4 ∷ 4 ∷ 4 ∷ 4 ∷ 4 ∷ 8 ∷ 8 ∷ 8 ∷ 8 ∷ 8 ∷ 8 ∷ 8 ∷ []

-- `_FIELD`
abbrev pub log_field_widths : List ℕ
log_field_widths = 2 ∷ 2 ∷ 4 ∷ 4 ∷ 8 ∷ 4 ∷ []
