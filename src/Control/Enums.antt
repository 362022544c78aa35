-- ===== src/Control/Enums.antt =====
-- packages/wmfs/wmfs/protocol/control.py: the enumerations inside the payloads, with their numbers.
-- A number that is none of them, for which Python raises `ValueError`, is `none`.
use wmfs.Common.{ℕ, ◌≡◌, Option, some, none, ◌==◌, if◌then◌else◌, arith}

pub data Status : Type 0 where
  okay : Status
  invalid_argument : Status
  unsupported : Status
  identity_mismatch : Status
  configuration_rejected : Status
  internal_error : Status

unfoldable pub status_value : Status → ℕ
status_value okay = 0
status_value invalid_argument = 1
status_value unsupported = 2
status_value identity_mismatch = 3
status_value configuration_rejected = 4
status_value internal_error = 5

unfoldable pub status_of : ℕ → Option Status
status_of n =
    if n == 0
    then some okay
    else if n == 1
    then some invalid_argument
    else if n == 2
    then some unsupported
    else if n == 3
    then some identity_mismatch
    else if n == 4
    then some configuration_rejected
    else if n == 5
    then some internal_error
    else none

pub data LogMode : Type 0 where
  disabled : LogMode
  centralized : LogMode
  worker_file : LogMode

unfoldable pub log_mode_value : LogMode → ℕ
log_mode_value disabled = 0
log_mode_value centralized = 1
log_mode_value worker_file = 2

unfoldable pub log_mode_of : ℕ → Option LogMode
log_mode_of n =
    if n == 0
    then some disabled
    else if n == 1
    then some centralized
    else if n == 2
    then some worker_file
    else none

pub data DescriptorRole : Type 0 where
  command_ring : DescriptorRole
  command_data_event : DescriptorRole
  command_space_event : DescriptorRole
  completion_ring : DescriptorRole
  completion_data_event : DescriptorRole
  completion_space_event : DescriptorRole
  fd_control : DescriptorRole
  log : DescriptorRole

unfoldable pub role_value : DescriptorRole → ℕ
role_value command_ring = 1
role_value command_data_event = 2
role_value command_space_event = 3
role_value completion_ring = 4
role_value completion_data_event = 5
role_value completion_space_event = 6
role_value fd_control = 7
role_value log = 8

unfoldable pub role_of : ℕ → Option DescriptorRole
role_of n =
    if n == 1
    then some command_ring
    else if n == 2
    then some command_data_event
    else if n == 3
    then some command_space_event
    else if n == 4
    then some completion_ring
    else if n == 5
    then some completion_data_event
    else if n == 6
    then some completion_space_event
    else if n == 7
    then some fd_control
    else if n == 8
    then some log
    else none

pub data FdEntryKind : Type 0 where
  map_entry : FdEntryKind
  retire_entry : FdEntryKind

unfoldable pub entry_kind_value : FdEntryKind → ℕ
entry_kind_value map_entry = 1
entry_kind_value retire_entry = 2

unfoldable pub entry_kind_of : ℕ → Option FdEntryKind
entry_kind_of n = if n == 1 then some map_entry else if n == 2 then some retire_entry else none

pub status_of-status_value : (s : Status) → status_of (status_value s) ≡ some s
unfolding status_of status_value
status_of-status_value s = ground arith

pub log_mode_of-log_mode_value : (m : LogMode) → log_mode_of (log_mode_value m) ≡ some m
unfolding log_mode_of log_mode_value
log_mode_of-log_mode_value m = ground arith

pub role_of-role_value : (r : DescriptorRole) → role_of (role_value r) ≡ some r
unfolding role_of role_value
role_of-role_value r = ground arith

pub entry_kind_of-entry_kind_value : (k : FdEntryKind) → entry_kind_of (entry_kind_value k) ≡ some k
unfolding entry_kind_of entry_kind_value
entry_kind_of-entry_kind_value k = ground arith

pub entry_kind_value-entry_kind_of :
    (n : ℕ) {k : FdEntryKind} → entry_kind_of n ≡ some k → entry_kind_value k ≡ n
unfolding entry_kind_of entry_kind_value
entry_kind_value-entry_kind_of n {k} h = ground arith
