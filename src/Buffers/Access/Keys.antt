-- ===== src/Buffers/Access/Keys.antt =====
-- `_AccessKey` of packages/wmfs/wmfs/memory/buffers.py, and its equality.
use wmfs.Common.{ℕ, ◌≡◌, ◌↔◌, Bool, true, ◌&&◌, Eq, ◌==◌, arith}

pub record AccessKey : Type 0 where
  pub buffer_id : ℕ
  pub generation : ℕ
  pub allocation_id : ℕ

abbrev pub key_eq : AccessKey → AccessKey → Bool
key_eq a b =
    a.buffer_id == b.buffer_id && a.generation == b.generation && a.allocation_id == b.allocation_id

pub key_eq_iff : (a b : AccessKey) → (key_eq a b ≡ true) ↔ (a ≡ b)
key_eq_iff a b = ground arith

instance abbrev pub access_key_eq : Eq AccessKey
access_key_eq = record { beq = key_eq; beq_iff = key_eq_iff }
