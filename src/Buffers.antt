-- ===== src/Buffers.antt =====
-- packages/wmfs/wmfs/memory/buffers.py: the shared buffers of a session.
pub mod Access
pub mod Arena
pub mod Pool
