-- ===== src/Buffers/Pool.antt =====
-- packages/wmfs/wmfs/memory/buffers.py: the regions that `BufferManager` keeps in pooled mode.
pub mod Model
pub mod Limits
mod Tests
