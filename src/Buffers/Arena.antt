-- ===== src/Buffers/Arena.antt =====
-- packages/wmfs/wmfs/memory/buffers.py: the shared-memory arena of `BufferManager`.
pub mod FreeList
pub mod Cover
pub mod Gaps
pub mod Search
pub mod Model
pub mod Invariant
pub mod Steps
pub mod Safety
mod Tests
