-- ===== src/Buffers/Access.antt =====
-- packages/wmfs/wmfs/memory/buffers.py: reader and writer reservations of `BufferManager`.
pub mod Keys
pub mod Model
pub mod Counts
pub mod Exclusion
pub mod Requests
pub mod Steps
pub mod Fairness
pub mod Passes
pub mod Settled
mod Tests
