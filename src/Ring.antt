-- ===== src/Ring.antt =====
-- packages/wmfs/wmfs/transport/ring.py: the shared-memory ring between the runtime and a worker.
pub mod Model
pub mod Window
pub mod Queue
pub mod Interleaving
mod Tests
pub mod Record
