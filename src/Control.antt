-- ===== src/Control.antt =====
-- packages/wmfs/wmfs/protocol/control.py: the packets of the control socket between the runtime and
-- a worker.
pub mod Frame
pub mod Canonical
pub mod Enums
pub mod FdBatch
pub mod Replies
pub mod Startup
pub mod Transfer
mod Tests
