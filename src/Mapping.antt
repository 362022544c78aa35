-- ===== src/Mapping.antt =====
-- packages/wmfs-plugin/wmfs_plugin/fd_transport.py: the buffers that a worker has mapped, and the
-- batches of descriptors that map and retire them.
pub mod Cache
pub mod Checked
pub mod Bounds
pub mod Receiver
pub mod Disposal
mod Tests
