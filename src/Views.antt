-- ===== src/Views.antt =====
-- Which bytes a tensor view touches: packages/wmfs/wmfs/memory/buffers.py for the runtime's own
-- tensors, packages/wmfs-plugin/wmfs_plugin/fd_transport.py for those that a worker maps.
pub mod Extent
pub mod Contiguous
pub mod Managed
pub mod Mapped
mod Tests
