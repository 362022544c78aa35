-- ===== src/Metadata.antt =====
-- packages/wmfs/wmfs/protocol/metadata.py: the metadata of plugins and of their operations.
pub mod Model
pub mod Words
pub mod Validate
pub mod Validated
pub mod Plugin
pub mod Differentiable
pub mod Reader
pub mod Tests
