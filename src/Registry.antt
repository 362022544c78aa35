-- ===== src/Registry.antt =====
-- packages/wmfs/wmfs/registry.py: the registry of plugins and of the names of their operations.
pub mod Model
pub mod Names
mod Tests
