-- ===== src/Invocation.antt =====
-- packages/wmfs/wmfs/invocation.py: the binding of the arguments of a call and the plan of its outputs.
pub mod Arguments
pub mod Dtypes
pub mod Model
pub mod Binding
pub mod Planning
pub mod Outputs
pub mod Access
mod Tests
