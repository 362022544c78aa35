-- ===== src/Outputs.antt =====
-- packages/wmfs/wmfs/output_metadata.py: the shapes and the dtypes of the outputs of a call.
pub mod Model
pub mod Reuse
pub mod Safety
pub mod Evaluation
pub mod Completion
pub mod Aliasing
