-- ===== src/Workset.antt =====
-- internal/workset: the files that a session has touched, and what each request shows the model.
pub mod Files
pub mod Builder
mod Samples
