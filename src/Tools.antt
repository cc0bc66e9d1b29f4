-- ===== src/Tools.antt =====
-- internal/tools: the limits on a tool's output, and the buffer of a shell command's.
pub mod Truncate
pub mod Accumulator
pub mod Edits
mod Samples
