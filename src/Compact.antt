-- ===== src/Compact.antt =====
-- internal/compact: the summary that takes the place of the old part of a session path.
pub mod Tokens
pub mod Cut
pub mod FileLists
pub mod Serialize
pub mod Compactor
pub mod Controller
mod Samples
