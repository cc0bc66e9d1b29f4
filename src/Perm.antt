-- ===== src/Perm.antt =====
-- internal/perm: the permission engine, which decides every tool call before it runs.
pub mod Glob
pub mod Paths
pub mod Rule
pub mod Call
pub mod Grant
pub mod Policy
pub mod Engine
