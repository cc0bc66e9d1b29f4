-- ===== src/Ext.antt =====
-- internal/ext: the host side of one extension process.
pub mod Extension
pub mod Supervisor
mod Samples
