-- ===== src/Mcp.antt =====
-- internal/mcp: the life of a server behind the Model Context Protocol.
pub mod Supervisor
mod Samples
