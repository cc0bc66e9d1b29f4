-- ===== src/Agent.antt =====
-- internal/agent: the runtime loop and what it stands on.
pub mod Queue
pub mod Messages
pub mod Retry
pub mod Turn
pub mod Loop
pub mod Events
pub mod Facade
pub mod ToolExec
mod Samples
