-- ===== src/Session.antt =====
-- internal/session: append-only trees of conversation entries.
pub mod Entry
pub mod Ids
pub mod Tree
pub mod MemStore
pub mod EntryJson
pub mod FileStore
pub mod Loader
mod Samples
mod FileSamples
mod JsonSamples
