-- ===== src/Indexer.antt =====
-- The event indexer (indexer/src).
pub mod Fetch
pub mod Events
pub mod Writes
pub mod Processors
pub mod Json
pub mod Parse
pub mod Sync
mod Tests
