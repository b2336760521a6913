-- ===== src/Indexer.antt =====
-- `EventIndexer` of dex-indexer/src/indexer/EventIndexer.ts: its data and effects, then one module
-- for each group of methods.
pub mod Data
pub mod Action
pub mod Ranges
pub mod Moves
pub mod Returns
pub mod Pairs
pub mod Events
pub mod Sync
pub mod Poll
