-- ===== src/Store.antt =====
-- LevelStore (daemon/level_store.cpp): one LevelDB per repository, objects by identity, named roots and
-- three counters, all changed by one synchronous batch.
pub mod Backend
pub mod Transact
pub mod Roots
pub mod Updates
pub mod Prepared
pub mod Objects
pub mod Batch
pub mod Commit
pub mod Durable
mod Refused
mod Tests
