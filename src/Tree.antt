-- ===== src/Tree.antt =====
-- The CoW metadata tree (daemon/metadata_tree.cpp): its nodes and the operations that read it.
pub mod Nodes
pub mod Read
pub mod Bounds
pub mod Format
pub mod Visits
pub mod Entries
pub mod Prefixes
pub mod Picks
pub mod Pages
pub mod Blocks
pub mod Listing
mod Tests
