-- ===== src/LiveView.antt =====
-- wfs_view: the live inode table and the namespace operations on a mounted World (core/src/view.cpp).
pub mod Types
pub mod Paths
pub mod Ops
pub mod Xattrs
pub mod Readdir
pub mod Calls
pub mod Confined
pub mod Keeps
pub mod Kept
pub mod Listed
pub mod Reached
pub mod Climb
pub mod Moves
pub mod Renames
pub mod Lookups
pub mod Listing
mod Tests
