-- ===== src/View.antt =====
-- NamespaceView (daemon/metadata_view.cpp): the version view of a namespace over sorted runs.
pub mod Run
pub mod Runs
pub mod Plan
mod Tests
