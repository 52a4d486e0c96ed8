-- ===== src/Locks.antt =====
-- `Namespace::try_lock_range` and `Namespace::try_lock` of daemon/namespace.cpp. The definitions stand
-- in the children Ranges and Step, and the proofs in the other children.
pub mod Ranges
pub mod Cover
pub mod Order
pub mod Grant
pub mod Conflicts
pub mod Outcome
pub mod Total
pub mod Step
pub mod Exclusion
mod Tests
