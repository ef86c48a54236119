-- ===== src/Schedule.antt =====
-- The processing schedule of crates/scribe-core/src/schedule.rs: `Policy` has the definitions; `Gate`
-- is the cache of crates/scribe-pipeline/src/gate.rs.
pub mod Policy
pub mod Normalize
pub mod Merge
pub mod Windows
pub mod Verdict
pub mod Stable
pub mod Decide
pub mod Gate
pub mod Staleness
