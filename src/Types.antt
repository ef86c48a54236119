-- ===== src/Types.antt =====
-- The domain model of crates/scribe-core/src/types.rs: stages and queue states.
pub mod Kind
pub mod Dag
pub mod Recording
