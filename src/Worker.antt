-- ===== src/Worker.antt =====
-- The worker of crates/scribe-pipeline/src/worker.rs: `Window` has the loop round a running stage,
-- `World` the tables that a job touches, `Job` what becomes of a claimed job.
pub mod Window
pub mod Grace
pub mod World
pub mod Job
pub mod Cascade
pub mod Starts
pub mod Outcomes
pub mod Completion
pub mod Endings
pub mod Success
pub mod Invariant
