-- ===== src/Queue.antt =====
-- The work queue of crates/scribe-db/src/queue.rs over the `jobs` table of
-- migrations/0001_init.sql: `Table` is the table and what SQL does to it, `Ops` and `Queries` the operations.
pub mod Table
pub mod Ops
pub mod WellFormed
pub mod Queries
pub mod Steps
pub mod Keeping
pub mod Histories
pub mod Rows
pub mod Claim
pub mod Enqueue
pub mod Lease
pub mod Attempts
pub mod Ready
