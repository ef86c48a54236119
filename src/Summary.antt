-- ===== src/Summary.antt =====
-- The summarize stage, crates/scribe-pipeline/src/stages/summarize.rs, and the titles of title.rs.
-- `Parts` has the splitting of a transcript, `Condense` the rounds that shorten it, `Reply` the use of
-- the model's reply, `Stage` the whole stage with the rows it writes, `Titles` title.rs,
-- and `Template` the ids of crates/scribe-core/src/summary_template.rs.
pub mod Parts
pub mod Chunks
pub mod Condense
pub mod Budget
pub mod Reply
pub mod Stage
pub mod Template
pub mod Titles
pub mod Kept
