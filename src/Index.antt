-- ===== src/Index.antt =====
-- The embed stage, crates/scribe-pipeline/src/stages/embed.rs: the chunks of a transcript that are
-- indexed for search.
pub mod Windows
pub mod Coverage
pub mod Rows
