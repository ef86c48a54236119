-- ===== src/Voices.antt =====
-- The diarize stage, crates/scribe-pipeline/src/stages/diarize.rs: who the voices of a recording are.
-- `Speakers` has crates/scribe-db/src/recording_speakers.rs as well.
pub mod Identities
pub mod Matching
pub mod Speakers
pub mod Rows
pub mod Turns
pub mod Tiling
