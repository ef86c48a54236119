-- ===== src/Transcript.antt =====
-- The merge stage of crates/scribe-pipeline/src/stages/merge.rs: `Words` names the speaker of each
-- word, `Utterances` groups the words, `Replies` reads a language model's corrections.
pub mod Words
pub mod Tallies
pub mod Speakers
pub mod Utterances
pub mod Grouping
pub mod Replies
pub mod Corrections
pub mod Fillers
