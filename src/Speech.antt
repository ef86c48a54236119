-- ===== src/Speech.antt =====
-- The speech engine of crates/scribe-asr: `Wav` and `WavWriter` have src/wav.rs, `Tokens` and `Decode` have
-- src/real/asr.rs.
pub mod Wav
pub mod WavWriter
pub mod WavFiles
pub mod Tokens
pub mod Spread
pub mod Decode
pub mod Windows
pub mod Recovery
