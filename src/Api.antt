-- ===== src/Api.antt =====
-- Parts of crates/scribe-api/src.
pub mod Range
pub mod ByteRanges
pub mod Progress
pub mod Stages
pub mod Settings
pub mod SettingsLaws
pub mod Lifecycle
pub mod Restart
pub mod Auth
pub mod Access
