-- ===== src/Update.antt =====
-- The self-update of crates/scribe-update: `Errors` has lib.rs, `Package` package.rs and manifest.rs,
-- `Verify` verify.rs, `Files` the file system that apply.rs works on, `Apply` apply.rs.
pub mod Errors
pub mod Package
pub mod Archives
pub mod Verify
pub mod Trust
pub mod Files
pub mod Apply
pub mod Swaps
pub mod Installs
