-- ===== src/Types/Recording.antt =====
-- `RecordingStatus` of crates/scribe-core/src/types.rs.
pub data RecordingStatus : Type 0 where
  uploading processing ready failed : RecordingStatus
