-- ===== src/Examples/LifecycleRuns.antt =====
-- Runs of the endpoints that start the pipeline.
use scribe_local.Common.{◌≡◌, refl, true, not, [], ◌∷◌, some, none, filter, any}
use scribe_local.Common.Int.{pos}
use scribe_local.Common.Text.{codes}
use scribe_local.Common.Json.{object, end}
use scribe_local.Types.Kind.{transcode, diarize}
use scribe_local.Types.Recording.{RecordingStatus, uploading, processing, ready}
use scribe_local.Queue.Ops.{fresh_job, is_of}
use scribe_local.Queue.Table.{status_of}
use scribe_local.Worker.Cascade.{HasLive}
use scribe_local.Api.Lifecycle.{
  Store, utterances, recording_artifacts, accepted, complete_recording, is_row_of,
  reprocess_recording, is_transcript_of, rediarize_recording,
}
use scribe_local.Api.Restart.{
  is_rerun, is_stale, complete_recording_lem, reprocess_recording_lem, rediarize_recording_lem,
}
use scribe_local.Examples.Rows.{done_row, table_of}

abbrev store : RecordingStatus → Store
store status = record {
  queue = record (table_of done_row) { statuses = (7, status) ∷ [] };
  rows = (utterances, 7) ∷ (recording_artifacts (codes "transcript"), 7) ∷ [];
  durations = λ _. none;
  marks = λ _. [];
}

complete_recording_lem_example :
    let r = complete_recording 900 7 (some (pos 60000)) none (store uploading) in
    (r.1 ≡ accepted)
    × HasLive 7 transcode r.0.queue
    × (status_of 7 r.0.queue.statuses ≡ some processing)
complete_recording_lem_example =
    complete_recording_lem 900 7 (some (pos 60000)) none (store uploading) refl

reprocess_recording_lem_example :
    let r = reprocess_recording 900 7 (store ready) in
    (r.1 ≡ accepted)
    × (filter (is_of 7) r.0.queue.jobs ≡ fresh_job 900 2 7 transcode (object end) (pos 0) ∷ [])
    × (filter (λ j. not (is_of 7 j)) r.0.queue.jobs ≡ filter (λ j. not (is_of 7 j)) (done_row ∷ []))
    × (filter (is_row_of 7) r.0.rows ≡ [])
    × (status_of 7 r.0.queue.statuses ≡ some processing)
reprocess_recording_lem_example = reprocess_recording_lem 900 7 (store ready) ready refl

rediarize_recording_lem_example :
    let r = rediarize_recording 900 7 (store ready) in
    (r.1 ≡ accepted)
    × (filter (is_rerun 7) r.0.queue.jobs ≡ fresh_job 900 2 7 diarize (object end) (pos 0) ∷ [])
    × (filter (λ j. not (is_rerun 7 j)) r.0.queue.jobs
        ≡ filter (λ j. not (is_rerun 7 j)) (done_row ∷ []))
    × (filter (is_stale 7) r.0.rows ≡ [])
    × (filter (λ x. not (is_stale 7 x)) r.0.rows
        ≡ filter (λ x. not (is_stale 7 x)) (store ready).rows)
    × (any (is_transcript_of 7) r.0.rows ≡ true)
    × (status_of 7 r.0.queue.statuses ≡ some processing)
rediarize_recording_lem_example = rediarize_recording_lem 900 7 (store ready) ready refl refl
