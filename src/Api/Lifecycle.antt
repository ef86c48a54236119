-- ===== src/Api/Lifecycle.antt =====
-- `complete_recording`, `reprocess_recording` and `rediarize_recording` of
-- crates/scribe-api/src/handlers/recordings.rs, with the resets of
-- crates/scribe-db/src/recordings.rs. A reset is one transaction. Of the tables that a reset clears
-- only which rows stand for which recording is kept.
use scribe_local.Common.{
  ℕ, Bool, true, false, not, ◌&&◌, List, [], ◌∷◌, Option, none, some, ◌==◌, if◌then◌else◌, filter,
  any,
}
use scribe_local.Common.Int.{ℤ}
use scribe_local.Common.Text.{Text, codes, text_eq}
use scribe_local.Common.Json.{object, end}
use scribe_local.Types.Kind.{JobKind, transcode, diarize, merge, embed, summarize, same_kind}
use scribe_local.Types.Recording.{RecordingStatus, uploading, processing}
use scribe_local.Queue.Table.{Job, Db, status_of, with_status, DbError, Result, ok, err}
use scribe_local.Queue.Ops.{enqueue, is_of, delete_jobs_by_recording}

pub data Table : Type 0 where
  utterances chunks summaries recording_speakers : Table
  recording_artifacts : Text → Table

pub record Store : Type 0 where
  pub queue : Db
  pub rows : List (Table × ℕ)
  pub durations : ℕ → Option ℤ
  pub marks : ℕ → List ℤ

pub data ApiError : Type 0 where
  not_found conflict : ApiError
  database : DbError → ApiError

pub data Reply : Type 0 where
  accepted : Reply
  refused : ApiError → Reply

abbrev pub put {ℓ} : {A : Type ℓ} → ℕ → A → (ℕ → A) → ℕ → A
put r a f q = if q == r then a else f q

abbrev pub enqueued : Store → Result (Db × Job) → Store × Reply
enqueued s (ok (db, j)) = (record s { queue = db }, accepted)
enqueued s (err e) = (s, refused (database e))

abbrev pub start : ℕ → ℕ → JobKind → Store → Store × Reply
start now id kind s = enqueued s (enqueue now id kind (object end) s.queue)

abbrev pub with_duration : ℕ → Option ℤ → Store → Store
with_duration id none s = s
with_duration id (some d) s = record s { durations = put id (some d) s.durations }

abbrev pub with_marks : ℕ → Option (List ℤ) → Store → Store
with_marks id none s = s
with_marks id (some m) s = record s { marks = put id m s.marks }

abbrev pub with_processing : ℕ → Store → Store
with_processing id s = record s {
  queue = record s.queue { statuses = with_status id processing s.queue.statuses };
}

abbrev pub complete_from :
    ℕ → ℕ → Option ℤ → Option (List ℤ) → Store → Option RecordingStatus → Store × Reply
complete_from now id duration marks s none = (s, refused not_found)
complete_from now id duration marks s (some uploading) =
    start now id transcode (with_processing id (with_marks id marks (with_duration id duration s)))
complete_from now id duration marks s (some _) = (s, refused conflict)

unfoldable pub complete_recording : ℕ → ℕ → Option ℤ → Option (List ℤ) → Store → Store × Reply
complete_recording now id duration marks s =
    complete_from now id duration marks s (status_of id s.queue.statuses)

abbrev pub is_row_of : ℕ → Table × ℕ → Bool
is_row_of id (t, r) = r == id

unfoldable pub reset_for_reprocess : ℕ → Store → Store
reset_for_reprocess id s = with_processing id (record s {
  rows = filter (λ x. not (is_row_of id x)) s.rows;
  queue = (delete_jobs_by_recording id s.queue).0;
})

abbrev pub reprocess_from : ℕ → ℕ → Store → Option RecordingStatus → Store × Reply
reprocess_from now id s none = (s, refused not_found)
reprocess_from now id s (some old) = start now id transcode (reset_for_reprocess id s)

unfoldable pub reprocess_recording : ℕ → ℕ → Store → Store × Reply
unfolding reset_for_reprocess
reprocess_recording now id s = reprocess_from now id s (status_of id s.queue.statuses)

abbrev pub is_artifact : Text → Table → Bool
is_artifact kind (recording_artifacts k) = text_eq k kind
is_artifact kind _ = false

abbrev pub is_transcript_of : ℕ → Table × ℕ → Bool
is_transcript_of id (t, r) = (r == id) && is_artifact (codes "transcript") t

-- The rows that diarization feeds: all but the artifacts, of which only its own.
abbrev pub follows_diarize : Table → Bool
follows_diarize (recording_artifacts k) = text_eq k (codes "diarization")
follows_diarize _ = true

abbrev pub is_dropped_row : ℕ → Table × ℕ → Bool
is_dropped_row id (t, r) = (r == id) && follows_diarize t

abbrev pub rerun_kinds : List JobKind
rerun_kinds = diarize ∷ merge ∷ embed ∷ summarize ∷ []

abbrev pub is_dropped_job : ℕ → Job → Bool
is_dropped_job id j = is_of id j && any (same_kind j.kind) rerun_kinds

unfoldable pub reset_for_rediarize : ℕ → Store → Store
reset_for_rediarize id s = with_processing id (record s {
  rows = filter (λ x. not (is_dropped_row id x)) s.rows;
  queue = record s.queue { jobs = filter (λ j. not (is_dropped_job id j)) s.queue.jobs };
})

abbrev pub rediarize_from : ℕ → ℕ → Store → Option RecordingStatus → Store × Reply
rediarize_from now id s none = (s, refused not_found)
rediarize_from now id s (some old) =
    if any (is_transcript_of id) s.rows
    then start now id diarize (reset_for_rediarize id s)
    else (s, refused conflict)

unfoldable pub rediarize_recording : ℕ → ℕ → Store → Store × Reply
unfolding reset_for_rediarize
rediarize_recording now id s = rediarize_from now id s (status_of id s.queue.statuses)
