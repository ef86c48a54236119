-- ===== src/Worker/Job.antt =====
-- `process_job` of crates/scribe-pipeline/src/worker.rs once the stage has ended. All statements run
-- at the one instant `now`, in microseconds as in the queue.
use scribe_local.Common.{
  ℕ, ◌*◌, max, Bool, true, false, ◌&&◌, List, [], ◌∷◌, Option, none, some, ltb, ◌==◌, if◌then◌else◌,
}
use scribe_local.Common.Text.{Text}
use scribe_local.Common.Json.{object, end}
use scribe_local.Types.Kind.{JobKind, embed, summarize, transcribe_segment, successors}
use scribe_local.Types.Recording.{RecordingStatus, uploading, ready}
use scribe_local.Queue.Table.{Job}
use scribe_local.Queue.Ops.{complete, enqueue, fail, defer, window_closed as window_closed_note}
use scribe_local.Queue.Queries.{predecessors_done, count_done}
use scribe_local.Worker.Window.{succeeded, erred, StageOutcome, finished, window_closed}
use scribe_local.Worker.World.{
  M, bind, returned, ◌>>=◌, ◌>>◌, pure, query, execute, ignore_error, set_recording_status,
  get_recording_status,
}

abbrev pub second_us : ℕ
second_us = 1000000

-- `cfg.worker`, as far as a job's end depends on it.
pub record WorkerConfig : Type 0 where
  pub poll_secs : ℕ
  pub max_attempts : ℕ

abbrev pub enqueue_stage : ℕ → ℕ → JobKind → M (Unit {0})
enqueue_stage now recording kind w =
    (query (enqueue now recording kind (object end)) >>= λ _. pure tt) w

abbrev pub enqueue_if : Bool → ℕ → ℕ → JobKind → M (Unit {0})
enqueue_if true now recording kind w = enqueue_stage now recording kind w
enqueue_if false now recording kind w = (w, returned tt)

-- The loop of `enqueue_successors`.
unfoldable pub enqueue_ready : ℕ → ℕ → List JobKind → M (Unit {0})
enqueue_ready now recording [] w = pure tt w
enqueue_ready now recording (s ∷ ss) w =
    bind (enqueue_if (predecessors_done recording s w.queue) now recording s w)
      (λ _. enqueue_ready now recording ss)

unfoldable pub enqueue_successors : ℕ → JobKind → ℕ → M (Unit {0})
unfolding enqueue_ready
enqueue_successors now kind recording = enqueue_ready now recording (successors kind)

unfoldable pub maybe_mark_ready : ℕ → M (Unit {0})
maybe_mark_ready recording w =
    if count_done recording (embed ∷ summarize ∷ []) w.queue == 2
    then set_recording_status recording ready w
    else pure tt w

abbrev pub is_uploading : RecordingStatus → Bool
is_uploading uploading = true
is_uploading _ = false

-- Live transcription drains itself while the recording still uploads.
unfoldable pub drain : ℕ → ℕ → M (Unit {0})
drain now recording = do
  status ← get_recording_status recording
  λ w.
      if is_uploading status && ltb 0 (w.untranscribed recording)
      then enqueue_stage now recording transcribe_segment w
      else pure tt w

abbrev pub mark_if_last : JobKind → ℕ → M (Unit {0})
mark_if_last embed recording = maybe_mark_ready recording
mark_if_last summarize recording = maybe_mark_ready recording
mark_if_last _ recording = pure tt

abbrev pub drain_if_live : JobKind → ℕ → ℕ → M (Unit {0})
drain_if_live transcribe_segment now recording = drain now recording
drain_if_live _ now recording = pure tt

unfoldable pub on_success : ℕ → Job → ℕ → M (Unit {0})
unfolding enqueue_successors maybe_mark_ready drain
on_success now job recording = do
  execute (complete now job.id)
  enqueue_successors now job.kind recording
  mark_if_last job.kind recording
  drain_if_live job.kind now recording

abbrev pub park_recording : Bool → ℕ → M (Unit {0})
park_recording true recording = pure tt
park_recording false recording =
    ignore_error (set_recording_status recording RecordingStatus.failed)

unfoldable pub on_failure : WorkerConfig → ℕ → Job → ℕ → Text → M (Unit {0})
on_failure cfg now job recording message = do
  requeued ← query (fail now job.id message cfg.max_attempts (max cfg.poll_secs 1 * second_us))
  park_recording requeued recording

abbrev pub end_stage : WorkerConfig → ℕ → Job → ℕ → StageOutcome → M (Unit {0})
end_stage cfg now job recording (finished succeeded) = on_success now job recording
end_stage cfg now job recording (finished (erred message)) =
    on_failure cfg now job recording message
end_stage cfg now job recording (window_closed retry_in) =
    execute (defer now job.id window_closed_note (retry_in * second_us))

-- A job with no recording is completed as it is, and its stage does not run.
abbrev pub end_job : WorkerConfig → ℕ → Job → StageOutcome → Option ℕ → M (Unit {0})
end_job cfg now job outcome none = execute (complete now job.id)
end_job cfg now job outcome (some recording) = end_stage cfg now job recording outcome

unfoldable pub process_job : WorkerConfig → ℕ → Job → StageOutcome → M (Unit {0})
unfolding on_success on_failure
process_job cfg now job outcome = end_job cfg now job outcome job.recording_id
