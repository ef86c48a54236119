-- ===== src/Examples/WorkerRuns.antt =====
-- Runs of the worker.
use scribe_local.Common.{
  ℕ, ◌+◌, ◌*◌, ◌≡◌, refl, true, false, List, [], ◌∷◌, some, none, any, ◌⊎◌, ◌↔◌,
}
use scribe_local.Common.Text.{codes}
use scribe_local.Types.Kind.{
  JobKind, done, transcode, transcribe, successors, predecessors, same_kind, bypasses_schedule,
}
use scribe_local.Types.Recording.{RecordingStatus, processing}
use scribe_local.Schedule.Policy.{in_window, outside_window, second_ns}
use scribe_local.Queue.Ops.{is_live_job, get_job, park_job}
use scribe_local.Queue.Queries.{predecessors_done, count_done}
use scribe_local.Worker.Window.{
  Check, Event, checked, succeeded, erred, finished, window_closed, retry_delay,
  run_stage_within_window, watch,
}
use scribe_local.Worker.Grace.{OverrunsLater, run_stage_within_window-Overruns}
use scribe_local.Worker.World.{returned}
use scribe_local.Queue.Table.{status_of}
use scribe_local.Worker.Job.{WorkerConfig, enqueue_successors, process_job}
use scribe_local.Worker.Cascade.{HasLive, enqueue_successors-HasLive}
use scribe_local.Worker.Outcomes.{process_job-parks}
use scribe_local.Worker.Completion.{with_done}
use scribe_local.Worker.Endings.{IsStarted, status_after}
use scribe_local.Worker.Success.{process_job-succeeds}
use scribe_local.Examples.Rows.{held_row, table_of, held-IsWellFormed, done_row, world_of}

abbrev cfg : ℕ → WorkerConfig
cfg n = record { poll_secs = 5; max_attempts = n }

held_row_found : get_job 1 (table_of held_row) ≡ some held_row
unfolding get_job
held_row_found = refl

transcribe_may_run : predecessors_done 7 transcribe (table_of done_row) ≡ true
unfolding predecessors_done count_done predecessors
transcribe_may_run = refl

transcribe_follows : any (same_kind transcribe) (successors transcode) ≡ true
unfolding successors
transcribe_follows = refl

enqueue_successors-HasLive_example :
    ((enqueue_successors 300 transcode 7 (world_of done_row)).1 ≡ returned tt)
    × HasLive 7 transcribe (enqueue_successors 300 transcode 7 (world_of done_row)).0.queue
enqueue_successors-HasLive_example =
    enqueue_successors-HasLive 300 7 transcode transcribe (world_of done_row) processing refl
      transcribe_follows transcribe_may_run

process_job-succeeds_example :
    let r = process_job (cfg 3) 300 held_row (finished succeeded) (world_of held_row) in
    let jobs = with_done 300 1 (held_row ∷ []) in
    (r.1 ≡ returned tt)
    × (get_job 1 r.0.queue
        ≡ some (record held_row {
          state = done;
          locked_by = none;
          locked_at = none;
          error = none;
          updated_at = 300;
        }))
    × ((k : JobKind)
        → (any (is_live_job 7 k) r.0.queue.jobs ≡ true)
          ↔ ((any (is_live_job 7 k) jobs ≡ true) ⊎ IsStarted 7 jobs processing 0 transcode k))
    × (status_of 7 r.0.queue.statuses ≡ some (status_after 7 transcode jobs processing))
process_job-succeeds_example =
    process_job-succeeds (cfg 3) 300 held_row 7 (world_of held_row) held_row processing refl
      held-IsWellFormed held_row_found refl

process_job-parks_example :
    let r =
      process_job (cfg 1) 300 held_row (finished (erred (codes "no model"))) (world_of held_row) in
    (r.1 ≡ returned tt)
    × (get_job 1 r.0.queue
        ≡ some (record (park_job 1 (codes "no model") held_row) { updated_at = 300 }))
    × (status_of 7 r.0.queue.statuses ≡ some RecordingStatus.failed)
process_job-parks_example =
    process_job-parks (cfg 1) 300 held_row 7 (world_of held_row) held_row refl held-IsWellFormed
      held_row_found refl (codes "no model") processing refl refl

abbrev shut : ℕ → Check
shut at = record {
  at = at;
  grace_minutes = 1;
  decision = record { allowed = false; reason = outside_window; next_change_secs = some 7200 };
}

abbrev allowing : Check
allowing = record {
  at = 5;
  grace_minutes = 1;
  decision = record { allowed = true; reason = in_window; next_change_secs = some 900 };
}

abbrev events : List Event
events = checked allowing ∷ checked (shut 10) ∷ checked (shut (10 + 60 * second_ns)) ∷ []

events_overrun : run_stage_within_window transcribe events ≡ some (window_closed 7200)
unfolding run_stage_within_window watch retry_delay bypasses_schedule
events_overrun = refl

run_stage_within_window-Overruns_example :
    (bypasses_schedule transcribe ≡ false) × OverrunsLater 7200 events
run_stage_within_window-Overruns_example =
    run_stage_within_window-Overruns transcribe events 7200 events_overrun
