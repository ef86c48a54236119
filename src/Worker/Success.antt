-- ===== src/Worker/Success.antt =====
-- What `process_job` leaves when a stage has succeeded.
use scribe_local.Common.{
  ℕ, ◌≡◌, refl, sym, ◌∙◌, true, ◌||◌, none, some, any, Bool-cases, inl, inr, ◌⊎◌, ◌↔◌, arith,
}
use scribe_local.Types.Kind.{JobKind, done}
use scribe_local.Types.Recording.{RecordingStatus}
use scribe_local.Queue.Table.{Job, status_of}
use scribe_local.Queue.Ops.{is_live_job, get_job}
use scribe_local.Queue.WellFormed.{IsWellFormed}
use scribe_local.Worker.Window.{finished, succeeded}
use scribe_local.Worker.World.{World, Outcome, returned, ◌>>◌}
use scribe_local.Worker.Job.{
  WorkerConfig, enqueue_successors, mark_if_last, drain_if_live, on_success, process_job,
}
use scribe_local.Worker.Starts.{live}
use scribe_local.Worker.Completion.{with_done, completed, complete_succeeds, get_job-completed}
use scribe_local.Worker.Endings.{IsStarted, status_after, starts, Ends, after-Ends, started}

-- When the stage of a recording's job succeeds, in a well-formed queue that has the job's row, and
-- for a recording that exists, nothing fails: the row is done and held by nobody; of the kinds of
-- job exactly those are live that other rows have live, that follow the stage and have all their
-- predecessors done, or, after live transcription, that again while the recording uploads and has
-- segments left; and the status changes only if the stage is one of the two that end the pipeline,
-- and both are done, when it becomes ready.
pub process_job-succeeds :
    (cfg : WorkerConfig) (now : ℕ) (job : Job) (recording : ℕ) (w : World) (j : Job)
    (s : RecordingStatus)
    → job.recording_id ≡ some recording
    → IsWellFormed w.queue
    → get_job job.id w.queue ≡ some j
    → status_of recording w.queue.statuses ≡ some s
    → let r = process_job cfg now job (finished succeeded) w in
      let jobs = with_done now job.id w.queue.jobs in
      (r.1 ≡ returned tt)
      × (get_job job.id r.0.queue
          ≡ some (record j {
            state = done;
            locked_by = none;
            locked_at = none;
            error = none;
            updated_at = now;
          }))
      × ((k : JobKind)
          → (any (is_live_job recording k) r.0.queue.jobs ≡ true) ↔ (
              (any (is_live_job recording k) jobs ≡ true)
              ⊎ IsStarted recording jobs s (w.untranscribed recording) job.kind k))
      × (status_of recording r.0.queue.statuses ≡ some (status_after recording job.kind jobs s))
unfolding process_job on_success
process_job-succeeds cfg now job recording w j s owned good e known = rw run_eq (
  ends.returns,
  ends.keeps job.id _ (get_job-completed now job.id w.queue j e),
  (λ k. ((λ h. there k (sym (ends.lives k) ∙ h)), (λ h. ends.lives k ∙ back k h))),
  ends.status,
)
  where
    v : World
    v = record w { queue = completed now job.id w.queue }

    after : World × Outcome (Unit {0})
    after =
        (enqueue_successors now job.kind recording
            >> (mark_if_last job.kind recording >> drain_if_live job.kind now recording))
          v

    run_eq : process_job cfg now job (finished succeeded) w ≡ after
    run_eq = rw owned (rw (complete_succeeds now job.id w.queue good) refl)

    ends :
        Ends recording
          (starts recording now job.kind v s)
          (status_after recording job.kind v.queue.jobs s)
          v
          after
    ends = after-Ends recording now job.kind v s known

    there :
        (k : JobKind)
        → (live recording k v.queue || starts recording now job.kind v s k) ≡ true
        → (live recording k v.queue ≡ true)
          ⊎ IsStarted recording v.queue.jobs s (w.untranscribed recording) job.kind k
    there k h = elim (Bool-cases (live recording k v.queue)) [
      | inl a ↦ inl a
      | inr a ↦
          let b : starts recording now job.kind v s k ≡ true = ground (arith, a, h) in
          inr ((started recording now job.kind k v s).0 b)
    ]

    back :
        (k : JobKind)
        → (live recording k v.queue ≡ true)
          ⊎ IsStarted recording v.queue.jobs s (w.untranscribed recording) job.kind k
        → (live recording k v.queue || starts recording now job.kind v s k) ≡ true
    back k (inl a) = ground (arith, a)
    back k (inr b) = let c = (started recording now job.kind k v s).1 b in ground (arith, c)
