-- ===== src/Worker/Outcomes.antt =====
-- What `process_job` writes when the window closes under a stage, and when the stage fails.
use scribe_local.Common.{
  ℕ, ◌+◌, ◌*◌, ◌≡◌, refl, sym, subst, max, true, false, List, [], ◌∷◌, ◌++◌, some, ltb, ◌==◌,
  ==_iff, All, All-map, Bool-cases, inl, inr, arith, find,
}
use scribe_local.Common.Text.{Text}
use scribe_local.Types.Recording.{RecordingStatus}
use scribe_local.Queue.Table.{
  status_of, with_status, Job, Db, ok, is_live, updated, update, requeues,
}
use scribe_local.Queue.Ops.{
  has_id, get_job, retry_job, park_job, backoff_delay, fail, defer_job, defer,
  window_closed as window_closed_note,
}
use scribe_local.Queue.WellFormed.{IsWellFormed, Keeps, RevivesNot, update_succeeds}
use scribe_local.Queue.Keeping.{retry-Keeps, park-Keeps, defer-Keeps}
use scribe_local.Queue.Rows.{find-updated, find-has_id, All-has_id}
use scribe_local.Worker.Window.{StageOutcome, erred, finished, window_closed}
use scribe_local.Worker.World.{World, returned, set_recording_status}
use scribe_local.Worker.Job.{WorkerConfig, second_us, process_job, end_stage, on_failure}

pub status_of-with_status :
    (r : ℕ) (s t : RecordingStatus) (l : List (ℕ × RecordingStatus))
    → status_of r l ≡ some t
    → status_of r (with_status r s l) ≡ some s
status_of-with_status r s t [] e = absurd (ground arith)
status_of-with_status r s t ((q, u) ∷ l) e = elim (Bool-cases (q == r)) [
  | inl hit ↦ ground (arith)
  | inr miss ↦ ground (arith, status_of-with_status r s t l)
]

module _ (now i : ℕ) (f : Job → Job) (k : Keeps (has_id i) f) (db : Db) (j : Job)
    (w : IsWellFormed db) (e : get_job i db ≡ some j) (alive : is_live j.state ≡ true) where
  -- The table after an update of the live row `j`.
  abbrev pub rewritten : Db
  rewritten = record db {
    jobs = updated now (has_id i) f db.jobs;
    notices = db.notices ++ requeues (has_id i) f db.jobs;
  }

  update_live : update now (has_id i) f db ≡ ok rewritten
  unfolding get_job
  update_live = update_succeeds now (has_id i) f k db w revives
    where
      revives : All (RevivesNot (has_id i) f) db.jobs
      revives =
          let named = find-has_id i db.jobs j e in
          subst (λ n. All (RevivesNot (has_id n) f) db.jobs) named
            (All-map _ _ db.jobs (λ x live same _. live same)
              (All-has_id (λ x. is_live x.state ≡ true) 0 db.next_id db.jobs j w.ids
                (subst (λ n. find (has_id n) db.jobs ≡ some j) (sym named) e) alive))

  get_job-rewritten : get_job i rewritten ≡ some (record (f j) { updated_at = now })
  unfolding get_job
  get_job-rewritten =
      rw
        (
          find-updated now i (has_id i) f k db.jobs j e,
          (==_iff j.id i).1 (find-has_id i db.jobs j e),
        )
        refl

module _ (cfg : WorkerConfig) (now : ℕ) (job : Job) (recording : ℕ) (w : World) (j : Job)
    (owned : job.recording_id ≡ some recording) (good : IsWellFormed w.queue)
    (e : get_job job.id w.queue ≡ some j) (alive : is_live j.state ≡ true) where
  stage_ended :
      (o : StageOutcome) → process_job cfg now job o w ≡ end_stage cfg now job recording o w
  unfolding process_job
  stage_ended o = rw owned refl

  fails_again :
      (message : Text) (m backoff : ℕ)
      → ltb (j.attempts + 1) m ≡ true
      → let f = retry_job (j.attempts + 1) message (now + backoff_delay backoff (j.attempts + 1)) in
        fail now job.id message m backoff w.queue
        ≡ ok (rewritten now job.id f (retry-Keeps job.id _ _ _) w.queue j good e alive, true)
  unfolding fail
  fails_again message m backoff more =
      let n = j.attempts + 1 in
      let at = now + backoff_delay backoff n in
      rw (e, fail)
        (rw more (
          rw
            (update_live now job.id (retry_job n message at) (retry-Keeps job.id n message at)
              w.queue j good e alive)
            refl))

  fails_last :
      (message : Text) (m backoff : ℕ)
      → ltb (j.attempts + 1) m ≡ false
      → fail now job.id message m backoff w.queue
        ≡ ok (
          rewritten now job.id
              (park_job (j.attempts + 1) message)
              (park-Keeps job.id _ _)
              w.queue
              j
              good
              e
              alive,
          false,
        )
  unfolding fail
  fails_last message m backoff last =
      let n = j.attempts + 1 in
      rw (e, fail)
        (rw last (
          rw
            (update_live now job.id (park_job n message) (park-Keeps job.id n message) w.queue j
              good e alive)
            refl))

  -- When the window closes under the stage of a recording's job, whose row is live in a well-formed
  -- queue, the row goes back on the queue for `retry_in` seconds from now, with the attempts that
  -- it had; no recording's status changes.
  pub process_job-window_closed :
      (retry_in : ℕ)
      → let r = process_job cfg now job (window_closed retry_in) w in
        (r.1 ≡ returned tt)
        × (get_job job.id r.0.queue
            ≡ some (record (defer_job window_closed_note (now + retry_in * second_us) j) {
              updated_at = now;
            }))
        × (r.0.queue.statuses ≡ w.queue.statuses)
  unfolding defer
  process_job-window_closed retry_in =
      let at = now + retry_in * second_us in
      rw
        (
          stage_ended (window_closed retry_in),
          update_live now job.id (defer_job window_closed_note at)
              (defer-Keeps job.id at window_closed_note) w.queue j good e alive,
        )
        (refl, get_job-rewritten now job.id _ (defer-Keeps job.id _ _) w.queue j good e alive, refl)

  -- When the stage of a recording's job fails, whose row is live in a well-formed queue, and
  -- attempts remain, the row goes back on the queue after the backoff, with one more attempt, and
  -- no recording's status changes.
  pub process_job-retries :
      (message : Text)
      → ltb (j.attempts + 1) cfg.max_attempts ≡ true
      → let r = process_job cfg now job (finished (erred message)) w in
        (r.1 ≡ returned tt)
        × (get_job job.id r.0.queue
            ≡ some
                (record (retry_job
                  (j.attempts + 1)
                  message
                  (now + backoff_delay (max cfg.poll_secs 1 * second_us) (j.attempts + 1))
                  j) { updated_at = now }))
        × (r.0.queue.statuses ≡ w.queue.statuses)
  unfolding on_failure
  process_job-retries message more =
      rw
        (
          stage_ended (finished (erred message)),
          fails_again message cfg.max_attempts (max cfg.poll_secs 1 * second_us) more,
        )
        (
          refl,
          get_job-rewritten now job.id _ (retry-Keeps job.id _ _ _) w.queue j good e alive,
          refl,
        )

  -- When the stage of a recording's job fails, whose row is live in a well-formed queue, and no
  -- attempt remains, the row is parked as failed and the recording, which exists, becomes failed.
  pub process_job-parks :
      (message : Text) (s : RecordingStatus)
      → ltb (j.attempts + 1) cfg.max_attempts ≡ false
      → status_of recording w.queue.statuses ≡ some s
      → let r = process_job cfg now job (finished (erred message)) w in
        (r.1 ≡ returned tt)
        × (get_job job.id r.0.queue
            ≡ some (record (park_job (j.attempts + 1) message j) { updated_at = now }))
        × (status_of recording r.0.queue.statuses ≡ some RecordingStatus.failed)
  unfolding on_failure set_recording_status get_job
  process_job-parks message s last status =
      rw
        (
          stage_ended (finished (erred message)),
          fails_last message cfg.max_attempts (max cfg.poll_secs 1 * second_us) last,
          status,
        )
        (
          refl,
          get_job-rewritten now job.id _ (park-Keeps job.id _ _) w.queue j good e alive,
          status_of-with_status recording RecordingStatus.failed s w.queue.statuses status,
        )
