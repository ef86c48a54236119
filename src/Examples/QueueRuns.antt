-- ===== src/Examples/QueueRuns.antt =====
-- Runs of the queue.
use scribe_local.Common.{
  ◌≡◌, ◌<◌, ◌≤◌, refl, true, false, List, [], ◌∷◌, none, some, All, find, arith, ◌⊎◌,
}
use scribe_local.Common.Int.{pos}
use scribe_local.Common.Text.{codes}
use scribe_local.Common.Json.{object, end}
use scribe_local.Types.Kind.{transcode, diarize, merge, queued, failed}
use scribe_local.Types.Recording.{RecordingStatus, uploading}
use scribe_local.Queue.Table.{err, foreign_key_violation, status_of, Job, ok, updated, unique_live}
use scribe_local.Queue.Ops.{
  fresh_job, get_job, enqueue_with_priority, is_claimable, claim, claim_one, is_live_job, defer_job,
  has_id,
}
use scribe_local.Queue.WellFormed.{IsWellFormed}
use scribe_local.Queue.Steps.{
  Call, enqueues, claims, fails, reaps, defers, changes_recordings, step, run, empty_db,
}
use scribe_local.Queue.Histories.{run-IsWellFormed}
use scribe_local.Queue.Claim.{IsNext, claimed, claim_one-IsNext}
use scribe_local.Queue.Enqueue.{inserted, enqueue-cases}
use scribe_local.Queue.Lease.{reap_outcomes, HasLapsed, taken_back}
use scribe_local.Queue.Attempts.{IsBounded, step-IsBounded, defer_revives}
use scribe_local.Examples.Rows.{
  worker_one, held_row, parked_row, table_of, two_rows, two_rows-IsWellFormed, held-IsWellFormed,
}

abbrev calls : List Call
calls =
    changes_recordings ((7, uploading) ∷ [])
    ∷ enqueues 100 7 transcode (object end) (pos 0)
    ∷ claims 200 (λ _. false) worker_one (transcode ∷ [])
    ∷ fails 300 1 (codes "stage failed") 3 1000000
    ∷ []

run-IsWellFormed_example : IsWellFormed (run calls empty_db)
run-IsWellFormed_example = run-IsWellFormed calls

claim_one-IsNext_example :
    (All (λ j. is_claimable 200 (λ _. false) (transcode ∷ diarize ∷ []) j ≡ false) two_rows.jobs
      × (claim_one 200 (λ _. false) worker_one (transcode ∷ diarize ∷ []) two_rows
          ≡ ok (two_rows, none)))
    ⊎ ((j : Job) × IsNext (is_claimable 200 (λ _. false) (transcode ∷ diarize ∷ [])) two_rows.jobs j
        × (claim_one 200 (λ _. false) worker_one (transcode ∷ diarize ∷ []) two_rows
            ≡ ok (
              claimed 200 worker_one j two_rows,
              some (record (claim 200 worker_one j) { updated_at = 200 }),
            )))
claim_one-IsNext_example =
    claim_one-IsNext 200 (λ _. false) worker_one transcode (diarize ∷ []) two_rows
      two_rows-IsWellFormed

enqueue-cases_example :
    (All (λ j. is_live_job 7 merge j ≡ false) two_rows.jobs
      × (((s : RecordingStatus) × (status_of 7 two_rows.statuses ≡ some s)
            × (enqueue_with_priority 300 7 merge (object end) (pos 2) two_rows
                ≡ ok (
                  inserted 300 7 merge (object end) (pos 2) two_rows,
                  fresh_job 300 3 7 merge (object end) (pos 2),
                )))
          ⊎ ((status_of 7 two_rows.statuses ≡ none)
              × (enqueue_with_priority 300 7 merge (object end) (pos 2) two_rows
                  ≡ err foreign_key_violation))))
    ⊎ ((j : Job) × (find (is_live_job 7 merge) two_rows.jobs ≡ some j)
        × (enqueue_with_priority 300 7 merge (object end) (pos 2) two_rows
            ≡ ok (record two_rows { next_id = 4 }, j)))
enqueue-cases_example = enqueue-cases 300 7 merge (object end) (pos 2) two_rows

held_row_found : get_job 1 (table_of held_row) ≡ some held_row
unfolding get_job
held_row_found = refl

reap_outcomes_example :
    let after = get_job 1 (step (reaps 900 600 3) (table_of held_row)) in
    ((¬ HasLapsed 900 600 held_row) × (after ≡ some held_row))
    ⊎ (HasLapsed 900 600 held_row
        × (((1 < 3) × (after ≡ some (taken_back 900 queued held_row)))
            ⊎ ((3 ≤ 1) × (after ≡ some (taken_back 900 failed held_row)))))
reap_outcomes_example =
    reap_outcomes 900 600 3 1 (table_of held_row) held_row held-IsWellFormed held_row_found

step-IsBounded_example :
    IsBounded 3 (step (fails 500 1 (codes "stage failed") 3 1000000) (table_of held_row))
step-IsBounded_example =
    step-IsBounded 3 (fails 500 1 (codes "stage failed") 3 1000000) (table_of held_row)
      (omega arith) held-IsWellFormed refl ((λ _. omega arith), tt)

parked_row_found : get_job 1 (table_of parked_row) ≡ some parked_row
unfolding get_job
parked_row_found = refl

parked_row_unique :
    unique_live (updated 500 (has_id 1) (defer_job (codes "paused") 560) (table_of parked_row).jobs)
    ≡ true
unfolding updated
parked_row_unique = refl

defer_revives_example :
    (k : Job) × (get_job 1 (step (defers 500 1 (codes "paused") 60) (table_of parked_row)) ≡ some k)
    × (k.state ≡ queued)
    × (k.attempts ≡ 3)
defer_revives_example =
    defer_revives 500 1 (codes "paused") 60 (table_of parked_row) parked_row parked_row_found refl
      parked_row_unique
