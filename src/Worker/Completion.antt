-- ===== src/Worker/Completion.antt =====
-- `complete` on a well-formed table.
use scribe_local.Common.{
  ℕ, ◌≡◌, refl, ◌∙◌, List, ◌++◌, none, some, find-some, map, ◌==◌, if◌then◌else◌,
}
use scribe_local.Types.Kind.{done}
use scribe_local.Queue.Table.{Job, Db, ok, updated, requeues}
use scribe_local.Queue.Ops.{has_id, get_job, complete, complete_job}
use scribe_local.Queue.WellFormed.{IsWellFormed, update_succeeds}
use scribe_local.Queue.Keeping.{complete-Keeps}
use scribe_local.Queue.Rows.{find-updated}
use scribe_local.Queue.Lease.{always, complete-RevivesNot}

-- The jobs with the one of the id done.
abbrev pub with_done : ℕ → ℕ → List Job → List Job
with_done now i = map (λ x.
    if x.id == i
    then record x {
      state = done;
      locked_by = none;
      locked_at = none;
      error = none;
      updated_at = now;
    }
    else x)

-- The table with the job done.
abbrev pub completed : ℕ → ℕ → Db → Db
completed now i db = record db {
  jobs = with_done now i db.jobs;
  notices = db.notices ++ requeues (has_id i) complete_job db.jobs;
}

pub complete_succeeds :
    (now i : ℕ) (db : Db) → IsWellFormed db → complete now i db ≡ ok (completed now i db)
unfolding complete updated
complete_succeeds now i db good =
    update_succeeds now (has_id i) complete_job (complete-Keeps i) db good
      (always _ db.jobs (complete-RevivesNot i))

pub get_job-completed :
    (now i : ℕ) (db : Db) (j : Job)
    → get_job i db ≡ some j
    → get_job i (completed now i db)
      ≡ some (record j {
        state = done;
        locked_by = none;
        locked_at = none;
        error = none;
        updated_at = now;
      })
unfolding get_job updated
get_job-completed now i db j e =
    find-updated now i (has_id i) complete_job (complete-Keeps i) db.jobs j e
    ∙ rw (find-some (has_id i) db.jobs j e).0 refl
