-- ===== src/Queue/Steps.antt =====
-- Histories of the queue: any calls of crates/scribe-db/src/queue.rs, by any workers, in any order.
-- A statement that fails leaves the table as it was. The rows of `recordings` change between them in
-- any way; the jobs that a deletion takes along go by `deletes`.
use scribe_local.Common.{ℕ, Bool, List, [], ◌∷◌}
use scribe_local.Common.Int.{ℤ}
use scribe_local.Common.Text.{Text}
use scribe_local.Common.Json.{Json}
use scribe_local.Types.Kind.{JobKind}
use scribe_local.Types.Recording.{RecordingStatus}
use scribe_local.Queue.Table.{Db, Result, ok, err}
use scribe_local.Queue.Ops.{
  enqueue_with_priority, claim_one, heartbeat, complete, fail, defer, reap_stuck,
  delete_jobs_by_recording,
}

pub data Call : Type 0 where
  enqueues : ℕ → ℕ → JobKind → Json → ℤ → Call
  claims : ℕ → (ℕ → Bool) → Text → List JobKind → Call
  heartbeats : ℕ → ℕ → Text → Call
  completes : ℕ → ℕ → Call
  fails : ℕ → ℕ → Text → ℕ → ℕ → Call
  defers : ℕ → ℕ → Text → ℕ → Call
  reaps : ℕ → ℕ → ℕ → Call
  deletes : ℕ → Call
  changes_recordings : List (ℕ × RecordingStatus) → Call

abbrev pub after : Db → Result Db → Db
after db (ok db') = db'
after db (err e) = db

abbrev pub after_pair {ℓ} : {A : Type ℓ} → Db → Result (Db × A) → Db
after_pair db (ok (db', a)) = db'
after_pair db (err e) = db

unfoldable pub step : Call → Db → Db
step (enqueues now recording kind payload priority) db =
    after_pair db (enqueue_with_priority now recording kind payload priority db)
step (claims now skip worker kinds) db = after_pair db (claim_one now skip worker kinds db)
step (heartbeats now i worker) db = after_pair db (heartbeat now i worker db)
step (completes now i) db = after db (complete now i db)
step (fails now i error max_attempts backoff) db =
    after_pair db (fail now i error max_attempts backoff db)
step (defers now i note delay) db = after db (defer now i note delay db)
step (reaps now older_than max_attempts) db =
    after_pair db (reap_stuck now older_than max_attempts db)
step (deletes recording) db = (delete_jobs_by_recording recording db).0
step (changes_recordings statuses) db = record db { statuses = statuses }

unfoldable pub run : List Call → Db → Db
run [] db = db
run (c ∷ cs) db = run cs (step c db)

abbrev pub empty_db : Db
empty_db = record { jobs = []; next_id = 1; notices = []; statuses = [] }
