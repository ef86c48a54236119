-- ===== src/Queue/Ops.antt =====
-- The operations of crates/scribe-db/src/queue.rs. Each is one call; where it makes two statements
-- they run with no other statement between them. `skip` tells which rows another transaction holds
-- locked, as `FOR UPDATE SKIP LOCKED` sees them. `job_from_row` never fails on such rows.
use scribe_local.Common.{
  ℕ, suc, ◌+◌, ◌-◌, ◌*◌, ◌^◌, Bool, true, false, not, ◌&&◌, ◌||◌, List, [], ◌∷◌, ◌++◌, Option, none,
  some, ◌==◌, ltb, leb, if◌then◌else◌, any, filter, find, length,
}
use scribe_local.Common.Int.{ℤ, pos, ltb_ℤ}
use scribe_local.Common.Text.{Text, codes, text_eq}
use scribe_local.Common.Json.{Json}
use scribe_local.Types.Kind.{JobKind, queued, running, done, failed, same_kind, same_state}
use scribe_local.Queue.Table.{
  Job, Db, Result, ok, err, ◌>>=◌, row_not_found, foreign_key_violation, has_recording, is_live,
  same_recording, conflicts, update,
}

pub record ReapedJob : Type 0 where
  pub id : ℕ
  pub recording_id : Option ℕ
  pub exhausted : Bool

abbrev pub lease_expired : Text
lease_expired =
    codes
      "worker lease expired: the worker stopped renewing it (crashed, killed, or lost the database)"

abbrev pub window_closed : Text
window_closed =
    codes
      "paused: the processing window closed while this stage was running; it will be retried when the next window opens"

abbrev pub has_id : ℕ → Job → Bool
has_id i j = j.id == i

unfoldable pub get_job : ℕ → Db → Option Job
get_job i db = find (has_id i) db.jobs

-- A fresh row, with the defaults of the table.
abbrev pub fresh_job : ℕ → ℕ → ℕ → JobKind → Json → ℤ → Job
fresh_job now i recording kind payload priority = record {
  id = i;
  recording_id = some recording;
  kind = kind;
  state = queued;
  priority = priority;
  attempts = 0;
  run_after = now;
  locked_by = none;
  locked_at = none;
  payload = payload;
  error = none;
  created_at = now;
  updated_at = now;
}

abbrev pub is_live_job : ℕ → JobKind → Job → Bool
is_live_job recording kind j =
    same_recording j.recording_id (some recording) && same_kind j.kind kind && is_live j.state

-- On a conflict nothing is inserted, but the sequence has moved on. A row may only be inserted for a
-- recording that exists; the id that the refused row has used up is not counted.
unfoldable pub enqueue_with_priority : ℕ → ℕ → JobKind → Json → ℤ → Db → Result (Db × Job)
enqueue_with_priority now recording kind payload priority db =
    let job = fresh_job now db.next_id recording kind payload priority in
    if any (conflicts job) db.jobs
    then elim (find (is_live_job recording kind) db.jobs) [
      | none ↦ err row_not_found
      | some existing ↦ ok (record db { next_id = suc db.next_id }, existing)
    ]
    else if not (has_recording recording db)
    then err foreign_key_violation
    else ok (
      record db {
        jobs = db.jobs ++ job ∷ [];
        next_id = suc db.next_id;
        notices = db.notices ++ kind ∷ [];
      },
      job,
    )

unfoldable pub enqueue : ℕ → ℕ → JobKind → Json → Db → Result (Db × Job)
enqueue now recording kind payload db = enqueue_with_priority now recording kind payload (pos 0) db

abbrev pub is_claimable : ℕ → (ℕ → Bool) → List JobKind → Job → Bool
is_claimable now skip kinds j =
    same_state j.state queued
    && any (same_kind j.kind) kinds
    && leb j.run_after now
    && not (skip j.id)

-- `ORDER BY priority DESC, created_at`; of rows that agree on both, the one inserted first.
abbrev pub goes_before : Job → Job → Bool
goes_before a b =
    ltb_ℤ b.priority a.priority
    || (not (ltb_ℤ a.priority b.priority) && ltb a.created_at b.created_at)

abbrev pub prefer : Job → Option Job → Job
prefer j none = j
prefer j (some k) = if goes_before k j then k else j

unfoldable pub pick : (Job → Bool) → List Job → Option Job
pick p [] = none
pick p (j ∷ js) = let rest = pick p js in if p j then some (prefer j rest) else rest

abbrev pub claim : ℕ → Text → Job → Job
claim now worker j = record j { state = running; locked_by = some worker; locked_at = some now }

unfoldable pub claim_one : ℕ → (ℕ → Bool) → Text → List JobKind → Db → Result (Db × Option Job)
claim_one now skip worker [] db = ok (db, none)
claim_one now skip worker (k ∷ ks) db = elim (pick (is_claimable now skip (k ∷ ks)) db.jobs) [
  | none ↦ ok (db, none)
  | some j ↦ update now (has_id j.id) (claim now worker) db >>= λ db'. ok (db', get_job j.id db')
]

abbrev pub is_held_by : Text → Job → Bool
is_held_by worker j = elim j.locked_by [ none ↦ false | some w ↦ text_eq w worker ]

abbrev pub holds : ℕ → Text → Job → Bool
holds i worker j = has_id i j && is_held_by worker j && same_state j.state running

unfoldable pub heartbeat : ℕ → ℕ → Text → Db → Result (Db × Bool)
heartbeat now i worker db =
    update now (holds i worker) (λ j. record j { locked_at = some now }) db >>= λ db'.
    ok (db', any (holds i worker) db.jobs)

abbrev pub complete_job : Job → Job
complete_job j = record j { state = done; locked_by = none; locked_at = none; error = none }

unfoldable pub complete : ℕ → ℕ → Db → Result Db
complete now i db = update now (has_id i) complete_job db

abbrev pub retry_job : ℕ → Text → ℕ → Job → Job
retry_job n error run_after j = record j {
  state = queued;
  attempts = n;
  error = some error;
  locked_by = none;
  locked_at = none;
  run_after = run_after;
}

abbrev pub park_job : ℕ → Text → Job → Job
park_job n error j = record j {
  state = failed;
  attempts = n;
  error = some error;
  locked_by = none;
  locked_at = none;
}

-- The delay after `n` failures, `base * 2^(n-1)`. The source computes it in `f64`, which is exact
-- for whole seconds below 2 ^ 53.
abbrev pub backoff_delay : ℕ → ℕ → ℕ
backoff_delay backoff n = backoff * 2 ^ (n - 1)

-- An absent row stops `fetch_one`. A negative `max_attempts` behaves as 0.
unfoldable pub fail : ℕ → ℕ → Text → ℕ → ℕ → Db → Result (Db × Bool)
fail now i error max_attempts backoff db = elim (get_job i db) [
  | none ↦ err row_not_found
  | some j ↦
      let next_attempts = j.attempts + 1 in
      if ltb next_attempts max_attempts
      then update now (has_id i)
          (retry_job next_attempts error (now + backoff_delay backoff next_attempts)) db
        >>= (λ db'. ok (db', true))
      else update now (has_id i) (park_job next_attempts error) db >>= λ db'. ok (db', false)
]

abbrev pub defer_job : Text → ℕ → Job → Job
defer_job note run_after j = record j {
  state = queued;
  locked_by = none;
  locked_at = none;
  error = some note;
  run_after = run_after;
}

unfoldable pub defer : ℕ → ℕ → Text → ℕ → Db → Result Db
defer now i note delay db = update now (has_id i) (defer_job note (now + delay)) db

-- `locked_at < now() - older_than`, with no subtraction.
abbrev pub is_expired : ℕ → ℕ → Option ℕ → Bool
is_expired now older_than none = false
is_expired now older_than (some at) = ltb (at + older_than) now

abbrev pub is_stuck : ℕ → ℕ → Job → Bool
is_stuck now older_than j = same_state j.state running && is_expired now older_than j.locked_at

abbrev pub reap_job : ℕ → Job → Job
reap_job max_attempts j = record j {
  attempts = j.attempts + 1;
  state = if leb max_attempts (j.attempts + 1) then failed else queued;
  error = some lease_expired;
  locked_by = none;
  locked_at = none;
}

unfoldable pub reaped : ℕ → ℕ → ℕ → List Job → List ReapedJob
reaped now older_than max_attempts [] = []
reaped now older_than max_attempts (j ∷ js) =
    let rest = reaped now older_than max_attempts js in
    if is_stuck now older_than j
    then record {
      id = j.id;
      recording_id = j.recording_id;
      exhausted = leb max_attempts (j.attempts + 1);
    }
      ∷ rest
    else rest

unfoldable pub reap_stuck : ℕ → ℕ → ℕ → Db → Result (Db × List ReapedJob)
reap_stuck now older_than max_attempts db =
    update now (is_stuck now older_than) (reap_job max_attempts) db >>= λ db'.
    ok (db', reaped now older_than max_attempts db.jobs)

abbrev pub is_of : ℕ → Job → Bool
is_of recording j = same_recording j.recording_id (some recording)

unfoldable pub delete_jobs_by_recording : ℕ → Db → Db × ℕ
delete_jobs_by_recording recording db = (
  record db { jobs = filter (λ j. not (is_of recording j)) db.jobs },
  length (filter (is_of recording) db.jobs),
)
