-- ===== src/Queue/Table.antt =====
-- The `jobs` table of migrations/0001_init.sql, with its triggers, its partial unique index and its
-- reference to `recordings`, and the row of crates/scribe-core/src/types.rs. Instants and durations are microseconds, the
-- resolution of `timestamptz`; `now` is an argument of every statement. A uuid is a number.
use scribe_local.Common.{
  ℕ, Bool, true, false, not, ◌&&◌, List, [], ◌∷◌, ◌++◌, Option, none, some, ◌==◌, if◌then◌else◌,
  any, map,
}
use scribe_local.Common.Int.{ℤ}
use scribe_local.Common.Text.{Text}
use scribe_local.Common.Json.{Json}
use scribe_local.Types.Recording.{RecordingStatus}
use scribe_local.Types.Kind.{JobKind, JobState, queued, running, same_kind, same_state}

pub record Job : Type 0 where
  pub id : ℕ
  pub recording_id : Option ℕ
  pub kind : JobKind
  pub state : JobState
  pub priority : ℤ
  pub attempts : ℕ
  pub run_after : ℕ
  pub locked_by : Option Text
  pub locked_at : Option ℕ
  pub payload : Json
  pub error : Option Text
  pub created_at : ℕ
  pub updated_at : ℕ

-- `jobs` in the order of insertion, the sequence behind `bigserial`, the kinds that the NOTIFY
-- triggers have sent, oldest first, and the id and status of each row of `recordings`.
pub record Db : Type 0 where
  pub jobs : List Job
  pub next_id : ℕ
  pub notices : List JobKind
  pub statuses : List (ℕ × RecordingStatus)

pub data DbError : Type 0 where
  unique_violation foreign_key_violation row_not_found : DbError

pub data Result {ℓ} (A : Type ℓ) : Type ℓ where
  ok : A → Result A
  err : DbError → Result A

infixl 5 ◌>>=◌
abbrev pub ◌>>=◌ {ℓ κ} : {A : Type ℓ} {B : Type κ} → Result A → (A → Result B) → Result B
ok a >>= f = f a
err e >>= f = err e

abbrev pub status_of : ℕ → List (ℕ × RecordingStatus) → Option RecordingStatus
status_of r [] = none
status_of r ((q, s) ∷ rest) = if q == r then some s else status_of r rest

abbrev pub with_status :
    ℕ → RecordingStatus → List (ℕ × RecordingStatus) → List (ℕ × RecordingStatus)
with_status r s [] = []
with_status r s ((q, t) ∷ rest) =
    let later = with_status r s rest in if q == r then (q, s) ∷ later else (q, t) ∷ later

abbrev pub is_found : Option RecordingStatus → Bool
is_found none = false
is_found (some s) = true

-- Whether a job may refer to the recording.
abbrev pub has_recording : ℕ → Db → Bool
has_recording r db = is_found (status_of r db.statuses)

abbrev pub is_live : JobState → Bool
is_live queued = true
is_live running = true
is_live _ = false

-- A NULL recording is distinct from every other in a unique index.
abbrev pub same_recording : Option ℕ → Option ℕ → Bool
same_recording (some a) (some b) = a == b
same_recording _ _ = false

-- The two rows may not stand together under `jobs_recording_kind_live_idx`.
abbrev pub conflicts : Job → Job → Bool
conflicts a b =
    is_live a.state
    && is_live b.state
    && same_recording a.recording_id b.recording_id
    && same_kind a.kind b.kind

abbrev pub unique_live : List Job → Bool
unique_live [] = true
unique_live (j ∷ js) = not (any (conflicts j) js) && unique_live js

-- `jobs_notify_requeue`: a row that an update makes queued.
abbrev pub requeued : Job → Job → Bool
requeued old new = same_state new.state queued && not (same_state old.state queued)

unfoldable pub requeues : (Job → Bool) → (Job → Job) → List Job → List JobKind
requeues p f [] = []
requeues p f (j ∷ js) =
    let rest = requeues p f js in if p j && requeued j (f j) then j.kind ∷ rest else rest

-- `UPDATE jobs SET f WHERE p`, with the trigger that keeps `updated_at`. A result that breaks the
-- unique index is refused as a whole.
unfoldable pub updated : ℕ → (Job → Bool) → (Job → Job) → List Job → List Job
updated now p f = map (λ j. if p j then record (f j) { updated_at = now } else j)

unfoldable pub update : ℕ → (Job → Bool) → (Job → Job) → Db → Result Db
unfolding updated requeues
update now p f db =
    let jobs = updated now p f db.jobs in
    if unique_live jobs
    then ok (record db { jobs = jobs; notices = db.notices ++ requeues p f db.jobs })
    else err unique_violation
