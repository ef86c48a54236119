-- ===== src/Worker/World.antt =====
-- The tables that crates/scribe-pipeline/src/worker.rs writes when a job ends, and calls on them as
-- actions that may fail. An action that fails keeps what earlier calls have written.
use scribe_local.Common.{ℕ, Option, none, some}
use scribe_local.Types.Recording.{RecordingStatus}
use scribe_local.Queue.Table.{Db, status_of, with_status, DbError, Result, ok, err}

-- `untranscribed` counts the segments of a recording with no `transcribed_at`.
pub record World : Type 0 where
  pub queue : Db
  pub untranscribed : ℕ → ℕ

pub data Failure : Type 0 where
  database : DbError → Failure
  not_found : Failure

pub data Outcome (A : Type 0) : Type 0 where
  returned : A → Outcome A
  threw : Failure → Outcome A

abbrev pub M : Type 0 → Type 0
M A = World → World × Outcome A

abbrev pub bind : {A B : Type 0} → World × Outcome A → (A → M B) → World × Outcome B
bind (w, returned a) f = f a w
bind (w, threw e) f = (w, threw e)

infixl 5 ◌>>=◌ ◌>>◌
abbrev pub ◌>>=◌ : {A B : Type 0} → M A → (A → M B) → M B
◌>>=◌ m f w = bind (m w) f

abbrev pub ◌>>◌ : {B : Type 0} → M (Unit {0}) → M B → M B
◌>>◌ m k w = bind (m w) (λ _. k)

abbrev pub pure : {A : Type 0} → A → M A
pure a w = (w, returned a)

abbrev pub from_query : {A : Type 0} → World → Result (Db × A) → World × Outcome A
from_query w (ok (db, a)) = (record w { queue = db }, returned a)
from_query w (err e) = (w, threw (database e))

-- A call of the queue.
abbrev pub query : {A : Type 0} → (Db → Result (Db × A)) → M A
query f w = from_query w (f w.queue)

abbrev pub from_execute : World → Result Db → World × Outcome (Unit {0})
from_execute w (ok db) = (record w { queue = db }, returned tt)
from_execute w (err e) = (w, threw (database e))

abbrev pub execute : (Db → Result Db) → M (Unit {0})
execute f w = from_execute w (f w.queue)

-- `let _ = …`: an error is dropped.
abbrev pub ignore_error : M (Unit {0}) → M (Unit {0})
ignore_error m w = ((m w).0, returned tt)

abbrev pub put_status :
    ℕ → RecordingStatus → World → Option RecordingStatus → World × Outcome (Unit {0})
put_status r s w none = (w, threw not_found)
put_status r s w (some old) = (
  record w { queue = record w.queue { statuses = with_status r s w.queue.statuses } },
  returned tt,
)

unfoldable pub set_recording_status : ℕ → RecordingStatus → M (Unit {0})
set_recording_status r s w = put_status r s w (status_of r w.queue.statuses)

abbrev pub found_status : World → Option RecordingStatus → World × Outcome RecordingStatus
found_status w none = (w, threw not_found)
found_status w (some s) = (w, returned s)

-- `get_recording`, of which the worker reads the status.
unfoldable pub get_recording_status : ℕ → M RecordingStatus
get_recording_status r w = found_status w (status_of r w.queue.statuses)
