-- ===== src/Queue/Lease.antt =====
-- Leases: `heartbeat`, `reap_stuck` and `complete` on the row that they name.
use scribe_local.Common.{
  ℕ, suc, ◌+◌, ◌≤◌, ◌<◌, ◌≡◌, refl, true, false, List, [], ◌∷◌, some, if◌then◌else◌, find, any, ◌∙◌,
  find-some, All, Option, arith, ap, ◌⊎◌, inl, inr, Bool-cases, leb, none,
}
use scribe_local.Common.Text.{Text}
use scribe_local.Types.Kind.{JobState, queued, running, failed, same_state}
use scribe_local.Queue.Table.{Job, Db, ok}
use scribe_local.Queue.Ops.{
  has_id, get_job, holds, heartbeat, complete_job, complete, is_stuck, reap_job, reap_stuck,
  lease_expired, is_expired,
}
use scribe_local.Queue.WellFormed.{IsAscending, IsWellFormed, RevivesNot, update_succeeds}
use scribe_local.Queue.Rows.{find-updated}
use scribe_local.Queue.Steps.{step, heartbeats, completes, reaps}
use scribe_local.Queue.Histories.{step-IsWellFormed}
use scribe_local.Queue.Keeping.{heartbeat-Keeps, complete-Keeps, reap-Keeps}

pub always {κ} : (P : Job → Type κ) (js : List Job) → ((j : Job) → P j) → All P js
always P [] h = tt
always P (j ∷ js) h = (h j, always P js h)

reap-RevivesNot :
    (now older_than max_attempts : ℕ) (j : Job)
    → RevivesNot (is_stuck now older_than) (reap_job max_attempts) j
reap-RevivesNot now older_than max_attempts j p l = ground arith

heartbeat-RevivesNot :
    (now i : ℕ) (worker : Text) (j : Job)
    → RevivesNot (holds i worker) (λ k. record k { locked_at = some now }) j
heartbeat-RevivesNot now i worker j p l = l

pub complete-RevivesNot : (i : ℕ) (j : Job) → RevivesNot (has_id i) complete_job j
complete-RevivesNot i j p l = cc

-- The row with the id after a reap.
pub get_job-reaps :
    (now older_than max_attempts i : ℕ) (db : Db) (j : Job)
    → IsWellFormed db
    → get_job i db ≡ some j
    → get_job i (step (reaps now older_than max_attempts) db)
      ≡ some (
          if is_stuck now older_than j
          then record (reap_job max_attempts j) { updated_at = now }
          else j)
unfolding step reap_stuck get_job
get_job-reaps now older_than max_attempts i db j w e =
    rw
      (update_succeeds now (is_stuck now older_than) (reap_job max_attempts)
        (reap-Keeps now older_than max_attempts) db w
        (always _ db.jobs (reap-RevivesNot now older_than max_attempts)))
      (find-updated now i (is_stuck now older_than) (reap_job max_attempts)
        (reap-Keeps now older_than max_attempts) db.jobs j e)

-- The row is running, and its lease was last renewed more than `older_than` before `now`.
abbrev pub HasLapsed : ℕ → ℕ → Job → Type 0
HasLapsed now older_than j =
    (j.state ≡ running) × ((at : ℕ) × (j.locked_at ≡ some at) × (at + older_than < now))

-- A row that a reap takes from its worker.
abbrev pub taken_back : ℕ → JobState → Job → Job
taken_back now state j = record j {
  state = state;
  attempts = j.attempts + 1;
  error = some lease_expired;
  locked_by = none;
  locked_at = none;
  updated_at = now;
}

stuck-HasLapsed :
    (now older_than : ℕ) (j : Job) → is_stuck now older_than j ≡ true → HasLapsed now older_than j
stuck-HasLapsed now older_than j h =
    (running_lem j.state (ground (arith, h)), go j.locked_at (ground (arith, h)))
  where
    running_lem : (s : JobState) → same_state s running ≡ true → s ≡ running
    running_lem s e = ground arith

    go :
        (o : Option ℕ)
        → is_expired now older_than o ≡ true
        → (at : ℕ) × (o ≡ some at) × (at + older_than < now)
    go none e = absurd (cc)
    go (some at) e = (at, refl, ground arith)

HasLapsed-stuck :
    (now older_than : ℕ) (j : Job) → HasLapsed now older_than j → is_stuck now older_than j ≡ true
HasLapsed-stuck now older_than j (r, (at, l, lt)) = ground arith

-- In a well-formed table, a reap leaves a row as it was unless it is running and its lease was last
-- renewed more than `older_than` ago. Such a row loses its holder and gets the lease's error and one
-- more attempt: it is queued if it has then used fewer than `max_attempts`, and failed otherwise.
pub reap_outcomes :
    (now older_than max_attempts i : ℕ) (db : Db) (j : Job)
    → IsWellFormed db
    → get_job i db ≡ some j
    → let after = get_job i (step (reaps now older_than max_attempts) db) in
      ((¬ HasLapsed now older_than j) × (after ≡ some j))
      ⊎ (HasLapsed now older_than j
          × (((j.attempts + 1 < max_attempts) × (after ≡ some (taken_back now queued j)))
              ⊎ ((max_attempts ≤ j.attempts + 1) × (after ≡ some (taken_back now failed j)))))
reap_outcomes now older_than max_attempts i db j w e =
    let after = get_job-reaps now older_than max_attempts i db j w e in
    elim (Bool-cases (is_stuck now older_than j)) [
      | inr left ↦ inl (
        (λ lapsed. absurd (cc (left, HasLapsed-stuck now older_than j lapsed))),
        rw left at after,
      )
      | inl stuck ↦ inr (
        stuck-HasLapsed now older_than j stuck,
        elim (Bool-cases (leb max_attempts (j.attempts + 1))) [
          | inl last ↦ inr (ground arith, rw (stuck, last) at after)
          | inr more ↦ inl (ground arith, rw (stuck, more) at after)
        ],
      )
    ]

-- The row with the id after a heartbeat.
pub get_job-heartbeats :
    (now i : ℕ) (worker : Text) (db : Db) (j : Job)
    → IsWellFormed db
    → get_job i db ≡ some j
    → get_job i (step (heartbeats now i worker) db)
      ≡ some (if holds i worker j then record j { locked_at = some now; updated_at = now } else j)
unfolding step heartbeat get_job
get_job-heartbeats now i worker db j w e =
    rw
      (update_succeeds now (holds i worker) (λ k. record k { locked_at = some now })
        (heartbeat-Keeps now i worker) db w (always _ db.jobs (heartbeat-RevivesNot now i worker)))
      (find-updated now i (holds i worker) (λ k. record k { locked_at = some now })
        (heartbeat-Keeps now i worker) db.jobs j e)

-- In a well-formed table, a job whose worker renewed its lease at `now` is left alone by a reap up
-- to `older_than` later: it is still in the same hands, with no attempt counted.
pub reap_after_heartbeat :
    (now later older_than max_attempts i : ℕ) (worker : Text) (db : Db) (j : Job)
    → IsWellFormed db
    → get_job i db ≡ some j
    → holds i worker j ≡ true
    → later ≤ now + older_than
    → get_job i (step (reaps later older_than max_attempts) (step (heartbeats now i worker) db))
      ≡ some (record j { locked_at = some now; updated_at = now })
reap_after_heartbeat now later older_than max_attempts i worker db j w e held soon =
    rw
      (get_job-reaps later older_than max_attempts i (step (heartbeats now i worker) db)
        (record j { locked_at = some now; updated_at = now })
        (step-IsWellFormed (heartbeats now i worker) db w)
        (get_job-heartbeats now i worker db j w e ∙ ap some (rw held)))
      (ground arith)

any-holds-above :
    (i lo hi : ℕ) (worker : Text) (js : List Job)
    → IsAscending lo hi js
    → i < lo
    → any (holds i worker) js ≡ false
any-holds-above i lo hi worker [] a h = refl
any-holds-above i lo hi worker (x ∷ js) a h =
    ground (arith, any-holds-above i (suc x.id) hi worker js a.1)

any-holds :
    (i lo hi : ℕ) (worker : Text) (js : List Job) (j : Job)
    → IsAscending lo hi js
    → find (has_id i) js ≡ some j
    → any (holds i worker) js ≡ holds i worker j
any-holds i lo hi worker [] j a e = absurd (ground arith)
any-holds i lo hi worker (x ∷ js) j a e = ground (
  arith,
  any-holds-above i (suc x.id) hi worker js a.1,
  any-holds i (suc x.id) hi worker js j a.1,
)

-- In a well-formed table, a heartbeat for a row that exists never fails, and answers whether the
-- row is still running in that worker's hands.
pub heartbeat_answer :
    (now i : ℕ) (worker : Text) (db : Db) (j : Job)
    → IsWellFormed db
    → get_job i db ≡ some j
    → heartbeat now i worker db ≡ ok (step (heartbeats now i worker) db, holds i worker j)
unfolding step heartbeat get_job
heartbeat_answer now i worker db j w e = rw (
  update_succeeds now (holds i worker) (λ k. record k { locked_at = some now })
      (heartbeat-Keeps now i worker) db w (always _ db.jobs (heartbeat-RevivesNot now i worker)),
  any-holds i 0 db.next_id worker db.jobs j w.ids e,
)

-- Completing succeeds on any row with the id, whatever its state and whoever holds it: the row is
-- done, with neither lock nor error.
pub get_job-completes :
    (now i : ℕ) (db : Db) (j : Job)
    → IsWellFormed db
    → get_job i db ≡ some j
    → get_job i (step (completes now i) db) ≡ some (record (complete_job j) { updated_at = now })
unfolding step complete get_job
get_job-completes now i db j w e =
    rw
      (update_succeeds now (has_id i) complete_job (complete-Keeps i) db w
        (always _ db.jobs (complete-RevivesNot i)))
      (rw (
        find-updated now i (has_id i) complete_job (complete-Keeps i) db.jobs j e,
        (find-some (has_id i) db.jobs j e).0,
      ))
