-- ===== src/Queue/Attempts.antt =====
-- The bound on attempts: `fail`, `reap_stuck` and `defer` of crates/scribe-db/src/queue.rs.
use scribe_local.Common.{
  ℕ, ◌+◌, ◌<◌, ◌≡◌, refl, Bool, true, false, List, [], ◌∷◌, some, not, find, All, All-append,
  All-map, Bool-cases, Option-cases, inl, inr, arith, ltb→lt, find-some, ltb, filter, any,
}
use scribe_local.Common.Text.{Text}
use scribe_local.Common.Json.{Json}
use scribe_local.Common.Int.{ℤ}
use scribe_local.Types.Kind.{JobKind, queued, failed}
use scribe_local.Queue.Table.{
  Job, Db, Result, ok, err, ◌>>=◌, updated, update, is_live, conflicts, unique_live, has_recording,
}
use scribe_local.Queue.Ops.{
  has_id, get_job, enqueue_with_priority, fresh_job, is_live_job, pick, is_claimable, claim,
  claim_one, holds, heartbeat, complete_job, complete, retry_job, park_job, backoff_delay, fail,
  defer_job, defer, is_stuck, reap_job, reap_stuck, is_of, delete_jobs_by_recording,
}
use scribe_local.Queue.WellFormed.{IsWellFormed}
use scribe_local.Queue.Rows.{find-updated}
use scribe_local.Queue.Claim.{IsNext, pick-IsNext, claim-RevivesNot}
use scribe_local.Queue.Steps.{
  Call, enqueues, claims, heartbeats, completes, fails, defers, reaps, deletes, changes_recordings,
  step, after, after_pair,
}
use scribe_local.Queue.Keeping.{defer-Keeps}

-- A live job has an attempt left.
abbrev pub HasAttempt : ℕ → Job → Type 0
HasAttempt m j = is_live j.state ≡ true → j.attempts < m

abbrev pub IsBounded : ℕ → Db → Type 0
IsBounded m db = All (HasAttempt m) db.jobs

-- The workers agree on the bound, and put back only a job that is live.
abbrev pub Respects : ℕ → Db → Call → Type 0
Respects m db (fails now i error max_attempts backoff) = max_attempts ≡ m
Respects m db (reaps now older_than max_attempts) = max_attempts ≡ m
Respects m db (defers now i note delay) =
    All (λ j. has_id i j ≡ true → is_live j.state ≡ true) db.jobs
Respects m db (enqueues now recording kind payload priority) = Unit {0}
Respects m db (claims now skip worker kinds) = Unit {0}
Respects m db (heartbeats now i worker) = Unit {0}
Respects m db (completes now i) = Unit {0}
Respects m db (deletes recording) = Unit {0}
Respects m db (changes_recordings statuses) = Unit {0}

-- The changed row has an attempt left if the old one had.
abbrev KeepsAttempt : ℕ → (Job → Bool) → (Job → Job) → Job → Type 0
KeepsAttempt m p f j = HasAttempt m j → p j ≡ true → HasAttempt m (f j)

IsBounded-updated :
    (m now : ℕ) (p : Job → Bool) (f : Job → Job) (js : List Job)
    → All (KeepsAttempt m p f) js
    → All (HasAttempt m) js
    → All (HasAttempt m) (updated now p f js)
unfolding updated
IsBounded-updated m now p f [] k h = tt
IsBounded-updated m now p f (j ∷ js) k h =
    (ground (arith, k.0, h.0), IsBounded-updated m now p f js k.1 h.1)

IsBounded-update :
    (m now : ℕ) (p : Job → Bool) (f : Job → Job) (db db' : Db)
    → All (KeepsAttempt m p f) db.jobs
    → IsBounded m db
    → update now p f db ≡ ok db'
    → IsBounded m db'
unfolding update
IsBounded-update m now p f db db' k h e = ground (arith, IsBounded-updated m now p f db.jobs k h)

IsBounded-after :
    (m now : ℕ) (p : Job → Bool) (f : Job → Job) (db : Db)
    → All (KeepsAttempt m p f) db.jobs
    → IsBounded m db
    → IsBounded m (after db (update now p f db))
IsBounded-after m now p f db k h = go (update now p f db) refl
  where
    go : (r : Result Db) → update now p f db ≡ r → IsBounded m (after db r)
    go (ok db') e = IsBounded-update m now p f db db' k h e
    go (err x) e = h

IsBounded-after_pair {ℓ} :
    {A : Type ℓ} (m now : ℕ) (p : Job → Bool) (f : Job → Job) (db : Db) (a : Db → A)
    → All (KeepsAttempt m p f) db.jobs
    → IsBounded m db
    → IsBounded m (after_pair db (update now p f db >>= λ db'. ok (db', a db')))
IsBounded-after_pair m now p f db a k h = go (update now p f db) refl
  where
    go :
        (r : Result Db)
        → update now p f db ≡ r
        → IsBounded m (after_pair db (r >>= λ db'. ok (db', a db')))
    go (ok db') e = IsBounded-update m now p f db db' k h e
    go (err x) e = h

always {κ} : (P : Job → Type κ) (js : List Job) → ((j : Job) → P j) → All P js
always P [] h = tt
always P (j ∷ js) h = (h j, always P js h)

IsBounded-filter :
    (m : ℕ) (q : Job → Bool) (js : List Job)
    → All (HasAttempt m) js
    → All (HasAttempt m) (filter q js)
IsBounded-filter m q [] h = tt
IsBounded-filter m q (j ∷ js) h = elim (Bool-cases (q j)) [
  | inl kept ↦ rw kept (h.0, IsBounded-filter m q js h.1)
  | inr gone ↦ rw gone (IsBounded-filter m q js h.1)
]

IsBounded-enqueue :
    (m now recording : ℕ) (kind : JobKind) (payload : Json) (priority : ℤ) (db : Db)
    → 0 < m
    → IsBounded m db
    → IsBounded m (after_pair db (enqueue_with_priority now recording kind payload priority db))
unfolding enqueue_with_priority
IsBounded-enqueue m now recording kind payload priority db pos h =
    elim (Bool-cases
      (any (conflicts (fresh_job now db.next_id recording kind payload priority)) db.jobs)) [
        | inl taken ↦ elim (Option-cases (find (is_live_job recording kind) db.jobs)) [
          | inl e ↦ rw (taken, e) h
          | inr (j, e) ↦ rw (taken, e) h
        ]
        | inr free ↦ elim (Bool-cases (has_recording recording db)) [
          | inr unknown ↦ rw (free, unknown) h
          | inl known ↦ rw (free, known) (All-append _ db.jobs _ h ((λ _. pos), tt))
        ]
      ]

IsBounded-claim :
    (m now : ℕ) (skip : ℕ → Bool) (worker : Text) (kinds : List JobKind) (db : Db)
    → IsWellFormed db
    → IsBounded m db
    → IsBounded m (after_pair db (claim_one now skip worker kinds db))
unfolding claim_one
IsBounded-claim m now skip worker [] db w h = h
IsBounded-claim m now skip worker (k ∷ ks) db w h =
    elim (Option-cases (pick (is_claimable now skip (k ∷ ks)) db.jobs)) [
      | inl e ↦ rw (e, claim_one) h
      | inr (j, e) ↦
          rw (e, claim_one)
            (IsBounded-after_pair m now (has_id j.id) (claim now worker) db (get_job j.id)
              (keeps j (pick-IsNext (is_claimable now skip (k ∷ ks)) db.jobs j e)) h)
    ]
  where
    keeps :
        (j : Job)
        → IsNext (is_claimable now skip (k ∷ ks)) db.jobs j
        → All (KeepsAttempt m (has_id j.id) (claim now worker)) db.jobs
    keeps j next =
        All-map _ _ db.jobs (λ x r a same _. a (r same refl))
          (claim-RevivesNot now worker db j w next.0 (ground (arith, next.1)))

IsBounded-fail :
    (m now i : ℕ) (error : Text) (backoff : ℕ) (db : Db)
    → IsBounded m db
    → IsBounded m (after_pair db (fail now i error m backoff db))
unfolding fail
IsBounded-fail m now i error backoff db h = elim (Option-cases (get_job i db)) [
  | inl e ↦ rw (e, fail) h
  | inr (j, e) ↦ elim (Bool-cases (ltb (j.attempts + 1) m)) [
    | inl more ↦
        rw (e, fail)
          (rw more (
            IsBounded-after_pair m now _ _ db (λ _. true)
              (always
                (KeepsAttempt m (has_id i)
                  (retry_job (j.attempts + 1) error (now + backoff_delay backoff (j.attempts + 1))))
                db.jobs (λ x a same live. ltb→lt (j.attempts + 1) m more))
              h))
    | inr last ↦
        rw (e, fail)
          (rw last (
            IsBounded-after_pair m now _ _ db (λ _. false)
              (always (KeepsAttempt m (has_id i) (park_job (j.attempts + 1) error)) db.jobs
                (λ x a same live. cc))
              h))
  ]
]

reap-KeepsAttempt :
    (m now older_than : ℕ) (j : Job) → KeepsAttempt m (is_stuck now older_than) (reap_job m) j
reap-KeepsAttempt m now older_than j h p live = ground arith

-- In a well-formed table, a call that respects the bound `m`, which is not 0, keeps it that every
-- job that is queued or running has used fewer than `m` attempts.
pub step-IsBounded :
    (m : ℕ) (c : Call) (db : Db)
    → 0 < m
    → IsWellFormed db
    → Respects m db c
    → IsBounded m db
    → IsBounded m (step c db)
unfolding step heartbeat complete defer reap_stuck delete_jobs_by_recording
step-IsBounded m (enqueues now recording kind payload priority) db pos w r h =
    IsBounded-enqueue m now recording kind payload priority db pos h
step-IsBounded m (claims now skip worker kinds) db pos w r h =
    IsBounded-claim m now skip worker kinds db w h
step-IsBounded m (heartbeats now i worker) db pos w r h =
    IsBounded-after_pair m now _ _ db _
      (always (KeepsAttempt m (holds i worker) (λ j. record j { locked_at = some now })) db.jobs
        (λ x a same live. a live))
      h
step-IsBounded m (completes now i) db pos w r h =
    IsBounded-after m now _ _ db
      (always (KeepsAttempt m (has_id i) complete_job) db.jobs (λ x a same live. cc)) h
step-IsBounded m (fails now i error max_attempts backoff) db pos w r h =
    rw r (IsBounded-fail m now i error backoff db h)
step-IsBounded m (defers now i note delay) db pos w r h =
    IsBounded-after m now _ _ db
      (All-map _ (KeepsAttempt m (has_id i) (defer_job note (now + delay))) db.jobs
        (λ x alive a same live. a (alive same)) r)
      h
step-IsBounded m (reaps now older_than max_attempts) db pos w r h = rw r (
    IsBounded-after_pair m now (is_stuck now older_than) (reap_job m) db _
      (always _ db.jobs (reap-KeepsAttempt m now older_than)) h)
step-IsBounded m (deletes recording) db pos w r h =
    IsBounded-filter m (λ j. not (is_of recording j)) db.jobs h
step-IsBounded m (changes_recordings statuses) db pos w r h = h

-- `defer` looks at neither the worker nor the state: a job parked as failed goes back on the queue
-- with its attempts as they were, where the change leaves no two live jobs of one recording and
-- kind.
pub defer_revives :
    (now i : ℕ) (note : Text) (delay : ℕ) (db : Db) (j : Job)
    → get_job i db ≡ some j
    → j.state ≡ failed
    → unique_live (updated now (has_id i) (defer_job note (now + delay)) db.jobs) ≡ true
    → (k : Job) × (get_job i (step (defers now i note delay) db) ≡ some k)
      × (k.state ≡ queued)
      × (k.attempts ≡ j.attempts)
unfolding step defer update get_job
defer_revives now i note delay db j e f u = (
  record (defer_job note (now + delay) j) { updated_at = now },
  rw u (
      rw (
        find-updated now i (has_id i) (defer_job note (now + delay))
            (defer-Keeps i (now + delay) note) db.jobs j e,
        (find-some (has_id i) db.jobs j e).0,
      )),
  refl,
  refl,
)
