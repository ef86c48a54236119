-- ===== src/Queue/Histories.antt =====
-- The invariant of the table under every call of crates/scribe-db/src/queue.rs.
use scribe_local.Common.{
  ℕ, suc, ◌+◌, ◌≤◌, ◌≡◌, refl, Bool, true, false, not, List, [], ◌∷◌, any, All, All-append, filter,
  Bool-cases, Option-cases, inl, inr, arith, ltb, find,
}
use scribe_local.Common.Int.{ℤ}
use scribe_local.Common.Text.{Text}
use scribe_local.Common.Json.{Json}
use scribe_local.Types.Kind.{JobKind}
use scribe_local.Queue.Table.{Job, Db, conflicts, unique_live, has_recording}
use scribe_local.Queue.Ops.{
  fresh_job, enqueue_with_priority, is_claimable, pick, claim, claim_one, has_id, heartbeat,
  complete, backoff_delay, fail, defer, reap_stuck, is_of, delete_jobs_by_recording, get_job,
  is_live_job,
}
use scribe_local.Queue.WellFormed.{is_locked_right, IsAscending, IsWellFormed}
use scribe_local.Queue.Steps.{
  Call, enqueues, claims, heartbeats, completes, fails, defers, reaps, deletes, changes_recordings,
  after_pair, step, run, empty_db,
}
use scribe_local.Queue.Keeping.{
  claim-Keeps, heartbeat-Keeps, complete-Keeps, retry-Keeps, park-Keeps, defer-Keeps, reap-Keeps,
  update-after-IsWellFormed, update_with-IsWellFormed, not_and, and_true, unique_live-insert,
  ids-insert, ids_relax,
}

enqueue-IsWellFormed :
    (now recording : ℕ) (kind : JobKind) (payload : Json) (priority : ℤ) (db : Db)
    → IsWellFormed db
    → IsWellFormed (after_pair db (enqueue_with_priority now recording kind payload priority db))
unfolding enqueue_with_priority
enqueue-IsWellFormed now recording kind payload priority db w =
    elim (Bool-cases (any (conflicts job) db.jobs)) [
      | inl taken ↦ elim (Option-cases (find (is_live_job recording kind) db.jobs)) [
        | inl e ↦ rw (taken, e) w
        | inr (j, e) ↦
            rw (taken, e)
              (record {
                unique = w.unique;
                locks = w.locks;
                ids = ids_relax 0 db.next_id db.jobs w.ids;
              })
      ]
      | inr free ↦ elim (Bool-cases (has_recording recording db)) [
        | inr unknown ↦ rw (free, unknown) w
        | inl known ↦
            rw (free, known)
              (record {
                unique = unique_live-insert job db.jobs free w.unique;
                locks = All-append _ db.jobs (job ∷ []) w.locks (refl, tt);
                ids = ids-insert 0 db.next_id job db.jobs w.ids refl;
              })
      ]
    ]
  where
    job : Job
    job = fresh_job now db.next_id recording kind payload priority

claim_one-IsWellFormed :
    (now : ℕ) (skip : ℕ → Bool) (worker : Text) (kinds : List JobKind) (db : Db)
    → IsWellFormed db
    → IsWellFormed (after_pair db (claim_one now skip worker kinds db))
unfolding claim_one
claim_one-IsWellFormed now skip worker [] db w = w
claim_one-IsWellFormed now skip worker (k ∷ ks) db w =
    elim (Option-cases (pick (is_claimable now skip (k ∷ ks)) db.jobs)) [
      | inl e ↦ rw (e, claim_one) w
      | inr (j, e) ↦
          rw (e, claim_one)
            (update_with-IsWellFormed now (has_id j.id) (claim now worker) db (get_job j.id)
              (claim-Keeps now j.id worker) w)
    ]

fail-IsWellFormed :
    (now i : ℕ) (error : Text) (max_attempts backoff : ℕ) (db : Db)
    → IsWellFormed db
    → IsWellFormed (after_pair db (fail now i error max_attempts backoff db))
unfolding fail
fail-IsWellFormed now i error max_attempts backoff db w = elim (Option-cases (get_job i db)) [
  | inl e ↦ rw (e, fail) w
  | inr (j, e) ↦ elim (Bool-cases (ltb (j.attempts + 1) max_attempts)) [
    | inl more ↦
        rw (e, fail)
          (rw more (
            update_with-IsWellFormed now _ _ db (λ _. true)
              (retry-Keeps i (j.attempts + 1) error (now + backoff_delay backoff (j.attempts + 1)))
              w))
    | inr last ↦
        rw (e, fail)
          (rw last (
            update_with-IsWellFormed now _ _ db (λ _. false) (park-Keeps i (j.attempts + 1) error)
              w))
  ]
]

any-filter : (p q : Job → Bool) (js : List Job) → any p js ≡ false → any p (filter q js) ≡ false
any-filter p q [] h = refl
any-filter p q (j ∷ js) h = ground (arith, any-filter p q js)

unique_live-filter :
    (q : Job → Bool) (js : List Job) → unique_live js ≡ true → unique_live (filter q js) ≡ true
unique_live-filter q [] h = refl
unique_live-filter q (j ∷ js) h =
    let (alone, rest) = and_true (any (conflicts j) js) (unique_live js) h in
    elim (Bool-cases (q j)) [
      | inl kept ↦
          rw kept (not_and _ _ (any-filter (conflicts j) q js alone) (unique_live-filter q js rest))
      | inr gone ↦ rw gone (unique_live-filter q js rest)
    ]

All-filter :
    (p q : Job → Bool) (js : List Job)
    → All (λ j. p j ≡ true) js
    → All (λ j. p j ≡ true) (filter q js)
All-filter p q [] h = tt
All-filter p q (j ∷ js) h = ground (arith, All-filter p q js h.1)

IsAscending-weaken :
    (lo lo' hi : ℕ) (js : List Job) → lo ≤ lo' → IsAscending lo' hi js → IsAscending lo hi js
IsAscending-weaken lo lo' hi [] l h = omega arith
IsAscending-weaken lo lo' hi (j ∷ js) l h = (omega arith, h.1)

ids-filter :
    (q : Job → Bool) (lo hi : ℕ) (js : List Job)
    → IsAscending lo hi js
    → IsAscending lo hi (filter q js)
ids-filter q lo hi [] h = h
ids-filter q lo hi (j ∷ js) h =
    let rest = ids-filter q (suc j.id) hi js h.1 in
    elim (Bool-cases (q j)) [
      | inl kept ↦ rw kept (h.0, rest)
      | inr gone ↦ rw gone (IsAscending-weaken lo (suc j.id) hi (filter q js) (omega arith) rest)
    ]

-- Every call leaves the table well formed, whether it succeeds or fails.
pub step-IsWellFormed : (c : Call) (db : Db) → IsWellFormed db → IsWellFormed (step c db)
unfolding step heartbeat complete defer reap_stuck delete_jobs_by_recording
step-IsWellFormed (enqueues now recording kind payload priority) db w =
    enqueue-IsWellFormed now recording kind payload priority db w
step-IsWellFormed (claims now skip worker kinds) db w =
    claim_one-IsWellFormed now skip worker kinds db w
step-IsWellFormed (heartbeats now i worker) db w =
    update_with-IsWellFormed now _ _ db _ (heartbeat-Keeps now i worker) w
step-IsWellFormed (completes now i) db w = update-after-IsWellFormed now _ _ db (complete-Keeps i) w
step-IsWellFormed (fails now i error max_attempts backoff) db w =
    fail-IsWellFormed now i error max_attempts backoff db w
step-IsWellFormed (defers now i note delay) db w =
    update-after-IsWellFormed now _ _ db (defer-Keeps i (now + delay) note) w
step-IsWellFormed (reaps now older_than max_attempts) db w =
    update_with-IsWellFormed now _ _ db _ (reap-Keeps now older_than max_attempts) w
step-IsWellFormed (deletes recording) db w = record {
  unique = unique_live-filter (λ j. not (is_of recording j)) db.jobs w.unique;
  locks = All-filter is_locked_right (λ j. not (is_of recording j)) db.jobs w.locks;
  ids = ids-filter (λ j. not (is_of recording j)) 0 db.next_id db.jobs w.ids;
}
step-IsWellFormed (changes_recordings statuses) db w = record {
  unique = w.unique;
  locks = w.locks;
  ids = w.ids;
}

run-from-IsWellFormed : (cs : List Call) (db : Db) → IsWellFormed db → IsWellFormed (run cs db)
unfolding run
run-from-IsWellFormed [] db w = w
run-from-IsWellFormed (c ∷ cs) db w =
    run-from-IsWellFormed cs (step c db) (step-IsWellFormed c db w)

-- After any history from the empty table, no recording has two live jobs of one kind, exactly the
-- running rows are locked, and ids are distinct.
pub run-IsWellFormed : (cs : List Call) → IsWellFormed (run cs empty_db)
run-IsWellFormed cs =
    run-from-IsWellFormed cs empty_db (record { unique = refl; locks = tt; ids = omega arith })
