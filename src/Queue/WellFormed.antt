-- ===== src/Queue/WellFormed.antt =====
-- What holds of the `jobs` table between two statements: at most one live job for a recording and
-- a kind, a lock on exactly the running rows, and ids that ascend below the sequence.
use scribe_local.Common.{
  ℕ, suc, ◌≤◌, ◌≡◌, refl, Bool, true, false, not, ◌&&◌, List, [], ◌∷◌, ◌++◌, Option, none, some,
  if◌then◌else◌, any, All, arith,
}
use scribe_local.Types.Kind.{running, same_state}
use scribe_local.Queue.Table.{
  Job, Db, ok, is_live, conflicts, unique_live, updated, update, requeues,
}

abbrev pub is_some {ℓ} : {A : Type ℓ} → Option A → Bool
is_some none = false
is_some (some a) = true

-- A row has a holder and a lease exactly while it is running.
abbrev pub is_locked_right : Job → Bool
is_locked_right j =
    if same_state j.state running
    then is_some j.locked_by && is_some j.locked_at
    else not (is_some j.locked_by) && not (is_some j.locked_at)

-- Ids ascend from `lo`, and stay below `hi`.
abbrev pub IsAscending : ℕ → ℕ → List Job → Type 0
IsAscending lo hi [] = lo ≤ hi
IsAscending lo hi (j ∷ js) = (lo ≤ j.id) × IsAscending (suc j.id) hi js

pub record IsWellFormed (db : Db) : Type 0 where
  pub unique : unique_live db.jobs ≡ true
  pub locks : All (λ j. is_locked_right j ≡ true) db.jobs
  pub ids : IsAscending 0 db.next_id db.jobs

-- `f` keeps the identity of a row, and leaves the lock right on the rows that pass `p`.
pub record Keeps (p : Job → Bool) (f : Job → Job) : Type 0 where
  pub same_id : (j : Job) → (f j).id ≡ j.id
  pub same_owner : (j : Job) → (f j).recording_id ≡ j.recording_id
  pub same_stage : (j : Job) → (f j).kind ≡ j.kind
  pub lock_right : (j : Job) → p j ≡ true → is_locked_right (f j) ≡ true

-- `f` does not make the row live if it was dead.
abbrev pub RevivesNot : (Job → Bool) → (Job → Job) → Job → Type 0
RevivesNot p f j = p j ≡ true → is_live (f j).state ≡ true → is_live j.state ≡ true

abbrev touched : ℕ → (Job → Bool) → (Job → Job) → Job → Job
touched now p f j = if p j then record (f j) { updated_at = now } else j

module _ (now : ℕ) (p : Job → Bool) (f : Job → Job) (k : Keeps p f) where
  conflicts-touched :
      (a b : Job)
      → RevivesNot p f a
      → RevivesNot p f b
      → conflicts a b ≡ false
      → conflicts (touched now p f a) (touched now p f b) ≡ false
  conflicts-touched a b ra rb h =
      ground (arith, k.same_owner a, k.same_owner b, k.same_stage a, k.same_stage b)

  any-conflicts-updated :
      (a : Job) (js : List Job)
      → RevivesNot p f a
      → All (RevivesNot p f) js
      → any (conflicts a) js ≡ false
      → any (conflicts (touched now p f a)) (updated now p f js) ≡ false
  unfolding updated
  any-conflicts-updated a [] ra rs h = refl
  any-conflicts-updated a (b ∷ js) ra rs h =
      ground (arith, conflicts-touched a b ra rs.0, any-conflicts-updated a js ra rs.1)

  unique_live-updated :
      (js : List Job)
      → All (RevivesNot p f) js
      → unique_live js ≡ true
      → unique_live (updated now p f js) ≡ true
  unfolding updated
  unique_live-updated [] r h = refl
  unique_live-updated (j ∷ js) r h =
      ground (arith, any-conflicts-updated j js r.0 r.1, unique_live-updated js r.1)

  locks-updated :
      (js : List Job)
      → All (λ j. is_locked_right j ≡ true) js
      → All (λ j. is_locked_right j ≡ true) (updated now p f js)
  unfolding updated
  locks-updated [] h = tt
  locks-updated (j ∷ js) h = ground (arith, k.lock_right j, locks-updated js h.1)

  ids-updated :
      (lo hi : ℕ) (js : List Job) → IsAscending lo hi js → IsAscending lo hi (updated now p f js)
  unfolding updated
  ids-updated lo hi [] h = h
  ids-updated lo hi (j ∷ js) h = ground (arith, k.same_id j, ids-updated (suc j.id) hi js h.1)

  -- An update that succeeds leaves the table well formed.
  pub update-IsWellFormed :
      (db db' : Db) → IsWellFormed db → update now p f db ≡ ok db' → IsWellFormed db'
  unfolding update
  update-IsWellFormed db db' w e =
      ground (arith, locks-updated db.jobs w.locks, ids-updated 0 db.next_id db.jobs w.ids)

  -- One that makes no dead row live succeeds.
  pub update_succeeds :
      (db : Db)
      → IsWellFormed db
      → All (RevivesNot p f) db.jobs
      → update now p f db
        ≡ ok (record db {
          jobs = updated now p f db.jobs;
          notices = db.notices ++ requeues p f db.jobs;
        })
  unfolding update
  update_succeeds db w r = rw (unique_live-updated db.jobs r w.unique)
