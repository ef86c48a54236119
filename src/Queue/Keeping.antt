-- ===== src/Queue/Keeping.antt =====
-- The invariant of the table under one update or one new row.
use scribe_local.Common.{
  ℕ, suc, ◌≡◌, refl, ◌∙◌, ◌||◌, Bool, true, false, not, ◌&&◌, List, [], ◌∷◌, ◌++◌, some, any, arith,
}
use scribe_local.Common.Text.{Text}
use scribe_local.Queue.Table.{Job, Db, Result, ok, err, conflicts, unique_live, update, ◌>>=◌}
use scribe_local.Queue.Ops.{
  claim, has_id, holds, complete_job, retry_job, park_job, defer_job, is_stuck, reap_job,
}
use scribe_local.Queue.WellFormed.{IsAscending, IsWellFormed, Keeps, update-IsWellFormed}
use scribe_local.Queue.Steps.{after, after_pair}

pub claim-Keeps : (now i : ℕ) (worker : Text) → Keeps (has_id i) (claim now worker)
claim-Keeps now i worker = record {
  same_id = λ j. refl;
  same_owner = λ j. refl;
  same_stage = λ j. refl;
  lock_right = λ j h. refl;
}

pub heartbeat-Keeps :
    (now i : ℕ) (worker : Text) → Keeps (holds i worker) (λ j. record j { locked_at = some now })
heartbeat-Keeps now i worker = record {
  same_id = λ j. refl;
  same_owner = λ j. refl;
  same_stage = λ j. refl;
  lock_right = λ j h. ground arith;
}

pub complete-Keeps : (i : ℕ) → Keeps (has_id i) complete_job
complete-Keeps i = record {
  same_id = λ j. refl;
  same_owner = λ j. refl;
  same_stage = λ j. refl;
  lock_right = λ j h. refl;
}

pub retry-Keeps : (i n : ℕ) (e : Text) (at : ℕ) → Keeps (has_id i) (retry_job n e at)
retry-Keeps i n e at = record {
  same_id = λ j. refl;
  same_owner = λ j. refl;
  same_stage = λ j. refl;
  lock_right = λ j h. refl;
}

pub park-Keeps : (i n : ℕ) (e : Text) → Keeps (has_id i) (park_job n e)
park-Keeps i n e = record {
  same_id = λ j. refl;
  same_owner = λ j. refl;
  same_stage = λ j. refl;
  lock_right = λ j h. refl;
}

pub defer-Keeps : (i at : ℕ) (note : Text) → Keeps (has_id i) (defer_job note at)
defer-Keeps i at note = record {
  same_id = λ j. refl;
  same_owner = λ j. refl;
  same_stage = λ j. refl;
  lock_right = λ j h. refl;
}

pub reap-Keeps :
    (now older_than max_attempts : ℕ) → Keeps (is_stuck now older_than) (reap_job max_attempts)
reap-Keeps now older_than max_attempts = record {
  same_id = λ j. refl;
  same_owner = λ j. refl;
  same_stage = λ j. refl;
  lock_right = λ j h. ground arith;
}

pub update-after-IsWellFormed :
    (now : ℕ) (p : Job → Bool) (f : Job → Job) (db : Db)
    → Keeps p f
    → IsWellFormed db
    → IsWellFormed (after db (update now p f db))
update-after-IsWellFormed now p f db k w = go (update now p f db) refl
  where
    go : (r : Result Db) → update now p f db ≡ r → IsWellFormed (after db r)
    go (ok db') e = update-IsWellFormed now p f k db db' w e
    go (err x) e = w

-- The same where the call returns something beside the table.
pub update_with-IsWellFormed {ℓ} :
    {A : Type ℓ} (now : ℕ) (p : Job → Bool) (f : Job → Job) (db : Db) (a : Db → A)
    → Keeps p f
    → IsWellFormed db
    → IsWellFormed (after_pair db (update now p f db >>= λ db'. ok (db', a db')))
update_with-IsWellFormed now p f db a k w = go (update now p f db) refl
  where
    go :
        (r : Result Db)
        → update now p f db ≡ r
        → IsWellFormed (after_pair db (r >>= λ db'. ok (db', a db')))
    go (ok db') e = update-IsWellFormed now p f k db db' w e
    go (err x) e = w

pub any-insert :
    (p : Job → Bool) (job : Job) (js : List Job)
    → any p js ≡ false
    → p job ≡ false
    → any p (js ++ job ∷ []) ≡ false
any-insert p job [] a b = ground arith
any-insert p job (k ∷ js) a b = ground (arith, any-insert p job js)

pub conflicts_sym : (a b : Job) → conflicts a b ≡ conflicts b a
conflicts_sym a b = ground arith

pub not_and : (a b : Bool) → a ≡ false → b ≡ true → (not a && b) ≡ true
not_and a b h k = ground arith

or_false : (a b : Bool) → (a || b) ≡ false → (a ≡ false) × (b ≡ false)
or_false a b h = ground arith

pub and_true : (a b : Bool) → (not a && b) ≡ true → (a ≡ false) × (b ≡ true)
and_true a b h = ground arith

-- A row that conflicts with none goes in at the end.
pub unique_live-insert :
    (job : Job) (js : List Job)
    → any (conflicts job) js ≡ false
    → unique_live js ≡ true
    → unique_live (js ++ job ∷ []) ≡ true
unique_live-insert job [] h u = refl
unique_live-insert job (j ∷ js) h u =
    let (apart, none_later) = or_false (conflicts job j) (any (conflicts job) js) h in
    let (alone, rest) = and_true (any (conflicts j) js) (unique_live js) u in
    not_and _ _ (any-insert (conflicts j) job js alone (conflicts_sym j job ∙ apart))
      (unique_live-insert job js none_later rest)

pub ids-insert :
    (lo hi : ℕ) (job : Job) (js : List Job)
    → IsAscending lo hi js
    → job.id ≡ hi
    → IsAscending lo (suc hi) (js ++ job ∷ [])
ids-insert lo hi job [] h e = ground arith
ids-insert lo hi job (j ∷ js) h e = (h.0, ids-insert (suc j.id) hi job js h.1 e)

pub ids_relax : (lo hi : ℕ) (js : List Job) → IsAscending lo hi js → IsAscending lo (suc hi) js
ids_relax lo hi [] h = omega arith
ids_relax lo hi (j ∷ js) h = (h.0, ids_relax (suc j.id) hi js h.1)
