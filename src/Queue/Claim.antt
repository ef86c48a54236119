-- ===== src/Queue/Claim.antt =====
-- `claim_one`: which job a worker gets.
use scribe_local.Common.{
  ℕ, ◌≡◌, refl, subst, Bool, true, false, List, [], ◌∷◌, Option, none, some, All, All-map,
  Bool-cases, Option-cases, inl, inr, arith, ==_iff, ◌⊎◌,
}
use mathlib.Core.List.{append-nil}
use scribe_local.Common.Text.{Text}
use scribe_local.Types.Kind.{JobKind, queued}
use scribe_local.Queue.Table.{Job, Db, ok, ◌>>=◌, updated, update, requeues, is_live}
use scribe_local.Queue.Ops.{
  has_id, get_job, is_claimable, goes_before, prefer, pick, claim, claim_one,
}
use scribe_local.Queue.WellFormed.{IsWellFormed, RevivesNot, update_succeeds}
use scribe_local.Queue.Rows.{IsRow, find-IsRow, All-has_id, find-updated}
use scribe_local.Queue.Keeping.{claim-Keeps}

goes_before_trans :
    (x k j : Job) → goes_before x k ≡ false → goes_before k j ≡ false → goes_before x j ≡ false
goes_before_trans x k j a b = ground arith

goes_before_asym : (k j : Job) → goes_before k j ≡ true → goes_before j k ≡ false
goes_before_asym k j h = ground arith

goes_before_irrefl : (j : Job) → goes_before j j ≡ false
goes_before_irrefl j = ground arith

-- `j` is a row that passes, and no row that passes goes before it.
abbrev pub IsNext : (Job → Bool) → List Job → Job → Type 0
IsNext p js j = IsRow j js × (p j ≡ true) × All (λ k. p k ≡ true → goes_before k j ≡ false) js

pick-none : (p : Job → Bool) (js : List Job) → pick p js ≡ none → All (λ j. p j ≡ false) js
unfolding pick
pick-none p [] h = tt
pick-none p (j ∷ js) h = ground (arith, pick-none p js)

All-goes_before :
    (p : Job → Bool) (k j : Job) (js : List Job)
    → goes_before k j ≡ false
    → All (λ x. p x ≡ true → goes_before x k ≡ false) js
    → All (λ x. p x ≡ true → goes_before x j ≡ false) js
All-goes_before p k j js h = All-map _ _ js (λ x le px. goes_before_trans x k j (le px) h)

vacuous :
    (p : Job → Bool) (j : Job) (js : List Job)
    → All (λ x. p x ≡ false) js
    → All (λ x. p x ≡ true → goes_before x j ≡ false) js
vacuous p j js = All-map _ _ js (λ x no yes'. cc)

-- The choice between a row that passes and the best of the later ones.
prefer-IsNext :
    (p : Job → Bool) (x : Job) (js : List Job) (o : Option Job)
    → p x ≡ true
    → pick p js ≡ o
    → ((k : Job) → o ≡ some k → IsNext p js k)
    → IsNext p (x ∷ js) (prefer x o)
prefer-IsNext p x js none px e ih =
    (inl refl, px, (λ _. goes_before_irrefl x, vacuous p x js (pick-none p js e)))
prefer-IsNext p x js (some k) px e ih = elim (Bool-cases (goes_before k x)) [
  | inl first ↦
      let best = ih k refl in
      let chosen : k ≡ prefer x (some k) = rw (first, prefer) refl in
      subst (IsNext p (x ∷ js)) chosen
        (inr best.0, best.1, (λ _. goes_before_asym k x first, best.2))
  | inr later ↦
      let best = ih k refl in
      let chosen : x ≡ prefer x (some k) = rw (later, prefer) refl in
      subst (IsNext p (x ∷ js)) chosen
        (inl refl, px, (λ _. goes_before_irrefl x, All-goes_before p k x js later best.2))
]

pub pick-IsNext : (p : Job → Bool) (js : List Job) (j : Job) → pick p js ≡ some j → IsNext p js j
unfolding pick
pick-IsNext p [] j h = absurd (ground arith)
pick-IsNext p (x ∷ js) j h = elim (Bool-cases (p x)) [
  | inl px ↦
      subst (IsNext p (x ∷ js)) (ground arith)
        (prefer-IsNext p x js (pick p js) px refl (pick-IsNext p js))
  | inr npx ↦
      let best = pick-IsNext p js j (ground arith) in (inr best.0, best.1, (λ px. cc, best.2))
]

-- The table after worker `worker` has claimed row `j`.
abbrev pub claimed : ℕ → Text → Job → Db → Db
claimed now worker j db = record db { jobs = updated now (has_id j.id) (claim now worker) db.jobs }

pub claim-RevivesNot :
    (now : ℕ) (worker : Text) (db : Db) (j : Job)
    → IsWellFormed db
    → IsRow j db.jobs
    → j.state ≡ queued
    → All (RevivesNot (has_id j.id) (claim now worker)) db.jobs
claim-RevivesNot now worker db j w m q =
    All-map _ _ db.jobs (λ k alive same _. alive same)
      (All-has_id (λ k. is_live k.state ≡ true) 0 db.next_id db.jobs j w.ids
        (find-IsRow 0 db.next_id db.jobs j w.ids m) (rw q refl))

requeues-claim :
    (i now : ℕ) (worker : Text) (js : List Job) → requeues (has_id i) (claim now worker) js ≡ []
unfolding requeues
requeues-claim i now worker [] = refl
requeues-claim i now worker (j ∷ js) = ground (arith, requeues-claim i now worker js)

has_own_id : (j : Job) → has_id j.id j ≡ true
has_own_id j = (==_iff j.id j.id).1 refl

claim_row :
    (now : ℕ) (worker : Text) (db : Db) (j : Job)
    → IsWellFormed db
    → IsRow j db.jobs
    → j.state ≡ queued
    → ◌>>=◌ {B = Db × Option Job}
        (update now (has_id j.id) (claim now worker) db)
        (λ db'. ok (db', get_job j.id db'))
      ≡ ok (claimed now worker j db, some (record (claim now worker j) { updated_at = now }))
unfolding get_job
claim_row now worker db j w m q = rw (
  update_succeeds now (has_id j.id) (claim now worker) (claim-Keeps now j.id worker) db w
      (claim-RevivesNot now worker db j w m q),
  requeues-claim,
  append-nil,
  find-updated now j.id (has_id j.id) (claim now worker) (claim-Keeps now j.id worker) db.jobs j
      (find-IsRow 0 db.next_id db.jobs j w.ids m),
  has_own_id j,
)

-- In a well-formed table and with some kind to work on, `claim_one` never fails. If no row is
-- claimable it takes none and changes nothing. Otherwise it takes a claimable row, before which no
-- claimable row goes in the order of priority and age, and returns it running, held by the worker
-- from `now` on; no other row changes.
pub claim_one-IsNext :
    (now : ℕ) (skip : ℕ → Bool) (worker : Text) (k : JobKind) (ks : List JobKind) (db : Db)
    → IsWellFormed db
    → (All (λ j. is_claimable now skip (k ∷ ks) j ≡ false) db.jobs
        × (claim_one now skip worker (k ∷ ks) db ≡ ok (db, none)))
      ⊎ ((j : Job) × IsNext (is_claimable now skip (k ∷ ks)) db.jobs j
          × (claim_one now skip worker (k ∷ ks) db
              ≡ ok (
                claimed now worker j db,
                some (record (claim now worker j) { updated_at = now }),
              )))
unfolding claim_one
claim_one-IsNext now skip worker k ks db w =
    elim (Option-cases (pick (is_claimable now skip (k ∷ ks)) db.jobs)) [
      | inl e ↦ inl (pick-none _ db.jobs e, rw (e, claim_one))
      | inr (j, e) ↦ inr (j, pick-IsNext _ db.jobs j e, taken j e)
    ]
  where
    taken :
        (j : Job)
        → pick (is_claimable now skip (k ∷ ks)) db.jobs ≡ some j
        → claim_one now skip worker (k ∷ ks) db
          ≡ ok (claimed now worker j db, some (record (claim now worker j) { updated_at = now }))
    taken j e =
        let next = pick-IsNext _ db.jobs j e in
        rw (e, claim_one) (claim_row now worker db j w next.0 (ground (arith, next.1)))
