-- ===== src/Queue/Enqueue.antt =====
-- `enqueue_with_priority`: new requests and repeated ones.
use scribe_local.Common.{
  ℕ, suc, ◌≡◌, refl, sym, subst, ◌∙◌, Bool, true, false, List, [], ◌∷◌, ◌++◌, Option, none, some,
  find, find-none, any, All, Bool-cases, inl, inr, arith, ◌⊎◌, ap,
}
use scribe_local.Common.Int.{ℤ}
use scribe_local.Common.Json.{Json}
use scribe_local.Types.Kind.{JobKind}
use scribe_local.Types.Recording.{RecordingStatus}
use scribe_local.Queue.Table.{Job, Db, Result, ok, err, foreign_key_violation, status_of, conflicts}
use scribe_local.Queue.Ops.{fresh_job, is_live_job, enqueue_with_priority}

conflicts-fresh :
    (now i recording : ℕ) (kind : JobKind) (payload : Json) (priority : ℤ) (j : Job)
    → conflicts (fresh_job now i recording kind payload priority) j ≡ is_live_job recording kind j
conflicts-fresh now i recording kind payload priority j = ground arith

any-find :
    (p q : Job → Bool) (js : List Job)
    → ((j : Job) → p j ≡ q j)
    → ((any p js ≡ false) × (find q js ≡ none))
      ⊎ ((j : Job) × (any p js ≡ true) × (find q js ≡ some j))
any-find p q [] e = inl (refl, refl)
any-find p q (x ∷ js) e = elim (Bool-cases (q x)) [
  | inl hit ↦ inr (x, ground (arith, e x), rw hit)
  | inr miss ↦ elim (any-find p q js e) [
    | inl (a, b) ↦ inl (ground (arith, e x), rw miss b)
    | inr (j, a, b) ↦ inr (j, ground (arith, e x), rw miss b)
  ]
]

pub status-cases :
    (recording : ℕ) (db : Db)
    → ((s : RecordingStatus) × (status_of recording db.statuses ≡ some s))
      ⊎ (status_of recording db.statuses ≡ none)
status-cases recording db = go (status_of recording db.statuses) refl
  where
    go :
        (o : Option RecordingStatus)
        → status_of recording db.statuses ≡ o
        → ((s : RecordingStatus) × (status_of recording db.statuses ≡ some s))
          ⊎ (status_of recording db.statuses ≡ none)
    go none e = inr e
    go (some s) e = inl (s, e)

find-insert :
    (p : Job → Bool) (js : List Job) (j : Job)
    → find p js ≡ none
    → p j ≡ true
    → find p (js ++ j ∷ []) ≡ some j
find-insert p [] j h e = rw e
find-insert p (x ∷ js) j h e = ground (arith, find-insert p js j)

module _ (now recording : ℕ) (kind : JobKind) (payload : Json) (priority : ℤ) (db : Db) where
  -- The table with the fresh job at the end.
  abbrev pub inserted : Db
  inserted = record db {
    jobs = db.jobs ++ fresh_job now db.next_id recording kind payload priority ∷ [];
    next_id = suc db.next_id;
    notices = db.notices ++ kind ∷ [];
  }

  -- If a live job of the recording and kind stands in the table, enqueueing returns it and changes
  -- no row. Otherwise, if the recording exists, a fresh queued job goes in at the end, is returned,
  -- and its kind is announced to the workers; and if it does not, the call fails on the reference.
  pub enqueue-cases :
      (All (λ j. is_live_job recording kind j ≡ false) db.jobs
        × (((s : RecordingStatus) × (status_of recording db.statuses ≡ some s)
              × (enqueue_with_priority now recording kind payload priority db
                  ≡ ok (inserted, fresh_job now db.next_id recording kind payload priority)))
            ⊎ ((status_of recording db.statuses ≡ none)
                × (enqueue_with_priority now recording kind payload priority db
                    ≡ err foreign_key_violation))))
      ⊎ ((j : Job) × (find (is_live_job recording kind) db.jobs ≡ some j)
          × (enqueue_with_priority now recording kind payload priority db
              ≡ ok (record db { next_id = suc db.next_id }, j)))
  unfolding enqueue_with_priority
  enqueue-cases =
      elim (any-find (conflicts (fresh_job now db.next_id recording kind payload priority))
        (is_live_job recording kind) db.jobs
        (conflicts-fresh now db.next_id recording kind payload priority)) [
          | inl (a, b) ↦ inl (
            find-none _ db.jobs b,
            elim (status-cases recording db) [
              | inl (s, e) ↦ inl (s, e, rw (a, e) refl)
              | inr e ↦ inr (e, rw (a, e) refl)
            ],
          )
          | inr (j, a, b) ↦ inr (j, b, rw (a, b))
        ]

fresh_is_live :
    (now i recording : ℕ) (kind : JobKind) (payload : Json) (priority : ℤ)
    → is_live_job recording kind (fresh_job now i recording kind payload priority) ≡ true
fresh_is_live now i recording kind payload priority = ground arith

All-find : (p : Job → Bool) (js : List Job) → All (λ j. p j ≡ false) js → find p js ≡ none
All-find p [] h = refl
All-find p (x ∷ js) h = ground (arith, All-find p js h.1)

-- The returned job stands in the returned table, as the live one of its recording and kind.
abbrev Finds : ℕ → JobKind → Result (Db × Job) → Type 0
Finds recording kind (ok (db, j)) = find (is_live_job recording kind) db.jobs ≡ some j
Finds recording kind (err e) = Unit

enqueue-Finds :
    (now recording : ℕ) (kind : JobKind) (payload : Json) (priority : ℤ) (db : Db)
    → Finds recording kind (enqueue_with_priority now recording kind payload priority db)
enqueue-Finds now recording kind payload priority db =
    elim (enqueue-cases now recording kind payload priority db) [
      | inl (dead, inl (s, known, e)) ↦ subst (Finds recording kind) (sym e) (
          find-insert _ db.jobs _ (All-find _ db.jobs dead)
            (fresh_is_live now db.next_id recording kind payload priority))
      | inl (dead, inr (unknown, e)) ↦ subst (Finds recording kind) (sym e) tt
      | inr (j, f, e) ↦ subst (Finds recording kind) (sym e) f
    ]

clash : (o : Option Job) (j : Job) → o ≡ some j → o ≡ none → ⊥
clash o j a b = cc

-- A second request, at any later time and with any payload and priority, finds the job of the
-- first: it returns the same row and changes none.
pub enqueue_twice :
    (now later recording : ℕ) (kind : JobKind) (a b : Json) (x y : ℤ) (db db' : Db) (j : Job)
    → enqueue_with_priority now recording kind a x db ≡ ok (db', j)
    → enqueue_with_priority later recording kind b y db'
      ≡ ok (record db' { next_id = suc db'.next_id }, j)
enqueue_twice now later recording kind a b x y db db' j h =
    elim (enqueue-cases later recording kind b y db') [
      | inl (dead, r) ↦ absurd (clash _ j found (All-find _ db'.jobs dead))
      | inr (k, f, e) ↦ e ∙ ap (λ i. ok (record db' { next_id = suc db'.next_id }, i)) (same k f)
    ]
  where
    found : find (is_live_job recording kind) db'.jobs ≡ some j
    found = subst (Finds recording kind) h (enqueue-Finds now recording kind a x db)

    same : (k : Job) → find (is_live_job recording kind) db'.jobs ≡ some k → k ≡ j
    same k f = cc (found)
