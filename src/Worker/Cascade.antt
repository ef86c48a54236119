-- ===== src/Worker/Cascade.antt =====
-- `enqueue_successors`: the stages that follow a stage.
use scribe_local.Common.{
  ℕ, ◌≡◌, refl, ap, ◌∙◌, subst, Bool, true, List, [], ◌∷◌, ◌++◌, some, any, All, All-map,
  Bool-cases, inl, inr, arith, find,
}
use scribe_local.Common.Json.{object, end}
use scribe_local.Common.Int.{pos}
use scribe_local.Types.Kind.{JobKind, same_kind, successors, predecessors}
use scribe_local.Types.Recording.{RecordingStatus}
use scribe_local.Queue.Table.{Job, Db, status_of}
use scribe_local.Queue.Ops.{is_live_job, enqueue}
use scribe_local.Queue.Queries.{is_done_job, predecessors_done}
use scribe_local.Queue.Enqueue.{enqueue-cases}
use scribe_local.Queue.Ready.{predecessors_done_lem}
use scribe_local.Worker.World.{World, Outcome, returned, threw, bind, M}
use scribe_local.Worker.Job.{enqueue_stage, enqueue_ready, enqueue_successors}

-- The queue holds a live job of the kind for the recording.
abbrev pub HasLive : ℕ → JobKind → Db → Type 0
HasLive recording kind db = any (is_live_job recording kind) db.jobs ≡ true

pub find-any : (p : Job → Bool) (js : List Job) (j : Job) → find p js ≡ some j → any p js ≡ true
find-any p [] j e = absurd (ground arith)
find-any p (x ∷ js) j e = ground (arith, find-any p js j)

any-append : (p : Job → Bool) (js ks : List Job) → any p js ≡ true → any p (js ++ ks) ≡ true
any-append p [] ks h = absurd (ground arith)
any-append p (x ∷ js) ks h = ground (arith, any-append p js ks)

pub any-insert_last :
    (p : Job → Bool) (js : List Job) (j : Job) → p j ≡ true → any p (js ++ j ∷ []) ≡ true
any-insert_last p [] j h = ground arith
any-insert_last p (x ∷ js) j h = ground (arith, any-insert_last p js j)

-- What one successor's enqueueing leaves: no row is lost, nothing fails, there is a live job, and the
-- recordings are as they were.
record Enqueued (recording : ℕ) (kind : JobKind) (w : World) (r : World × Outcome (Unit {0}))
    : Type 0 where
  succeeds : r.1 ≡ returned tt
  grows : (p : Job → Bool) → any p w.queue.jobs ≡ true → any p r.0.queue.jobs ≡ true
  lives : HasLive recording kind r.0.queue
  same_recordings : r.0.queue.statuses ≡ w.queue.statuses

enqueue_stage-Enqueued :
    (now recording : ℕ) (kind : JobKind) (w : World) (s : RecordingStatus)
    → status_of recording w.queue.statuses ≡ some s
    → Enqueued recording kind w (enqueue_stage now recording kind w)
unfolding enqueue
enqueue_stage-Enqueued now recording kind w s known =
    elim (enqueue-cases now recording kind (object end) (pos 0) w.queue) [
      | inl (dead, inr (unknown, e)) ↦ absurd (cc (known, unknown))
      | inl (dead, inl (t, found, e)) ↦ rw e (record {
        succeeds = refl;
        grows = λ p h. any-append p w.queue.jobs _ h;
        lives = any-insert_last _ w.queue.jobs _ (ground arith);
        same_recordings = refl;
      })
      | inr (j, f, e) ↦ rw e (record {
        succeeds = refl;
        grows = λ p h. h;
        lives = find-any _ w.queue.jobs j f;
        same_recordings = refl;
      })
    ]

predecessors_done-grows :
    (recording : ℕ) (kind : JobKind) (db db' : Db)
    → ((p : Job → Bool) → any p db.jobs ≡ true → any p db'.jobs ≡ true)
    → predecessors_done recording kind db ≡ true
    → predecessors_done recording kind db' ≡ true
predecessors_done-grows recording kind db db' g h = (predecessors_done_lem recording kind db').1 (
    All-map _ _ (predecessors kind) (λ p d. g (is_done_job recording p) d)
      ((predecessors_done_lem recording kind db).0 h))

-- The loop succeeds, loses no row, and leaves a live job for every stage of the list whose
-- predecessors were done.
record Cascades (recording : ℕ) (kinds : List JobKind) (w : World) (r : World × Outcome (Unit {0}))
    : Type 0 where
  pub succeeds : r.1 ≡ returned tt
  pub grows : (p : Job → Bool) → any p w.queue.jobs ≡ true → any p r.0.queue.jobs ≡ true
  pub lives :
      All (λ k. predecessors_done recording k w.queue ≡ true → HasLive recording k r.0.queue) kinds

bind_returned :
    (r : World × Outcome (Unit {0})) (f : Unit {0} → M (Unit {0}))
    → r.1 ≡ returned tt
    → bind r f ≡ f tt r.0
bind_returned (w, returned tt) f e = refl
bind_returned (w, threw x) f e = absurd (ground arith)

-- The rest of the loop, run after a call that loses no row, cascades from the earlier state too.
Cascades-after :
    (recording : ℕ) (kinds : List JobKind) (w w' : World) (r : World × Outcome (Unit {0}))
    → ((p : Job → Bool) → any p w.queue.jobs ≡ true → any p w'.queue.jobs ≡ true)
    → Cascades recording kinds w' r
    → All (λ k. predecessors_done recording k w.queue ≡ true → HasLive recording k r.0.queue) kinds
Cascades-after recording kinds w w' r g c =
    All-map _ _ kinds (λ k h d. h (predecessors_done-grows recording k w.queue w'.queue g d))
      c.lives

-- One turn of the loop that enqueues, then the rest of it.
Cascades-step :
    (recording : ℕ) (k : JobKind) (ks : List JobKind) (w : World) (r : World × Outcome (Unit {0}))
    (f : Unit {0} → M (Unit {0}))
    → Enqueued recording k w r
    → Cascades recording ks r.0 (f tt r.0)
    → Cascades recording (k ∷ ks) w (bind r f)
Cascades-step recording k ks w r f e c = rw (bind_returned r f e.succeeds) (record {
  succeeds = c.succeeds;
  grows = λ p h. c.grows p (e.grows p h);
  lives = ((λ d. c.grows _ e.lives), Cascades-after recording ks w r.0 _ e.grows c);
})

enqueue_ready-Cascades :
    (now recording : ℕ) (kinds : List JobKind) (w : World) (s : RecordingStatus)
    → status_of recording w.queue.statuses ≡ some s
    → Cascades recording kinds w (enqueue_ready now recording kinds w)
unfolding enqueue_ready
enqueue_ready-Cascades now recording [] w s known = record {
  succeeds = refl;
  grows = λ p h. h;
  lives = tt;
}
enqueue_ready-Cascades now recording (k ∷ ks) w s known =
    elim (Bool-cases (predecessors_done recording k w.queue)) [
      | inl is_ready ↦ rw is_ready (
          let first = enqueue_stage-Enqueued now recording k w s known in
          Cascades-step recording k ks w _ _ first (
            enqueue_ready-Cascades now recording ks _ s
              (ap (status_of recording) first.same_recordings ∙ known)))
      | inr waits ↦
          let rest = enqueue_ready-Cascades now recording ks w s known in
          rw waits (record {
            succeeds = rest.succeeds;
            grows = rest.grows;
            lives = ((λ h. cc), rest.lives);
          })
    ]

lives_in :
    (P : JobKind → Type 0) (kinds : List JobKind) (k : JobKind)
    → All P kinds
    → any (same_kind k) kinds ≡ true
    → ((x : JobKind) → same_kind k x ≡ true → P x → P k)
    → P k
lives_in P [] k h m c = absurd (ground arith)
lives_in P (x ∷ xs) k h m c = elim (Bool-cases (same_kind k x)) [
  | inl same ↦ c x same h.0
  | inr other ↦ lives_in P xs k h.1 (ground arith) c
]

pub same_kind-eq : (k x : JobKind) → same_kind k x ≡ true → x ≡ k
same_kind-eq k x h = ground arith

-- When a stage's successor `k` has all its predecessors done, for a recording that exists, then
-- enqueueing the successors of the stage succeeds and leaves the recording with a queued or running
-- job of kind `k`.
pub enqueue_successors-HasLive :
    (now recording : ℕ) (kind k : JobKind) (w : World) (s : RecordingStatus)
    → status_of recording w.queue.statuses ≡ some s
    → any (same_kind k) (successors kind) ≡ true
    → predecessors_done recording k w.queue ≡ true
    → ((enqueue_successors now kind recording w).1 ≡ returned tt)
      × HasLive recording k (enqueue_successors now kind recording w).0.queue
unfolding enqueue_successors
enqueue_successors-HasLive now recording kind k w s known m d =
    let c = enqueue_ready-Cascades now recording (successors kind) w s known in
    (
      c.succeeds,
      lives_in _ (successors kind) k c.lives m
          (λ x same.
            subst
              (λ y.
                predecessors_done recording y w.queue ≡ true
                → HasLive recording y (enqueue_ready now recording (successors kind) w).0.queue)
              (same_kind-eq k x same))
          d,
    )
