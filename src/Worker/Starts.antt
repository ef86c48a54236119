-- ===== src/Worker/Starts.antt =====
-- Which kinds of job of a recording are live after the calls that start stages.
use scribe_local.Common.{
  filter_same, ℕ, ◌≡◌, refl, ap, sym, ◌∙◌, subst, Bool, true, false, ◌&&◌, ◌||◌, List, [], ◌∷◌,
  ◌++◌, some, any, find, length, ◌==◌, Bool-cases, inl, inr, arith,
}
use scribe_local.Common.Json.{object, end}
use scribe_local.Common.Int.{pos}
use scribe_local.Types.Kind.{JobKind, same_kind, predecessors, all_kinds}
use scribe_local.Types.Recording.{RecordingStatus}
use scribe_local.Queue.Table.{Job, Db, status_of}
use scribe_local.Queue.Ops.{fresh_job, is_live_job, enqueue, has_id, get_job}
use scribe_local.Queue.Queries.{is_done_job, count_done, predecessors_done}
use scribe_local.Queue.Enqueue.{enqueue-cases}
use scribe_local.Worker.World.{World, Outcome, returned, threw, bind, M}
use scribe_local.Worker.Job.{enqueue_stage, enqueue_if, enqueue_ready}
use scribe_local.Worker.Cascade.{find-any, same_kind-eq}

any-last : (p : Job → Bool) (js : List Job) (j : Job) → any p (js ++ j ∷ []) ≡ (any p js || p j)
any-last p [] j = ground arith
any-last p (x ∷ js) j = ground (arith, any-last p js j)

find-first :
    (p : Job → Bool) (js : List Job) (j k : Job)
    → find p js ≡ some k
    → find p (js ++ j ∷ []) ≡ some k
find-first p [] j k h = absurd (cc)
find-first p (x ∷ js) j k h = ground (arith, find-first p js j k)

module _ (recording : ℕ) where
  abbrev pub live : JobKind → Db → Bool
  live k db = any (is_live_job recording k) db.jobs

  abbrev pub has_done : JobKind → Db → Bool
  has_done k db = any (is_done_job recording k) db.jobs

  pub count_done-same :
      (kinds : List JobKind) (a b : Db)
      → ((k : JobKind) → has_done k a ≡ has_done k b)
      → count_done recording kinds a ≡ count_done recording kinds b
  unfolding count_done
  count_done-same kinds a b h = ap length (
      filter_same (λ k. any (same_kind k) kinds && has_done k a)
        (λ k. any (same_kind k) kinds && has_done k b)
        (λ k. ap (λ d. any (same_kind k) kinds && d) (h k)) all_kinds)

  predecessors_done-same :
      (kind : JobKind) (a b : Db)
      → ((k : JobKind) → has_done k a ≡ has_done k b)
      → predecessors_done recording kind a ≡ predecessors_done recording kind b
  unfolding predecessors_done
  predecessors_done-same kind a b h = go (predecessors kind)
    where
      go :
          (ps : List JobKind)
          → (elim ps as (λ _. Bool) [
            | [] ↦ true
            | p ∷ qs ↦ count_done recording (p ∷ qs) a == length (p ∷ qs)
          ])
            ≡ (elim ps as (λ _. Bool) [
              | [] ↦ true
              | p ∷ qs ↦ count_done recording (p ∷ qs) b == length (p ∷ qs)
            ])
      go [] = refl
      go (p ∷ qs) = ap (λ n. n == length (p ∷ qs)) (count_done-same (p ∷ qs) a b h)

  -- The calls start the kinds that `wants` tells, and change nothing else that is read later on.
  pub record Adds (wants : JobKind → Bool) (w : World) (r : World × Outcome (Unit {0}))
      : Type 0 where
    pub returns : r.1 ≡ returned tt
    pub lives : (k : JobKind) → live k r.0.queue ≡ (live k w.queue || wants k)
    pub same_done : (k : JobKind) → has_done k r.0.queue ≡ has_done k w.queue
    pub same_recordings : r.0.queue.statuses ≡ w.queue.statuses
    pub same_segments : r.0.untranscribed ≡ w.untranscribed
    pub keeps : (i : ℕ) (j : Job) → get_job i w.queue ≡ some j → get_job i r.0.queue ≡ some j

  fresh_live :
      (now i : ℕ) (kind k : JobKind)
      → is_live_job recording k (fresh_job now i recording kind (object end) (pos 0))
        ≡ same_kind kind k
  fresh_live now i kind k = ground arith

  fresh_not_done :
      (now i : ℕ) (kind k : JobKind)
      → is_done_job recording k (fresh_job now i recording kind (object end) (pos 0)) ≡ false
  fresh_not_done now i kind k = ground arith

  live_already :
      (kind k : JobKind) (db : Db)
      → live kind db ≡ true
      → live k db ≡ (live k db || same_kind kind k)
  live_already kind k db h = elim (Bool-cases (same_kind kind k)) [
    | inl same ↦
        let e : live k db ≡ true =
          subst (λ x. live x db ≡ true) (sym (same_kind-eq kind k same)) h in
        ground arith
    | inr other ↦ ground arith
  ]

  pub enqueue_stage-Adds :
      (now : ℕ) (kind : JobKind) (w : World) (s : RecordingStatus)
      → status_of recording w.queue.statuses ≡ some s
      → Adds (same_kind kind) w (enqueue_stage now recording kind w)
  unfolding enqueue get_job
  enqueue_stage-Adds now kind w s known =
      elim (enqueue-cases now recording kind (object end) (pos 0) w.queue) [
        | inl (dead, inr (unknown, e)) ↦ absurd (cc (known, unknown))
        | inl (dead, inl (t, found, e)) ↦ rw e (record {
          returns = refl;
          lives = λ k.
              any-last (is_live_job recording k) w.queue.jobs _
              ∙ ap (λ b. live k w.queue || b) (fresh_live now w.queue.next_id kind k);
          same_done = λ k.
              any-last (is_done_job recording k) w.queue.jobs _
              ∙ ground (arith, fresh_not_done now w.queue.next_id kind k);
          same_recordings = refl;
          same_segments = refl;
          keeps = λ i j h. find-first (has_id i) w.queue.jobs _ j h;
        })
        | inr (j, f, e) ↦ rw e (record {
          returns = refl;
          lives = λ k. live_already kind k w.queue (find-any _ w.queue.jobs j f);
          same_done = λ k. refl;
          same_recordings = refl;
          same_segments = refl;
          keeps = λ i k h. h;
        })
      ]

  pub Adds-none :
      (wants : JobKind → Bool) (w : World)
      → ((k : JobKind) → wants k ≡ false)
      → Adds wants w (w, returned tt)
  Adds-none wants w h = record {
    returns = refl;
    lives = λ k. ground (arith, h k);
    same_done = λ k. refl;
    same_recordings = refl;
    same_segments = refl;
    keeps = λ i j e. e;
  }

  pub Adds-bind :
      (a b c : JobKind → Bool) (w : World) (r : World × Outcome (Unit {0}))
      (f : Unit {0} → M (Unit {0}))
      → ((k : JobKind) → (a k || b k) ≡ c k)
      → Adds a w r
      → Adds b r.0 (f tt r.0)
      → Adds c w (bind r f)
  Adds-bind a b c w (v, threw x) f h p q = absurd (cc (p.returns))
  Adds-bind a b c w (v, returned tt) f h p q = record {
    returns = q.returns;
    lives = λ k. ground (arith, q.lives k, p.lives k, h k);
    same_done = λ k. q.same_done k ∙ p.same_done k;
    same_recordings = q.same_recordings ∙ p.same_recordings;
    same_segments = q.same_segments ∙ p.same_segments;
    keeps = λ i j e. q.keeps i j (p.keeps i j e);
  }

  -- The stages of the list that wait for nothing.
  abbrev pub may_start : List JobKind → Db → JobKind → Bool
  may_start kinds db k = any (same_kind k) kinds && predecessors_done recording k db

  enqueue_if-Adds :
      (b : Bool) (now : ℕ) (kind : JobKind) (w : World) (s : RecordingStatus)
      → status_of recording w.queue.statuses ≡ some s
      → Adds (λ k. b && same_kind kind k) w (enqueue_if b now recording kind w)
  enqueue_if-Adds true now kind w s known = enqueue_stage-Adds now kind w s known
  enqueue_if-Adds false now kind w s known = Adds-none (λ k. false) w (λ k. refl)

  first_or_later :
      (x k : JobKind) (xs : List JobKind) (db db' : Db)
      → ((k : JobKind) → has_done k db' ≡ has_done k db)
      → ((predecessors_done recording x db && same_kind x k) || may_start xs db' k)
        ≡ may_start (x ∷ xs) db k
  first_or_later x k xs db db' h =
      let later = predecessors_done-same k db' db h in
      elim (Bool-cases (same_kind x k)) [
        | inl same ↦
            let e : k ≡ x = same_kind-eq x k same in
            let gate : predecessors_done recording x db ≡ predecessors_done recording k db =
              ap (λ y. predecessors_done recording y db) (sym e) in
            ground (arith, later, gate)
        | inr other ↦ ground (arith, later)
      ]

  pub enqueue_ready-Adds :
      (now : ℕ) (kinds : List JobKind) (w : World) (s : RecordingStatus)
      → status_of recording w.queue.statuses ≡ some s
      → Adds (may_start kinds w.queue) w (enqueue_ready now recording kinds w)
  unfolding enqueue_ready
  enqueue_ready-Adds now [] w s known = Adds-none (may_start [] w.queue) w (λ k. refl)
  enqueue_ready-Adds now (x ∷ xs) w s known =
      let first = enqueue_if-Adds (predecessors_done recording x w.queue) now x w s known in
      let after = enqueue_if (predecessors_done recording x w.queue) now recording x w in
      Adds-bind _ (may_start xs after.0.queue) (may_start (x ∷ xs) w.queue) w after _
        (λ k. first_or_later x k xs w.queue after.0.queue first.same_done) first
        (enqueue_ready-Adds now xs after.0 s
          (ap (status_of recording) first.same_recordings ∙ known))
