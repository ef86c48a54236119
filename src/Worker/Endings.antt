-- ===== src/Worker/Endings.antt =====
-- What the calls that follow the completion of a job leave.
use scribe_local.Common.{
  ℕ, ◌<◌, ◌≡◌, refl, ap, ◌∙◌, Bool, true, false, ◌&&◌, ◌||◌, List, [], ◌∷◌, some, any, All, ltb,
  ltb→lt, lt→ltb, ◌==◌, if◌then◌else◌, Bool-cases, inl, inr, ◌⊎◌, ◌↔◌, arith,
}
use scribe_local.Types.Kind.{
  JobKind, embed, summarize, transcribe_segment, same_kind, successors, predecessors,
}
use scribe_local.Types.Recording.{RecordingStatus, uploading, ready}
use scribe_local.Queue.Table.{Job, Db, status_of}
use scribe_local.Queue.Ops.{get_job}
use scribe_local.Queue.Queries.{is_done_job, count_done, predecessors_done}
use scribe_local.Queue.Ready.{predecessors_done_lem}
use scribe_local.Worker.World.{
  World, Outcome, returned, threw, bind, ◌>>◌, set_recording_status, get_recording_status,
}
use scribe_local.Worker.Job.{
  enqueue_ready, enqueue_successors, maybe_mark_ready, is_uploading, drain, mark_if_last,
  drain_if_live,
}
use scribe_local.Worker.Cascade.{same_kind-eq}
use scribe_local.Worker.Starts.{
  live, has_done, Adds, enqueue_stage-Adds, may_start, enqueue_ready-Adds,
}
use scribe_local.Worker.Outcomes.{status_of-with_status}

abbrev pub is_last : JobKind → Bool
is_last embed = true
is_last summarize = true
is_last _ = false

abbrev pub is_segment : JobKind → Bool
is_segment transcribe_segment = true
is_segment _ = false

-- A stage that succeeds starts the stages after it whose predecessors are all done; and live
-- transcription starts again while the recording uploads and has segments left.
abbrev pub IsStarted : ℕ → List Job → RecordingStatus → ℕ → JobKind → JobKind → Type 0
IsStarted recording jobs s untranscribed kind k =
    ((any (same_kind k) (successors kind) ≡ true)
      × All (λ p. any (is_done_job recording p) jobs ≡ true) (predecessors k))
    ⊎ ((kind ≡ transcribe_segment)
        × (k ≡ transcribe_segment)
        × (s ≡ uploading)
        × (0 < untranscribed))

or_assoc : (a b c : Bool) → ((a || b) || c) ≡ (a || (b || c))
or_assoc true b c = refl
or_assoc false b c = refl

segment_lem : (k : JobKind) → is_segment k ≡ true → k ≡ transcribe_segment
segment_lem transcribe_segment h = refl
segment_lem _ h = absurd (cc)

uploading_lem : (s : RecordingStatus) → is_uploading s ≡ true → s ≡ uploading
uploading_lem uploading h = refl
uploading_lem _ h = absurd (cc)

module _ (recording : ℕ) where
  -- The status after the last of the two stages that end the pipeline.
  abbrev pub status_after : JobKind → List Job → RecordingStatus → RecordingStatus
  status_after kind jobs s =
      if is_last kind
        && (any (is_done_job recording embed) jobs && any (is_done_job recording summarize) jobs)
      then ready
      else s

  abbrev drains : JobKind → RecordingStatus → ℕ → JobKind → Bool
  drains kind s n k =
      is_segment kind && (same_kind transcribe_segment k && (is_uploading s && ltb 0 n))

  pub record Ends (wants : JobKind → Bool) (t : RecordingStatus) (w : World)
      (r : World × Outcome (Unit {0})) : Type 0 where
    pub returns : r.1 ≡ returned tt
    pub lives : (k : JobKind) → live recording k r.0.queue ≡ (live recording k w.queue || wants k)
    pub keeps : (i : ℕ) (j : Job) → get_job i w.queue ≡ some j → get_job i r.0.queue ≡ some j
    pub status : status_of recording r.0.queue.statuses ≡ some t

  both_done :
      (db : Db)
      → (count_done recording (embed ∷ summarize ∷ []) db == 2)
        ≡ (has_done recording embed db && has_done recording summarize db)
  unfolding count_done
  both_done db = ground arith

  unchanged :
      (wants : JobKind → Bool) (t : RecordingStatus) (v : World)
      → ((k : JobKind) → wants k ≡ false)
      → status_of recording v.queue.statuses ≡ some t
      → Ends wants t v (v, returned tt)
  unchanged wants t v h known = record {
    returns = refl;
    lives = λ k. ground (arith, h k);
    keeps = λ i j e. e;
    status = known;
  }

  mark-Ends :
      (v : World) (s : RecordingStatus)
      → status_of recording v.queue.statuses ≡ some s
      → Ends (λ k. false) (status_after embed v.queue.jobs s) v (maybe_mark_ready recording v)
  unfolding maybe_mark_ready set_recording_status get_job
  mark-Ends v s known =
      elim (Bool-cases (has_done recording embed v.queue && has_done recording summarize v.queue)) [
        | inl both ↦
            rw (both_done v.queue, both, known)
              (record {
                returns = refl;
                lives = λ k. ground arith;
                keeps = λ i j e. e;
                status = status_of-with_status recording ready s v.queue.statuses known;
              })
        | inr waits ↦ rw (both_done v.queue, waits) (unchanged (λ k. false) s v (λ k. refl) known)
      ]

  drain-Ends :
      (now : ℕ) (v : World) (s : RecordingStatus)
      → status_of recording v.queue.statuses ≡ some s
      → Ends (drains transcribe_segment s (v.untranscribed recording)) s v (drain now recording v)
  unfolding drain get_recording_status
  drain-Ends now v s known =
      elim (Bool-cases (is_uploading s && ltb 0 (v.untranscribed recording))) [
        | inr ends ↦ rw (known, ends, drain) (unchanged _ s v (λ k. ground arith) known)
        | inl again ↦
            let a = enqueue_stage-Adds recording now transcribe_segment v s known in
            rw (known, again, drain)
              (record {
                returns = a.returns;
                lives = λ k. ground (arith, a.lives k);
                keeps = a.keeps;
                status = ap (status_of recording) a.same_recordings ∙ known;
              })
      ]

  ended :
      (wants : JobKind → Bool) (t : RecordingStatus) (v : World) (r : World × Outcome (Unit {0}))
      → Ends wants t v r
      → Ends wants t v (bind r (λ _ w. (w, returned tt)))
  ended wants t v (w, returned tt) e = e
  ended wants t v (w, threw x) e = absurd (cc (e.returns))

  -- What follows the successors.
  tail-Ends :
      (now : ℕ) (kind : JobKind) (v : World) (s : RecordingStatus)
      → status_of recording v.queue.statuses ≡ some s
      → Ends
          (drains kind s (v.untranscribed recording))
          (status_after kind v.queue.jobs s)
          v
          ((mark_if_last kind recording >> drain_if_live kind now recording) v)
  tail-Ends now embed v s known = ended _ _ v _ (mark-Ends v s known)
  tail-Ends now summarize v s known = ended _ _ v _ (mark-Ends v s known)
  tail-Ends now transcribe_segment v s known = drain-Ends now v s known
  tail-Ends now _ v s known = unchanged _ s v (λ k. refl) known

  -- All that follows the completion.
  abbrev pub starts : ℕ → JobKind → World → RecordingStatus → JobKind → Bool
  starts now kind v s k =
      may_start recording (successors kind) v.queue k || drains kind s (v.untranscribed recording) k

  pub after-Ends :
      (now : ℕ) (kind : JobKind) (v : World) (s : RecordingStatus)
      → status_of recording v.queue.statuses ≡ some s
      → Ends (starts now kind v s) (status_after kind v.queue.jobs s) v (
          (enqueue_successors now kind recording
              >> (mark_if_last kind recording >> drain_if_live kind now recording))
            v)
  unfolding enqueue_successors
  after-Ends now kind v s known =
      go (enqueue_ready now recording (successors kind) v)
        (enqueue_ready-Adds recording now (successors kind) v s known)
    where
      go :
          (r : World × Outcome (Unit {0}))
          → Adds recording (may_start recording (successors kind) v.queue) v r
          → Ends
              (starts now kind v s)
              (status_after kind v.queue.jobs s)
              v
              (bind r (λ _. mark_if_last kind recording >> drain_if_live kind now recording))
      go (w, threw x) a = absurd (cc (a.returns))
      go (w, returned tt) a =
          let e = tail-Ends now kind w s (ap (status_of recording) a.same_recordings ∙ known) in
          record {
            returns = e.returns;
            lives = λ k.
                e.lives k
                ∙ ap (λ u. live recording k w.queue || drains kind s (u recording) k)
                    a.same_segments
                ∙ ap (λ b. b || drains kind s (v.untranscribed recording) k) (a.lives k)
                ∙ or_assoc (live recording k v.queue) _ _;
            keeps = λ i j h. e.keeps i j (a.keeps i j h);
            status = e.status ∙ rw (a.same_done embed, a.same_done summarize) refl;
          }

  pub started :
      (now : ℕ) (kind k : JobKind) (v : World) (s : RecordingStatus)
      → (starts now kind v s k ≡ true)
        ↔ IsStarted recording v.queue.jobs s (v.untranscribed recording) kind k
  started now kind k v s = (there, back)
    where
      n : ℕ
      n = v.untranscribed recording

      there : starts now kind v s k ≡ true → IsStarted recording v.queue.jobs s n kind k
      there h = elim (Bool-cases (may_start recording (successors kind) v.queue k)) [
        | inl m ↦
            let ready_now : predecessors_done recording k v.queue ≡ true = ground (arith, m) in
            inl (ground (arith, m), (predecessors_done_lem recording k v.queue).0 ready_now)
        | inr m ↦
            let d : drains kind s n k ≡ true = ground (arith, h, m) in
            let a : is_segment kind ≡ true = ground (arith, d) in
            let b : same_kind transcribe_segment k ≡ true = ground (arith, d) in
            let c : is_uploading s ≡ true = ground (arith, d) in
            let l : ltb 0 n ≡ true = ground (arith, d) in
            inr (
              segment_lem kind a,
              same_kind-eq transcribe_segment k b,
              uploading_lem s c,
              ltb→lt 0 n l,
            )
      ]

      back : IsStarted recording v.queue.jobs s n kind k → starts now kind v s k ≡ true
      back (inl (m, p)) =
          let ready_now = (predecessors_done_lem recording k v.queue).1 p in rw (m, ready_now) refl
      back (inr (a, b, c, l)) =
          let d : drains kind s n k ≡ true = rw (a, b, c, lt→ltb 0 n l) refl in ground (arith, d)
