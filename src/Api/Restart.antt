-- ===== src/Api/Restart.antt =====
-- What completing, reprocessing and rediarizing a recording leave on the queue.
use scribe_local.Common.{
  filter_same, ℕ, ◌≡◌, refl, sym, subst, ◌∙◌, ap, Bool, true, false, not, ◌&&◌, ◌==◌, List, [], ◌∷◌,
  ◌++◌, Option, none, some, filter, find, any, inl, inr, arith,
}
use scribe_local.Common.Int.{ℤ, pos}
use scribe_local.Common.Text.{Text, codes, text_eq, text_eq_sound}
use scribe_local.Common.Json.{object, end}
use scribe_local.Types.Kind.{
  JobKind, transcode, transcribe, diarize, merge, embed, summarize, transcribe_segment, same_kind,
}
use scribe_local.Types.Recording.{RecordingStatus, uploading, processing}
use scribe_local.Queue.Table.{Job, Db, ok, status_of, with_status}
use scribe_local.Queue.Ops.{fresh_job, is_live_job, is_of, enqueue, delete_jobs_by_recording}
use scribe_local.Queue.Enqueue.{enqueue-cases, inserted}
use scribe_local.Worker.Outcomes.{status_of-with_status}
use scribe_local.Worker.Cascade.{HasLive, find-any, any-insert_last}
use scribe_local.Api.Lifecycle.{
  Table, utterances, chunks, summaries, recording_speakers, recording_artifacts, rerun_kinds, Store,
  accepted, start, with_duration, with_marks, with_processing, complete_recording, is_row_of,
  reset_for_reprocess, reprocess_recording, is_transcript_of, is_dropped_row, is_dropped_job,
  reset_for_rediarize, rediarize_recording,
}

filter-append :
    (p : Job → Bool) (js ks : List Job) → filter p (js ++ ks) ≡ filter p js ++ filter p ks
filter-append p [] ks = refl
filter-append p (j ∷ js) ks = ground (arith, filter-append p js ks)

filter_gone : {A : Type 0} (p : A → Bool) (xs : List A) → filter p (filter (λ x. not (p x)) xs) ≡ []
filter_gone p [] = refl
filter_gone p (x ∷ xs) = ground (arith, filter_gone p xs)

filter_again : {A : Type 0} (p : A → Bool) (js : List A) → filter p (filter p js) ≡ filter p js
filter_again p [] = refl
filter_again p (j ∷ js) = ground (arith, filter_again p js)

find_gone :
    (p q : Job → Bool) (js : List Job)
    → ((j : Job) → q j ≡ true → p j ≡ true)
    → find q (filter (λ j. not (p j)) js) ≡ none
find_gone p q [] h = refl
find_gone p q (j ∷ js) h = ground (arith, h j, find_gone p q js h)

append_nothing : (js : List Job) → js ++ [] ≡ js
append_nothing [] = refl
append_nothing (j ∷ js) = ap (λ ks. j ∷ ks) (append_nothing js)

clash : {A : Type 0} (o : Option A) (a : A) → o ≡ none → o ≡ some a → ⊥
clash o a h k = cc

-- With the jobs that pass `p` deleted, among them every live one of the kind, enqueueing the kind
-- inserts a fresh job, the only one to pass; the others are those that were there.
module _ (now id : ℕ) (kind : JobKind) (p : Job → Bool) (db : Db)
    (drops : (j : Job) → is_live_job id kind j ≡ true → p j ≡ true)
    (drops_fresh : (i : ℕ) → p (fresh_job now i id kind (object end) (pos 0)) ≡ true)
    (status : RecordingStatus) (known : status_of id db.statuses ≡ some status) where
  abbrev pub cleared : Db
  cleared = record db { jobs = filter (λ j. not (p j)) db.jobs }

  abbrev pub restarted : Db
  restarted = inserted now id kind (object end) (pos 0) cleared

  enqueue-cleared :
      enqueue now id kind (object end) cleared
      ≡ ok (restarted, fresh_job now db.next_id id kind (object end) (pos 0))
  unfolding enqueue
  enqueue-cleared = elim (enqueue-cases now id kind (object end) (pos 0) cleared) [
    | inl (dead, inl (t, found, e)) ↦ e
    | inl (dead, inr (unknown, e)) ↦ absurd (cc (known, unknown))
    | inr (j, f, e) ↦ absurd (clash _ j (find_gone p (is_live_job id kind) db.jobs drops) f)
  ]

  filter-restarted :
      filter p restarted.jobs ≡ fresh_job now db.next_id id kind (object end) (pos 0) ∷ []
  filter-restarted =
      filter-append p cleared.jobs _ ∙ rw (filter_gone p db.jobs, drops_fresh db.next_id) refl

  others-restarted : filter (λ j. not (p j)) restarted.jobs ≡ filter (λ j. not (p j)) db.jobs
  others-restarted =
      filter-append (λ j. not (p j)) cleared.jobs _
      ∙ rw (filter_again (λ j. not (p j)) db.jobs, drops_fresh db.next_id) (append_nothing _)

live-is_of : (id : ℕ) (kind : JobKind) (j : Job) → is_live_job id kind j ≡ true → is_of id j ≡ true
live-is_of id kind j h = ground arith

fresh-is_of :
    (now id i : ℕ) (kind : JobKind) → is_of id (fresh_job now i id kind (object end) (pos 0)) ≡ true
fresh-is_of now id i kind = ground arith

live-is_dropped_job :
    (id : ℕ) (j : Job) → is_live_job id diarize j ≡ true → is_dropped_job id j ≡ true
live-is_dropped_job id j h = ground arith

fresh-is_dropped_job :
    (now id i : ℕ) → is_dropped_job id (fresh_job now i id diarize (object end) (pos 0)) ≡ true
fresh-is_dropped_job now id i = ground arith

-- The queue of a recording that is processing again.
abbrev marked : ℕ → Db → Db
marked id db = record db { statuses = with_status id processing db.statuses }

-- Reprocessing an existing recording is accepted. Its only job is then a fresh transcode, the jobs
-- of other recordings are those that were there, none of its derived rows are left, and its status
-- is processing.
pub reprocess_recording_lem :
    (now id : ℕ) (s : Store) (old : RecordingStatus)
    → status_of id s.queue.statuses ≡ some old
    → let r = reprocess_recording now id s in
      (r.1 ≡ accepted)
      × (filter (is_of id) r.0.queue.jobs
          ≡ fresh_job now s.queue.next_id id transcode (object end) (pos 0) ∷ [])
      × (filter (λ j. not (is_of id j)) r.0.queue.jobs
          ≡ filter (λ j. not (is_of id j)) s.queue.jobs)
      × (filter (is_row_of id) r.0.rows ≡ [])
      × (status_of id r.0.queue.statuses ≡ some processing)
unfolding reprocess_recording reset_for_reprocess delete_jobs_by_recording
reprocess_recording_lem now id s old e =
    let drops = live-is_of id transcode in
    let fresh = λ (i : ℕ). fresh-is_of now id i transcode in
    let db = marked id s.queue in
    let known = status_of-with_status id processing old s.queue.statuses e in
    rw (e, enqueue-cleared now id transcode (is_of id) db drops fresh processing known)
      (
        refl,
        filter-restarted now id transcode (is_of id) db drops fresh processing known,
        others-restarted now id transcode (is_of id) db drops fresh processing known,
        filter_gone (is_row_of id) s.rows,
        known,
      )

not_both :
    (k : Text) → text_eq k (codes "transcript") ≡ true → text_eq k (codes "diarization") ≡ false
not_both k h =
    subst (λ t. text_eq t (codes "diarization") ≡ false)
      (sym (text_eq_sound k (codes "transcript") h)) refl

transcript-is_dropped_row :
    (id : ℕ) (x : Table × ℕ) → is_transcript_of id x ≡ true → is_dropped_row id x ≡ false
transcript-is_dropped_row id (recording_artifacts k, r) h = ground (arith, not_both k)
transcript-is_dropped_row id (_, r) h = absurd (ground arith)

-- Diarization and the stages that work on what it finds.
abbrev pub runs_again : JobKind → Bool
runs_again diarize = true
runs_again merge = true
runs_again embed = true
runs_again summarize = true
runs_again transcode = false
runs_again transcribe = false
runs_again transcribe_segment = false

abbrev pub is_rerun : ℕ → Job → Bool
is_rerun id j = is_of id j && runs_again j.kind

-- The tables that those stages fill, with the artifact of diarization and no other.
abbrev pub is_refilled : Table → Bool
is_refilled utterances = true
is_refilled chunks = true
is_refilled summaries = true
is_refilled recording_speakers = true
is_refilled (recording_artifacts kind) = text_eq kind (codes "diarization")

abbrev pub is_stale : ℕ → Table × ℕ → Bool
is_stale id (t, r) = (r == id) && is_refilled t

dropped-rerun : (id : ℕ) (j : Job) → is_dropped_job id j ≡ is_rerun id j
dropped-rerun id j = ap (λ b. is_of id j && b) (go j.kind)
  where
    go : (k : JobKind) → any (same_kind k) rerun_kinds ≡ runs_again k
    go diarize = refl
    go merge = refl
    go embed = refl
    go summarize = refl
    go transcode = refl
    go transcribe = refl
    go transcribe_segment = refl

dropped-stale : (id : ℕ) (x : Table × ℕ) → is_dropped_row id x ≡ is_stale id x
dropped-stale id (utterances, r) = refl
dropped-stale id (chunks, r) = refl
dropped-stale id (summaries, r) = refl
dropped-stale id (recording_speakers, r) = refl
dropped-stale id (recording_artifacts kind, r) = refl

-- Rediarizing an existing recording that has a transcript is accepted. Of its jobs that diarize,
-- merge, embed or summarize a fresh diarize is then the only one, and all other jobs are those that
-- were there; its utterances, chunks, summaries, speakers and diarization are gone, all other rows
-- are those that were there, the transcript is among them, and the status is processing.
pub rediarize_recording_lem :
    (now id : ℕ) (s : Store) (old : RecordingStatus)
    → status_of id s.queue.statuses ≡ some old
    → any (is_transcript_of id) s.rows ≡ true
    → let r = rediarize_recording now id s in
      (r.1 ≡ accepted)
      × (filter (is_rerun id) r.0.queue.jobs
          ≡ fresh_job now s.queue.next_id id diarize (object end) (pos 0) ∷ [])
      × (filter (λ j. not (is_rerun id j)) r.0.queue.jobs
          ≡ filter (λ j. not (is_rerun id j)) s.queue.jobs)
      × (filter (is_stale id) r.0.rows ≡ [])
      × (filter (λ x. not (is_stale id x)) r.0.rows ≡ filter (λ x. not (is_stale id x)) s.rows)
      × (any (is_transcript_of id) r.0.rows ≡ true)
      × (status_of id r.0.queue.statuses ≡ some processing)
unfolding rediarize_recording reset_for_rediarize
rediarize_recording_lem now id s old e t =
    let drops = live-is_dropped_job id in
    let fresh = fresh-is_dropped_job now id in
    let db = marked id s.queue in
    let known = status_of-with_status id processing old s.queue.statuses e in
    let p = is_dropped_job id in
    let jobs = (restarted now id diarize p db drops fresh processing known).jobs in
    let same_jobs = filter_same p (is_rerun id) (dropped-rerun id) in
    let other_jobs =
      filter_same (λ j. not (p j)) (λ j. not (is_rerun id j)) (λ j. ap not (dropped-rerun id j)) in
    let other_rows =
      filter_same (λ x. not (is_dropped_row id x)) (λ x. not (is_stale id x))
        (λ x. ap not (dropped-stale id x)) in
    let rows = filter (λ x. not (is_dropped_row id x)) s.rows in
    rw (e, t, enqueue-cleared now id diarize p db drops fresh processing known)
      (
        refl,
        sym (same_jobs jobs) ∙ filter-restarted now id diarize p db drops fresh processing known,
        sym (other_jobs jobs)
            ∙ others-restarted now id diarize p db drops fresh processing known
            ∙ other_jobs s.queue.jobs,
        sym (filter_same (is_dropped_row id) (is_stale id) (dropped-stale id) rows)
            ∙ filter_gone (is_dropped_row id) s.rows,
        sym (other_rows rows)
            ∙ filter_again (λ x. not (is_dropped_row id x)) s.rows
            ∙ other_rows s.rows,
        transcript_kept s.rows t,
        known,
      )
  where
    transcript_kept :
        (xs : List (Table × ℕ))
        → any (is_transcript_of id) xs ≡ true
        → any (is_transcript_of id) (filter (λ x. not (is_dropped_row id x)) xs) ≡ true
    transcript_kept [] h = absurd (ground arith)
    transcript_kept (x ∷ xs) h = ground (arith, transcript-is_dropped_row id x, transcript_kept xs)

-- Completing a recording that is uploading is accepted: its status is then processing, and the
-- queue has a live transcode for it.
pub complete_recording_lem :
    (now id : ℕ) (duration : Option ℤ) (marks : Option (List ℤ)) (s : Store)
    → status_of id s.queue.statuses ≡ some uploading
    → let r = complete_recording now id duration marks s in
      (r.1 ≡ accepted)
      × HasLive id transcode r.0.queue
      × (status_of id r.0.queue.statuses ≡ some processing)
unfolding complete_recording enqueue
complete_recording_lem now id duration marks s e = rw (e, complete_recording) (go duration marks)
  where
    from :
        (t : Store)
        → status_of id t.queue.statuses ≡ some uploading
        → let r = start now id transcode (with_processing id t) in
          (r.1 ≡ accepted)
          × HasLive id transcode r.0.queue
          × (status_of id r.0.queue.statuses ≡ some processing)
    from t h =
        let done = status_of-with_status id processing uploading t.queue.statuses h in
        elim (enqueue-cases now id transcode (object end) (pos 0) (marked id t.queue)) [
          | inl (dead, inr (unknown, q)) ↦ absurd (cc (done, unknown))
          | inl (dead, inl (u, found, q)) ↦
              rw q (refl, any-insert_last _ t.queue.jobs _ (ground arith), done)
          | inr (j, f, q) ↦ rw q (refl, find-any _ t.queue.jobs j f, done)
        ]

    go :
        (duration : Option ℤ) (marks : Option (List ℤ))
        → let r =
            start now id transcode
              (with_processing id (with_marks id marks (with_duration id duration s))) in
          (r.1 ≡ accepted)
          × HasLive id transcode r.0.queue
          × (status_of id r.0.queue.statuses ≡ some processing)
    go none none = from s e
    go none (some m) = from (with_marks id (some m) s) e
    go (some d) none = from (with_duration id (some d) s) e
    go (some d) (some m) = from (with_marks id (some m) (with_duration id (some d) s)) e
