-- ===== src/Worker/Invariant.antt =====
-- `process_job` and the queue's invariant.
use scribe_local.Common.{
  ℕ, ◌*◌, max, Bool, true, false, List, [], ◌∷◌, Option, none, some, Bool-cases, inl, inr,
  if◌then◌else◌, ltb, ◌==◌, ◌&&◌,
}
use scribe_local.Common.Json.{object, end}
use scribe_local.Common.Int.{pos}
use scribe_local.Common.Text.{Text}
use scribe_local.Types.Kind.{JobKind, embed, summarize, transcribe_segment, successors}
use scribe_local.Types.Recording.{RecordingStatus}
use scribe_local.Queue.Table.{status_of, Job, Db, Result, ok, err}
use scribe_local.Queue.Ops.{complete, enqueue, fail, defer, window_closed as window_closed_note}
use scribe_local.Queue.Queries.{predecessors_done, count_done}
use scribe_local.Queue.WellFormed.{IsWellFormed}
use scribe_local.Queue.Steps.{after, after_pair, step, enqueues, completes, fails, defers}
use scribe_local.Queue.Histories.{step-IsWellFormed}
use scribe_local.Worker.Window.{StageOutcome, finished, window_closed, succeeded, erred}
use scribe_local.Worker.World.{
  World, Outcome, returned, threw, M, bind, ◌>>=◌, pure, query, execute, from_query, from_execute,
  set_recording_status, get_recording_status, put_status, found_status,
}
use scribe_local.Worker.Job.{
  WorkerConfig, enqueue_stage, enqueue_ready, enqueue_successors, maybe_mark_ready, drain,
  mark_if_last, drain_if_live, on_success, park_recording, on_failure, end_stage, process_job,
  end_job, is_uploading,
}

-- The action leaves the queue well formed, whether it returns or throws.
abbrev Preserves : {A : Type 0} → M A → Type 0
Preserves m = (w : World) → IsWellFormed w.queue → IsWellFormed (m w).0.queue

Preserves-bind :
    {A B : Type 0} (m : M A) (f : A → M B)
    → Preserves m
    → ((a : A) → Preserves (f a))
    → Preserves (m >>= f)
Preserves-bind {A} {B} m f pm pf w g = go (m w) (pm w g)
  where
    go : (r : World × Outcome A) → IsWellFormed r.0.queue → IsWellFormed (bind r f).0.queue
    go (v, returned a) h = pf a v h
    go (v, threw e) h = h

Preserves-query :
    {A : Type 0} (f : Db → Result (Db × A))
    → ((db : Db) → IsWellFormed db → IsWellFormed (after_pair db (f db)))
    → Preserves (query f)
Preserves-query {A} f h w g = go (f w.queue) (h w.queue g)
  where
    go :
        (r : Result (Db × A))
        → IsWellFormed (after_pair w.queue r)
        → IsWellFormed (from_query w r).0.queue
    go (ok (db, a)) k = k
    go (err e) k = k

Preserves-execute :
    (f : Db → Result Db)
    → ((db : Db) → IsWellFormed db → IsWellFormed (after db (f db)))
    → Preserves (execute f)
Preserves-execute f h w g = go (f w.queue) (h w.queue g)
  where
    go : (r : Result Db) → IsWellFormed (after w.queue r) → IsWellFormed (from_execute w r).0.queue
    go (ok db) k = k
    go (err e) k = k

Preserves-enqueue_stage :
    (now recording : ℕ) (kind : JobKind) → Preserves (enqueue_stage now recording kind)
unfolding enqueue step
Preserves-enqueue_stage now recording kind =
    Preserves-bind (query (enqueue now recording kind (object end))) (λ _. pure tt)
      (Preserves-query (enqueue now recording kind (object end))
        (λ db g. step-IsWellFormed (enqueues now recording kind (object end) (pos 0)) db g))
      (λ _ w g. g)

Preserves-enqueue_ready :
    (now recording : ℕ) (kinds : List JobKind) → Preserves (enqueue_ready now recording kinds)
unfolding enqueue_ready
Preserves-enqueue_ready now recording [] w g = g
Preserves-enqueue_ready now recording (k ∷ ks) w g =
    elim (Bool-cases (predecessors_done recording k w.queue)) [
      | inl is_ready ↦ rw is_ready (
          Preserves-bind (enqueue_stage now recording k) (λ _. enqueue_ready now recording ks)
            (Preserves-enqueue_stage now recording k)
            (λ _. Preserves-enqueue_ready now recording ks) w g)
      | inr waits ↦ rw waits (Preserves-enqueue_ready now recording ks w g)
    ]

Preserves-set_recording_status :
    (recording : ℕ) (s : RecordingStatus) → Preserves (set_recording_status recording s)
unfolding set_recording_status
Preserves-set_recording_status recording s w g = go (status_of recording w.queue.statuses)
  where
    go : (o : Option RecordingStatus) → IsWellFormed (put_status recording s w o).0.queue
    go none = g
    go (some t) = record { unique = g.unique; locks = g.locks; ids = g.ids }

Preserves-pure : Preserves (pure tt)
Preserves-pure w g = g

if-Preserves :
    (b : Bool) (m : M (Unit {0})) (w : World)
    → Preserves m
    → IsWellFormed w.queue
    → IsWellFormed (if b then m w else pure tt w).0.queue
if-Preserves true m w p g = p w g
if-Preserves false m w p g = g

Preserves-maybe_mark_ready : (recording : ℕ) → Preserves (maybe_mark_ready recording)
unfolding maybe_mark_ready
Preserves-maybe_mark_ready recording w g =
    if-Preserves (count_done recording (embed ∷ summarize ∷ []) w.queue == 2)
      (set_recording_status recording RecordingStatus.ready) w
      (Preserves-set_recording_status recording RecordingStatus.ready) g

Preserves-get_recording_status : (recording : ℕ) → Preserves (get_recording_status recording)
unfolding get_recording_status
Preserves-get_recording_status recording w g = go (status_of recording w.queue.statuses)
  where
    go : (o : Option RecordingStatus) → IsWellFormed (found_status w o).0.queue
    go none = g
    go (some t) = g

Preserves-drain : (now recording : ℕ) → Preserves (drain now recording)
unfolding drain
Preserves-drain now recording =
    Preserves-bind (get_recording_status recording)
      (λ status w.
        if is_uploading status && ltb 0 (w.untranscribed recording)
        then enqueue_stage now recording transcribe_segment w
        else pure tt w)
      (Preserves-get_recording_status recording)
      (λ status w g.
        if-Preserves (is_uploading status && ltb 0 (w.untranscribed recording))
          (enqueue_stage now recording transcribe_segment) w
          (Preserves-enqueue_stage now recording transcribe_segment) g)

Preserves-mark_if_last : (kind : JobKind) (recording : ℕ) → Preserves (mark_if_last kind recording)
Preserves-mark_if_last embed recording = Preserves-maybe_mark_ready recording
Preserves-mark_if_last summarize recording = Preserves-maybe_mark_ready recording
Preserves-mark_if_last _ recording = Preserves-pure

Preserves-drain_if_live :
    (kind : JobKind) (now recording : ℕ) → Preserves (drain_if_live kind now recording)
Preserves-drain_if_live transcribe_segment now recording = Preserves-drain now recording
Preserves-drain_if_live _ now recording = Preserves-pure

Preserves-complete : (now i : ℕ) → Preserves (execute (complete now i))
unfolding step
Preserves-complete now i =
    Preserves-execute (complete now i) (λ db g. step-IsWellFormed (completes now i) db g)

Preserves-on_success :
    (now : ℕ) (job : Job) (recording : ℕ) → Preserves (on_success now job recording)
unfolding on_success enqueue_successors
Preserves-on_success now job recording w g =
    let last = λ (_ : Unit {0}). Preserves-drain_if_live job.kind now recording in
    let marked = λ (_ : Unit {0}).
      Preserves-bind (mark_if_last job.kind recording) (λ _. drain_if_live job.kind now recording)
        (Preserves-mark_if_last job.kind recording) last in
    Preserves-bind (execute (complete now job.id)) _ (Preserves-complete now job.id)
      (λ _.
        Preserves-bind (enqueue_ready now recording (successors job.kind)) _
          (Preserves-enqueue_ready now recording (successors job.kind)) marked)
      w g

Preserves-park_recording : (b : Bool) (recording : ℕ) → Preserves (park_recording b recording)
Preserves-park_recording true recording w g = g
Preserves-park_recording false recording w g =
    Preserves-set_recording_status recording RecordingStatus.failed w g

Preserves-on_failure :
    (cfg : WorkerConfig) (now : ℕ) (job : Job) (recording : ℕ) (message : Text)
    → Preserves (on_failure cfg now job recording message)
unfolding on_failure step
Preserves-on_failure cfg now job recording message =
    let backoff = max cfg.poll_secs 1 * 1000000 in
    Preserves-bind (query (fail now job.id message cfg.max_attempts backoff))
      (λ requeued. park_recording requeued recording)
      (Preserves-query (fail now job.id message cfg.max_attempts backoff)
        (λ db g. step-IsWellFormed (fails now job.id message cfg.max_attempts backoff) db g))
      (λ requeued. Preserves-park_recording requeued recording)

Preserves-end_stage :
    (cfg : WorkerConfig) (now : ℕ) (job : Job) (recording : ℕ) (o : StageOutcome)
    → Preserves (end_stage cfg now job recording o)
unfolding step
Preserves-end_stage cfg now job recording (finished succeeded) =
    Preserves-on_success now job recording
Preserves-end_stage cfg now job recording (finished (erred message)) =
    Preserves-on_failure cfg now job recording message
Preserves-end_stage cfg now job recording (window_closed retry_in) =
    Preserves-execute (defer now job.id window_closed_note (retry_in * 1000000))
      (λ db g. step-IsWellFormed (defers now job.id window_closed_note (retry_in * 1000000)) db g)

-- From a well-formed queue the worker leaves the queue well formed, whatever a stage's outcome.
pub process_job-IsWellFormed :
    (cfg : WorkerConfig) (now : ℕ) (job : Job) (o : StageOutcome) (w : World)
    → IsWellFormed w.queue
    → IsWellFormed (process_job cfg now job o w).0.queue
unfolding process_job
process_job-IsWellFormed cfg now job o w g = go job.recording_id
  where
    go : (r : Option ℕ) → IsWellFormed (end_job cfg now job o r w).0.queue
    go none = Preserves-complete now job.id w g
    go (some recording) = Preserves-end_stage cfg now job recording o w g
