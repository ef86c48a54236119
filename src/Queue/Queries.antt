-- ===== src/Queue/Queries.antt =====
-- The queries of crates/scribe-db/src/queue.rs that change nothing.
use scribe_local.Common.{
  ℕ, suc, Bool, true, not, ◌&&◌, List, [], ◌∷◌, none, some, ◌==◌, if◌then◌else◌, any, filter,
  length,
}
use scribe_local.Types.Kind.{
  JobKind, JobState, queued, running, done, failed, same_kind, same_state, all_kinds,
  bypasses_schedule, predecessors,
}
use scribe_local.Queue.Table.{Job, Db, same_recording}
use scribe_local.Queue.Ops.{is_of}

pub record QueueBacklog : Type 0 where
  pub queued_jobs : ℕ
  pub running_jobs : ℕ
  pub failed_jobs : ℕ
  pub recordings_waiting : ℕ

abbrev pub is_done_job : ℕ → JobKind → Job → Bool
is_done_job recording kind j =
    same_recording j.recording_id (some recording)
    && same_kind j.kind kind
    && same_state j.state done

-- `count(DISTINCT kind)` of the done jobs of the recording whose kind is among `kinds`.
unfoldable pub count_done : ℕ → List JobKind → Db → ℕ
count_done recording kinds db =
    length
      (filter (λ k. any (same_kind k) kinds && any (is_done_job recording k) db.jobs) all_kinds)

unfoldable pub predecessors_done : ℕ → JobKind → Db → Bool
predecessors_done recording kind db = elim (predecessors kind) [
  | [] ↦ true
  | p ∷ ps ↦ count_done recording (p ∷ ps) db == length (p ∷ ps)
]

-- `ORDER BY id` is the order of insertion.
unfoldable pub list_jobs_by_recording : ℕ → Db → List Job
list_jobs_by_recording recording db = filter (is_of recording) db.jobs

abbrev pub has_state : JobState → Job → Bool
has_state s j = same_state j.state s

-- `count(DISTINCT recording_id)` of the jobs that pass: a recording is counted at its last row.
unfoldable pub count_recordings : (Job → Bool) → List Job → ℕ
count_recordings p [] = 0
count_recordings p (j ∷ js) =
    let rest = count_recordings p js in
    elim j.recording_id [
      | none ↦ rest
      | some r ↦ if p j && not (any (λ k. p k && is_of r k) js) then suc rest else rest
    ]

unfoldable pub backlog : Db → QueueBacklog
unfolding count_recordings
backlog db =
    let gated = filter (λ k. not (bypasses_schedule k)) all_kinds in
    record {
      queued_jobs = length (filter (has_state queued) db.jobs);
      running_jobs = length (filter (has_state running) db.jobs);
      failed_jobs = length (filter (has_state failed) db.jobs);
      recordings_waiting =
          count_recordings (λ j. has_state queued j && any (same_kind j.kind) gated) db.jobs;
    }
