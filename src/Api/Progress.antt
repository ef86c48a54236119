-- ===== src/Api/Progress.antt =====
-- `build_progress` of crates/scribe-api/src/handlers/recordings.rs.
use scribe_local.Common.{
  ℕ, Bool, List, [], ◌∷◌, Option, none, some, if◌then◌else◌, map, filter, find, length,
}
use scribe_local.Common.Text.{Text, codes, text_eq}
use scribe_local.Types.Kind.{
  JobKind, transcode, diarize, transcribe, merge, embed, summarize, queued, running, done, failed,
  same_kind, state_as_str,
}
use scribe_local.Queue.Table.{Job}

abbrev pub pipeline_stages : List JobKind
pipeline_stages = transcode ∷ diarize ∷ transcribe ∷ merge ∷ embed ∷ summarize ∷ []

pub record StageProgress : Type 0 where
  pub kind : JobKind
  pub state : Text
  pub started_at : Option ℕ
  pub finished_at : Option ℕ
  pub attempts : ℕ
  pub error : Option Text

pub record PipelineProgress : Type 0 where
  pub stages : List StageProgress
  pub current : Option JobKind
  pub completed : ℕ
  pub total : ℕ

abbrev pub finished_at : Job → Option ℕ
finished_at j = elim j.state [
  | done ↦ some j.updated_at
  | failed ↦ some j.updated_at
  | queued ↦ none
  | running ↦ none
]

unfoldable pub stage_progress : JobKind → Option Job → StageProgress
stage_progress kind (some job) = record {
  kind = kind;
  state = state_as_str job.state;
  started_at = job.locked_at;
  finished_at = finished_at job;
  attempts = job.attempts;
  error = job.error;
}
stage_progress kind none = record {
  kind = kind;
  state = codes "pending";
  started_at = none;
  finished_at = none;
  attempts = 0;
  error = none;
}

-- `filter(…).next_back()`: the last job of the kind.
unfoldable pub last_job : JobKind → List Job → Option Job
last_job kind [] = none
last_job kind (j ∷ js) = elim (last_job kind js) [
  | some k ↦ some k
  | none ↦ if same_kind j.kind kind then some j else none
]

abbrev pub has_state : Text → StageProgress → Bool
has_state s p = text_eq p.state s

abbrev pub kind_of : Option StageProgress → Option JobKind
kind_of none = none
kind_of (some p) = some p.kind

unfoldable pub build_progress : List Job → PipelineProgress
unfolding stage_progress last_job
build_progress jobs =
    let stages = map (λ kind. stage_progress kind (last_job kind jobs)) pipeline_stages in
    record {
      stages = stages;
      current = kind_of (find (has_state (codes "running")) stages);
      completed = length (filter (has_state (codes "done")) stages);
      total = length pipeline_stages;
    }
