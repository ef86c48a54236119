-- ===== src/Types/Kind.antt =====
-- `JobKind` and `JobState` of crates/scribe-core/src/types.rs. A static string is its code points.
use scribe_local.Common.{
  ℕ, Bool, true, false, List, [], ◌∷◌, ◌==◌, if◌then◌else◌, Option, none, some,
}
use scribe_local.Common.Text.{Text, codes, text_eq, trim, to_ascii_lowercase}

pub data JobKind : Type 0 where
  transcode diarize transcribe merge embed summarize transcribe_segment : JobKind

pub data JobState : Type 0 where
  queued running done failed : JobState

abbrev pub all_kinds : List JobKind
all_kinds = transcode ∷ diarize ∷ transcribe ∷ merge ∷ embed ∷ summarize ∷ transcribe_segment ∷ []

-- The derived equalities go by the discriminants.
abbrev pub rank : JobKind → ℕ
rank transcode = 0
rank diarize = 1
rank transcribe = 2
rank merge = 3
rank embed = 4
rank summarize = 5
rank transcribe_segment = 6

abbrev pub same_kind : JobKind → JobKind → Bool
same_kind a b = rank a == rank b

abbrev pub state_rank : JobState → ℕ
state_rank queued = 0
state_rank running = 1
state_rank done = 2
state_rank failed = 3

abbrev pub same_state : JobState → JobState → Bool
same_state a b = state_rank a == state_rank b

unfoldable pub kind_as_str : JobKind → Text
kind_as_str transcode = codes "transcode"
kind_as_str diarize = codes "diarize"
kind_as_str transcribe = codes "transcribe"
kind_as_str merge = codes "merge"
kind_as_str embed = codes "embed"
kind_as_str summarize = codes "summarize"
kind_as_str transcribe_segment = codes "transcribe_segment"

unfoldable pub kind_from_lower : Text → Option JobKind
kind_from_lower s =
    if text_eq s (codes "transcode")
    then some transcode
    else if text_eq s (codes "diarize")
    then some diarize
    else if text_eq s (codes "transcribe")
    then some transcribe
    else if text_eq s (codes "merge")
    then some merge
    else if text_eq s (codes "embed")
    then some embed
    else if text_eq s (codes "summarize")
    then some summarize
    else if text_eq s (codes "transcribe_segment")
    then some transcribe_segment
    else none

-- The message of the error names the text and is left out.
unfoldable pub kind_from_str : Text → Option JobKind
unfolding kind_from_lower
kind_from_str s = kind_from_lower (to_ascii_lowercase (trim s))

unfoldable pub state_as_str : JobState → Text
state_as_str queued = codes "queued"
state_as_str running = codes "running"
state_as_str done = codes "done"
state_as_str failed = codes "failed"

unfoldable pub state_from_str : Text → Option JobState
state_from_str s =
    if text_eq s (codes "queued")
    then some queued
    else if text_eq s (codes "running")
    then some running
    else if text_eq s (codes "done")
    then some done
    else if text_eq s (codes "failed")
    then some failed
    else none

unfoldable pub bypasses_schedule : JobKind → Bool
bypasses_schedule transcribe_segment = true
bypasses_schedule _ = false

unfoldable pub predecessors : JobKind → List JobKind
predecessors transcode = []
predecessors diarize = transcode ∷ []
predecessors transcribe = transcode ∷ []
predecessors merge = diarize ∷ transcribe ∷ []
predecessors embed = merge ∷ []
predecessors summarize = merge ∷ []
predecessors transcribe_segment = []

unfoldable pub successors : JobKind → List JobKind
successors transcode = diarize ∷ transcribe ∷ []
successors diarize = merge ∷ []
successors transcribe = merge ∷ []
successors merge = embed ∷ summarize ∷ []
successors embed = []
successors summarize = []
successors transcribe_segment = []
