-- ===== src/Types/Dag.antt =====
-- The stage graph: `predecessors` and `successors` of `JobKind`, and the names of the kinds.
use scribe_local.Common.{◌<◌, ◌≡◌, refl, ◌↔◌, true, some, any, arith, All}
use scribe_local.Common.Text.{Text, codes, text_eq_sound, trim, to_ascii_lowercase}
use scribe_local.Types.Kind.{
  JobKind, transcode, diarize, JobState, queued, same_kind, rank, kind_as_str, kind_from_lower,
  kind_from_str, state_as_str, state_from_str, predecessors, successors,
}

-- A kind `b` is among the successors of `a` exactly when `a` is among the predecessors of `b`.
pub successors-predecessors :
    (a b : JobKind)
    → (any (same_kind b) (successors a) ≡ true) ↔ (any (same_kind a) (predecessors b) ≡ true)
unfolding successors predecessors
successors-predecessors a b = ground arith

-- Every predecessor comes before its stage in the order of the declaration, so the graph has no
-- cycle, and the order of the inline driver respects it.
pub predecessors-rank : (k : JobKind) → All (λ p. rank p < rank k) (predecessors k)
unfolding predecessors
predecessors-rank transcode = tt
predecessors-rank diarize = omega arith
predecessors-rank _ = omega arith

kind_from_lower-some : (s : Text) (k : JobKind) → kind_from_lower s ≡ some k → s ≡ kind_as_str k
unfolding kind_from_lower kind_as_str
kind_from_lower-some s k h = ground (
  arith,
  text_eq_sound s (codes "transcode"),
  text_eq_sound s (codes "diarize"),
  text_eq_sound s (codes "transcribe"),
  text_eq_sound s (codes "merge"),
  text_eq_sound s (codes "embed"),
  text_eq_sound s (codes "summarize"),
  text_eq_sound s (codes "transcribe_segment"),
)

kind_from_lower-as_str : (k : JobKind) → kind_from_lower (kind_as_str k) ≡ some k
unfolding kind_from_lower kind_as_str
kind_from_lower-as_str transcode = refl
kind_from_lower-as_str _ = refl

-- Parsing a kind accepts exactly the texts whose trimmed, lower-cased form is the kind's own name.
pub kind_from_str-as_str :
    (s : Text) (k : JobKind)
    → (kind_from_str s ≡ some k) ↔ (to_ascii_lowercase (trim s) ≡ kind_as_str k)
unfolding kind_from_str
kind_from_str-as_str s k = (
  λ h. kind_from_lower-some (to_ascii_lowercase (trim s)) k h,
  λ e. rw e (kind_from_lower-as_str k),
)

-- Parsing a queue state accepts exactly the state's own name.
pub state_from_str-as_str :
    (s : Text) (q : JobState) → (state_from_str s ≡ some q) ↔ (s ≡ state_as_str q)
unfolding state_from_str state_as_str
state_from_str-as_str s q = (parsed, λ e. rw e (back q))
  where
    parsed : state_from_str s ≡ some q → s ≡ state_as_str q
    parsed h = ground (
      arith,
      text_eq_sound s (codes "queued"),
      text_eq_sound s (codes "running"),
      text_eq_sound s (codes "done"),
      text_eq_sound s (codes "failed"),
    )

    back : (r : JobState) → state_from_str (state_as_str r) ≡ some r
    back queued = refl
    back _ = refl
