-- ===== src/Transcript/Utterances.antt =====
-- `ends_sentence` and `group_into_utterances`.
use scribe_local.Common.{
  ℕ, ◌+◌, max, Bool, false, not, ◌&&◌, ◌||◌, List, [], ◌∷◌, ◌++◌, Option, none, some, ltb, leb,
  ◌==◌, if◌then◌else◌,
}
use scribe_local.Common.Text.{Text, trim_end}
use scribe_local.Transcript.Words.{Word, same_speaker}

abbrev pub gap_break_ms : ℕ
gap_break_ms = 1500

abbrev pub max_utterance_ms : ℕ
max_utterance_ms = 30000

abbrev pub sentence_break_after_ms : ℕ
sentence_break_after_ms = 12000

abbrev pub last {ℓ} : {A : Type ℓ} → List A → Option A
last [] = none
last (x ∷ []) = some x
last (x ∷ y ∷ ys) = last (y ∷ ys)

abbrev pub is_stop : Option ℕ → Bool
is_stop none = false
is_stop (some c) = (c == b'.') || (c == b'?') || (c == b'!')

unfoldable pub ends_sentence : Text → Bool
ends_sentence text = is_stop (last (trim_end text))

pub record GroupedUtterance : Type 0 where
  pub local_idx : Option ℕ
  pub start_ms : ℕ
  pub end_ms : ℕ
  pub text : Text
  pub words : List Word

abbrev pub last_ends_sentence : Option Word → Bool
last_ends_sentence none = false
last_ends_sentence (some w) = ends_sentence w.text

-- Differences of times are compared by addition.
abbrev pub long_enough : GroupedUtterance → Word → Bool
long_enough c w =
    ltb (c.start_ms + max_utterance_ms) w.end_ms
    || (ltb (c.start_ms + sentence_break_after_ms) w.end_ms && last_ends_sentence (last c.words))

abbrev pub continues : GroupedUtterance → ℕ → Word → Bool
continues c prev_end w =
    same_speaker c.local_idx w.local_idx
    && leb w.start_ms (prev_end + gap_break_ms)
    && not (long_enough c w)

abbrev pub begin : Word → GroupedUtterance
begin w = record {
  local_idx = w.local_idx;
  start_ms = w.start_ms;
  end_ms = w.end_ms;
  text = w.text;
  words = w ∷ [];
}

abbrev pub push_text : Text → Text → Text
push_text [] t = t
push_text (c ∷ s) t = (c ∷ s) ++ b' ' ∷ t

abbrev pub extend : GroupedUtterance → Word → GroupedUtterance
extend c w = record c {
  end_ms = max c.end_ms w.end_ms;
  text = push_text c.text w.text;
  words = c.words ++ w ∷ [];
}

-- The loop with the open utterance `c`; what it pushes to `out` comes first.
unfoldable pub group_from : GroupedUtterance → ℕ → List Word → List GroupedUtterance
group_from c prev_end [] = c ∷ []
group_from c prev_end (w ∷ ws) =
    let more = group_from (if continues c prev_end w then extend c w else begin w) w.end_ms ws in
    if continues c prev_end w then more else c ∷ more

unfoldable pub group_into_utterances : List Word → List GroupedUtterance
unfolding group_from
group_into_utterances [] = []
group_into_utterances (w ∷ ws) = group_from (begin w) w.end_ms ws
