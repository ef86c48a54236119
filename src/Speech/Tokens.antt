-- ===== src/Speech/Tokens.antt =====
-- `build_words` and `spread_evenly` of crates/scribe-asr/src/real/asr.rs: words from the tokens of the
-- recognizer. The confidence of a word, always 1.0 here, is left out, and so is the tracing.
use scribe_local.Common.{
  ℕ, suc, ◌+◌, ◌-◌, ◌*◌, ◌/◌, max, Bool, true, false, ◌&&◌, ◌||◌, not, List, [], ◌∷◌, ◌++◌, Option,
  none, some, ltb, leb, ◌==◌, if◌then◌else◌, length,
}
use scribe_local.Common.Text.{Text, trim, trim_start, is_whitespace}

pub record AsrWord : Type 0 where
  pub text : Text
  pub start_ms : ℕ
  pub end_ms : ℕ

abbrev push_part : Text → List Text → List Text
push_part [] parts = parts
push_part (c ∷ s) parts = (c ∷ s) ∷ parts

-- `split_whitespace`: the first part, which may be empty, and the parts after it.
unfoldable pub split_parts : Text → Text × List Text
split_parts [] = ([], [])
split_parts (c ∷ s) =
    let rest = split_parts s in
    if is_whitespace c then ([], push_part rest.0 rest.1) else (c ∷ rest.0, rest.1)

unfoldable pub split_whitespace : Text → List Text
unfolding split_parts
split_whitespace s = push_part (split_parts s).0 (split_parts s).1

-- The words from the `i`th on, each `step` long; the last one ends at `clip_ms`.
unfoldable pub spread_from : ℕ → ℕ → ℕ → List Text → List AsrWord
spread_from clip_ms step i [] = []
spread_from clip_ms step i (w ∷ []) =
    record { text = w; start_ms = step * i; end_ms = max clip_ms (step * i) } ∷ []
spread_from clip_ms step i (w ∷ v ∷ ws) =
    record { text = w; start_ms = step * i; end_ms = step * i + step }
    ∷ spread_from clip_ms step (suc i) (v ∷ ws)

unfoldable pub spread_evenly : Text → ℕ → List AsrWord
unfolding spread_from split_whitespace
spread_evenly text clip_ms =
    let parts = split_whitespace text in
    let step = if ltb 0 (length parts) then clip_ms / length parts else 0 in
    spread_from clip_ms step 0 parts

-- The word that is open in the loop, and the words before it, last first.
pub record Grouping : Type 0 where
  pub words : List AsrWord
  pub cur_text : Text
  pub cur_start : Option ℕ
  pub cur_end : ℕ

abbrev pub or_zero : Option ℕ → ℕ
or_zero none = 0
or_zero (some n) = n

abbrev pub flushed : Text → Grouping → List AsrWord
flushed [] g = g.words
flushed (c ∷ s) g =
    g.words
    ++ record {
      text = c ∷ s;
      start_ms = or_zero g.cur_start;
      end_ms = max g.cur_end (or_zero g.cur_start);
    }
      ∷ []

unfoldable pub flush : Grouping → Grouping
flush g = record g { words = flushed (trim g.cur_text) g; cur_text = []; cur_start = none }

-- U+2581, with which sub-word models mark the start of a word.
abbrev pub word_mark : ℕ
word_mark = 0x2581

abbrev pub starts_word : Text → Bool
starts_word [] = false
starts_word (c ∷ s) = (c == word_mark) || (c == b' ')

unfoldable pub trim_marks : Text → Text
trim_marks [] = []
trim_marks (c ∷ s) = if c == word_mark then trim_marks s else c ∷ s

abbrev pub is_open : Option ℕ → Bool
is_open none = false
is_open (some n) = true

abbrev pub open_at : ℕ → Option ℕ → Option ℕ
open_at start none = some start
open_at start (some s) = some s

unfoldable pub add_token : Text → ℕ → ℕ → Grouping → Grouping
unfolding flush trim_marks
add_token tok start_ms dur_ms g =
    let g' = if starts_word tok && is_open g.cur_start then flush g else g in
    record g' {
      cur_text = g'.cur_text ++ trim_start (trim_marks tok);
      cur_start = open_at start_ms g'.cur_start;
      cur_end = max (start_ms + dur_ms) g'.cur_end;
    }

-- What the recognizer returns. Times are seconds.
pub record RawResult (F : Type 0) : Type 0 where
  pub text : Text
  pub tokens : List Text
  pub timestamps : Option (List F)
  pub durations : Option (List F)

module _ {F : Type 0} (sec_to_ms : F → ℕ) where
  abbrev pub next_duration : List F → ℕ × List F
  next_duration [] = (0, [])
  next_duration (d ∷ ds) = (sec_to_ms d, ds)

  -- The loop over the tokens, with as many timestamps; where there is no duration it is 0.
  unfoldable pub add_tokens : List Text → List F → List F → Grouping → Grouping
  unfolding add_token
  add_tokens (tok ∷ tokens) (t ∷ ts) ds g =
      let d = next_duration ds in add_tokens tokens ts d.1 (add_token tok (sec_to_ms t) d.0 g)
  add_tokens _ _ ds g = g

  abbrev pub empty_grouping : Grouping
  empty_grouping = record { words = []; cur_text = []; cur_start = none; cur_end = 0 }

  abbrev pub or_no_durations : Option (List F) → List F
  or_no_durations none = []
  or_no_durations (some ds) = ds

  abbrev pub span_of : List AsrWord → ℕ × ℕ
  span_of [] = (0, 0)
  span_of (w ∷ ws) = (w.start_ms, max w.end_ms w.start_ms)

  -- The words of the text, each `step` long, from `start`.
  unfoldable pub spread_span : ℕ → ℕ → ℕ → List Text → List AsrWord
  spread_span start step i [] = []
  spread_span start step i (w ∷ ws) =
      record { text = w; start_ms = start + step * i; end_ms = start + step * i + step }
      ∷ spread_span start step (suc i) ws

  -- A single word for a text of several is split on its white space.
  unfoldable pub unblob : Text → List AsrWord → List AsrWord
  unfolding spread_span split_whitespace
  unblob text words =
      let parts = split_whitespace text in
      let span = span_of words in
      if leb (length words) 1 && ltb 1 (length parts)
      then spread_span span.0 ((span.1 - span.0) / max (length parts) 1) 0 parts
      else words

  abbrev pub build_timed : RawResult F → ℕ → Option (List F) → List AsrWord
  build_timed r clip_ms none = spread_evenly r.text clip_ms
  build_timed r clip_ms (some ts) =
      if (length r.tokens == 0) || not (length r.tokens == length ts)
      then spread_evenly r.text clip_ms
      else unblob r.text
          (flush (add_tokens r.tokens ts (or_no_durations r.durations) empty_grouping)).words

  unfoldable pub build_words : RawResult F → ℕ → List AsrWord
  unfolding spread_evenly add_tokens flush unblob
  build_words r clip_ms = build_timed r clip_ms r.timestamps
