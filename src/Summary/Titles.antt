-- ===== src/Summary/Titles.antt =====
-- Titles: `clean_title` and `regenerate` of crates/scribe-pipeline/src/title.rs, and the two calls on
-- titles of crates/scribe-db/src/recordings.rs.
use scribe_local.Common.{
  ℕ, ◌-◌, Bool, true, false, not, ◌&&◌, ◌||◌, List, [], ◌∷◌, ◌++◌, Option, none, some, ltb, leb,
  ◌==◌, if◌then◌else◌, length, take, drop, map, reverse,
}
use scribe_local.Common.Text.{Text, trim}
use scribe_local.Summary.Parts.{newline, lines}
use scribe_local.Summary.Reply.{non_empty}

-- The columns of a recording's row that titles are about.
pub record TitleRow : Type 0 where
  pub id : ℕ
  pub title : Option Text
  pub title_auto : Bool

abbrev pub no_title : Option Text → Bool
no_title none = true
no_title (some []) = true
no_title (some (c ∷ s)) = false

-- The row takes a generated title: its own is generated, or it has none.
abbrev pub takes_title : TitleRow → Bool
takes_title r = r.title_auto || no_title r.title

-- `create_recording`'s columns.
unfoldable pub created : ℕ → Option Text → TitleRow
created id none = record { id = id; title = none; title_auto = true }
created id (some t) = record { id = id; title = some t; title_auto = false }

unfoldable pub set_recording_title_auto : ℕ → Text → List TitleRow → List TitleRow
set_recording_title_auto id title [] = []
set_recording_title_auto id title (r ∷ rs) =
    (if (r.id == id) && takes_title r
      then record r { title = some title; title_auto = true }
      else r)
    ∷ set_recording_title_auto id title rs

abbrev is_quote : ℕ → Bool
is_quote c = (c == b'"') || ((c == b'\'') || (c == b'`'))

unfoldable pub trim_quotes_start : Text → Text
trim_quotes_start [] = []
trim_quotes_start (c ∷ s) = if is_quote c then trim_quotes_start s else c ∷ s

-- `trim_matches` with the quotes.
unfoldable pub trim_quotes : Text → Text
unfolding trim_quotes_start
trim_quotes s = reverse (trim_quotes_start (reverse (trim_quotes_start s)))

unfoldable pub first_non_empty : List Text → Option Text
first_non_empty [] = none
first_non_empty ([] ∷ ls) = first_non_empty ls
first_non_empty ((c ∷ s) ∷ ls) = some (c ∷ s)

abbrev pub capped : Option Text → Option Text
capped none = none
capped (some t) = some (take 120 t)

abbrev pub unquoted : Option Text → Option Text
unquoted none = none
unquoted (some line) = capped (non_empty (trim (trim_quotes line)))

unfoldable pub clean_title : Text → Option Text
unfolding first_non_empty trim_quotes
clean_title raw = unquoted (first_non_empty (map trim (lines raw)))

abbrev pub max_chars : ℕ
max_chars = 6000

abbrev pub starts_char : List ℕ → Bool
starts_char [] = true
starts_char (b ∷ bs) = not (leb 0x80 b && ltb b 0xc0)

-- The text kept for the prompt, as the bytes of its UTF-8; `none` where `split_off` panics, because
-- the cut is inside a character.
unfoldable pub recent : List ℕ → Option (List ℕ)
recent text =
    let tail = drop (length text - max_chars) text in
    if ltb max_chars (length text)
    then (if starts_char tail then some tail else none)
    else some text

-- The utterances' texts, one to a line.
unfoldable pub joined : List Text → Text
joined [] = []
joined (u ∷ us) = trim u ++ (newline ∷ joined us)

abbrev pub update_title : ℕ → Option Text → List TitleRow → List TitleRow
update_title id none rows = rows
update_title id (some t) rows = set_recording_title_auto id t rows

abbrev pub title_from_reply : ℕ → Option Text → List TitleRow → List TitleRow
title_from_reply id none rows = rows
title_from_reply id (some raw) rows = update_title id (clean_title raw) rows

abbrev pub from_recent :
    (List ℕ → Option Text) → ℕ → List TitleRow → Option (List ℕ) → Option (List TitleRow)
from_recent chat id rows none = none
from_recent chat id rows (some text) = some (title_from_reply id (chat text) rows)

-- `regenerate`: `none` is a panic. `as_bytes` is UTF-8, `chat` the language model, which may fail.
unfoldable pub regenerate :
    (Text → List ℕ)
    → (List ℕ → Option Text)
    → ℕ
    → List Text
    → List TitleRow
    → Option (List TitleRow)
unfolding recent joined clean_title set_recording_title_auto
regenerate as_bytes chat id [] rows = some rows
regenerate as_bytes chat id (u ∷ us) rows =
    from_recent chat id rows (recent (as_bytes (joined (u ∷ us))))
