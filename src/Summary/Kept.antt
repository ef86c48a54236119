-- ===== src/Summary/Kept.antt =====
-- What the stage, and the titles on the way, keep of the tables.
use scribe_local.Common.{
  ℕ, ◌≡◌, refl, sym, ap, ◌∙◌, Bool, not, ◌&&◌, List, [], ◌∷◌, Option, none, some, filter, find,
  ◌==◌, arith,
}
use scribe_local.Common.Json.{Json}
use scribe_local.Common.Text.{Text, text_eq, text_eq_refl}
use scribe_local.Summary.Condense.{Chat, prompt_body}
use scribe_local.Summary.Template.{resolve, IsTemplateOf, resolve-IsTemplateOf}
use scribe_local.Summary.Titles.{
  TitleRow, takes_title, set_recording_title_auto, update_title, title_from_reply, from_recent,
  regenerate, recent, clean_title, joined,
}
use scribe_local.Summary.Stage.{
  Line, Tables, SummaryRow, upsert_summary, run, parsed_reply, participant_line, speaker_names,
  render_transcript,
}

-- The rows whose title the user gave.
abbrev pub user_titled : List TitleRow → List TitleRow
user_titled = filter (λ r. not (takes_title r))

set_recording_title_auto-keeps :
    (id : ℕ) (t : Text) (rows : List TitleRow)
    → user_titled (set_recording_title_auto id t rows) ≡ user_titled rows
unfolding set_recording_title_auto
set_recording_title_auto-keeps id t [] = refl
set_recording_title_auto-keeps id t (r ∷ rows) =
    ground (arith, set_recording_title_auto-keeps id t rows)

update_title-keeps :
    (id : ℕ) (t : Option Text) (rows : List TitleRow)
    → user_titled (update_title id t rows) ≡ user_titled rows
update_title-keeps id none rows = refl
update_title-keeps id (some t) rows = set_recording_title_auto-keeps id t rows

abbrev pub is_row : ℕ → Text → SummaryRow → Bool
is_row id template r = (r.recording_id == id) && text_eq r.template template

find-upsert_summary :
    (new : SummaryRow) (rows : List SummaryRow)
    → find (is_row new.recording_id new.template) (upsert_summary new rows) ≡ some new
unfolding upsert_summary
find-upsert_summary new [] = ground (arith, text_eq_refl new.template)
find-upsert_summary new (old ∷ rows) =
    ground (arith, text_eq_refl new.template, find-upsert_summary new rows)

filter-upsert_summary :
    (new : SummaryRow) (rows : List SummaryRow)
    → filter (λ r. not (is_row new.recording_id new.template r)) (upsert_summary new rows)
      ≡ filter (λ r. not (is_row new.recording_id new.template r)) rows
unfolding upsert_summary
filter-upsert_summary new [] = ground (arith, text_eq_refl new.template)
filter-upsert_summary new (old ∷ rows) =
    ground (arith, text_eq_refl new.template, filter-upsert_summary new rows)

-- Whatever the language model answers, and whichever of its calls fail, the stage stores a row for
-- the recording and the template that the requested id names, but for case and white space, or the
-- general one where it names none. The row holds what the reply was parsed to or is empty; all other
-- summaries are those that were there, and so is every title that a user gave.
pub run_lem :
    (to_string : Json → Text) (from_str : Text → Option Json) (show : ℕ → Text) (chat : Chat)
    (ask : Text → Text → Text → Option Text) (max_prompt_chars id : ℕ) (template : Text)
    (utterances : List Line) (speakers : List (ℕ × Option Text)) (db : Tables)
    → (tmpl : Text) × IsTemplateOf template tmpl
      × (let names = speaker_names show speakers in
          let after =
            run to_string from_str show chat ask max_prompt_chars id template utterances speakers
              db in
          let body = prompt_body chat (render_transcript show utterances names) max_prompt_chars in
          (find (is_row id tmpl) after.summaries
            ≡ some (record {
              recording_id = id;
              template = tmpl;
              content = parsed_reply to_string from_str (ask tmpl (participant_line names) body);
            }))
          × (filter (λ r. not (is_row id tmpl r)) after.summaries
              ≡ filter (λ r. not (is_row id tmpl r)) db.summaries)
          × (user_titled after.titles ≡ user_titled db.titles))
unfolding run
run_lem to_string from_str show chat ask n id template us speakers db = (
  resolve template,
  resolve-IsTemplateOf template,
  (
    find-upsert_summary _ db.summaries,
    filter-upsert_summary _ db.summaries,
    update_title-keeps id _ db.titles,
  ),
)

title_from_reply-keeps :
    (id : ℕ) (reply : Option Text) (rows : List TitleRow)
    → user_titled (title_from_reply id reply rows) ≡ user_titled rows
title_from_reply-keeps id none rows = refl
title_from_reply-keeps id (some raw) rows = update_title-keeps id (clean_title raw) rows

-- A regenerated title replaces no title that a user gave.
pub regenerate-keeps :
    (as_bytes : Text → List ℕ) (chat : List ℕ → Option Text) (id : ℕ) (us : List Text)
    (rows after : List TitleRow)
    → regenerate as_bytes chat id us rows ≡ some after
    → user_titled after ≡ user_titled rows
unfolding regenerate
regenerate-keeps as_bytes chat id [] rows after h = ap user_titled (some_rows h)
  where
    some_rows : some rows ≡ some after → after ≡ rows
    some_rows e = cc
regenerate-keeps as_bytes chat id (u ∷ us) rows after h = go (recent (as_bytes (joined (u ∷ us)))) h
  where
    go :
        (o : Option (List ℕ))
        → from_recent chat id rows o ≡ some after
        → user_titled after ≡ user_titled rows
    go none e = absurd (cc)
    go (some text) e =
        let same : title_from_reply id (chat text) rows ≡ after = cc in
        ap user_titled (sym same) ∙ title_from_reply-keeps id (chat text) rows
