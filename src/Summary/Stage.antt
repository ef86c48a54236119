-- ===== src/Summary/Stage.antt =====
-- The summarize stage as a whole: the prompt, the reply, and the rows that it writes.
use scribe_local.Common.{
  ℕ, Bool, ◌&&◌, List, [], ◌∷◌, ◌++◌, Option, none, some, leb, ◌==◌, if◌then◌else◌,
}
use scribe_local.Common.Json.{Json, array, nil}
use scribe_local.Common.Text.{Text, codes, text_eq, trim}
use scribe_local.Summary.Parts.{newline}
use scribe_local.Summary.Condense.{Chat, prompt_body}
use scribe_local.Summary.Reply.{ParsedSummary, parse_summary}
use scribe_local.Summary.Template.{resolve}
use scribe_local.Summary.Titles.{TitleRow, update_title}

-- What the stage reads of an utterance.
pub record Line : Type 0 where
  pub local_idx : Option ℕ
  pub text : Text

abbrev pub Names : Type 0
Names = List (ℕ × Text)

abbrev pub name_of : ℕ → Names → Option Text
name_of i [] = none
name_of i ((j, n) ∷ ns) = if j == i then some n else name_of i ns

-- The decimal digits of a number, which `format!` writes.
module _ (show : ℕ → Text) where
  abbrev pub speaker_n : ℕ → Text
  speaker_n i = codes "Speaker " ++ show i

  abbrev pub name_or : ℕ → Option Text → Text
  name_or i none = speaker_n i
  name_or i (some n) = n

  -- `speaker_names`, from the rows of the recording's speakers.
  unfoldable pub speaker_names : List (ℕ × Option Text) → Names
  speaker_names [] = []
  speaker_names ((i, display_name) ∷ rows) = (i, name_or i display_name) ∷ speaker_names rows

  abbrev pub label : Names → Option ℕ → Text
  label names none = codes "Speaker"
  label names (some i) = name_or i (name_of i names)

  unfoldable pub render_transcript : List Line → Names → Text
  render_transcript [] names = []
  render_transcript (u ∷ us) names =
      label names u.local_idx
      ++ (codes ": " ++ (trim u.text ++ (newline ∷ render_transcript us names)))

unfoldable pub insert_name : ℕ × Text → Names → Names
insert_name p [] = p ∷ []
insert_name p (q ∷ qs) = let rest = insert_name p qs in if leb p.0 q.0 then p ∷ q ∷ qs else q ∷ rest

-- `sort_by_key` by the index.
unfoldable pub sort_names : Names → Names
unfolding insert_name
sort_names [] = []
sort_names (p ∷ ps) = insert_name p (sort_names ps)

unfoldable pub join_names : Names → Text
join_names [] = []
join_names ((i, n) ∷ []) = n
join_names ((i, n) ∷ p ∷ ps) = n ++ (codes ", " ++ join_names (p ∷ ps))

unfoldable pub participant_line : Names → Text
unfolding sort_names join_names
participant_line [] = []
participant_line (p ∷ ps) =
    codes "The people speaking are: "
    ++ (join_names (sort_names (p ∷ ps))
        ++ (codes
              ". Attribute decisions and action items to them by name where the transcript supports it."
            ++ (newline ∷ newline ∷ [])))

-- The row of `summaries`, one to a recording and template.
pub record SummaryRow : Type 0 where
  pub recording_id : ℕ
  pub template : Text
  pub content : ParsedSummary

abbrev pub same_row : SummaryRow → SummaryRow → Bool
same_row a b = (a.recording_id == b.recording_id) && text_eq a.template b.template

-- `upsert_summary`: the row of the recording and template is replaced, or one is added.
unfoldable pub upsert_summary : SummaryRow → List SummaryRow → List SummaryRow
upsert_summary new [] = new ∷ []
upsert_summary new (old ∷ rows) =
    let rest = upsert_summary new rows in if same_row old new then new ∷ rows else old ∷ rest

pub record Tables : Type 0 where
  pub summaries : List SummaryRow
  pub titles : List TitleRow

abbrev pub empty_summary : ParsedSummary
empty_summary = record {
  title = none;
  summary = none;
  action_items = array nil;
  decisions = array nil;
  topics = array nil;
}

abbrev pub parsed_reply : (Json → Text) → (Text → Option Json) → Option Text → ParsedSummary
parsed_reply to_string from_str none = empty_summary
parsed_reply to_string from_str (some raw) = parse_summary to_string from_str raw

-- The stage, over the utterances and the speakers of the recording. `ask` is the final call of the
-- model, on the template's id, for its instructions, the roster and the body of the prompt, `chat`
-- the calls that condense the transcript.
unfoldable pub run :
    (Json → Text)
    → (Text → Option Json)
    → (ℕ → Text)
    → Chat
    → (Text → Text → Text → Option Text)
    → ℕ
    → ℕ
    → Text
    → List Line
    → List (ℕ × Option Text)
    → Tables
    → Tables
unfolding render_transcript speaker_names participant_line upsert_summary prompt_body parse_summary
    resolve
run to_string from_str show chat ask max_prompt_chars recording_id template utterances speakers db =
    let tmpl = resolve template in
    let names = speaker_names show speakers in
    let body = prompt_body chat (render_transcript show utterances names) max_prompt_chars in
    let parsed = parsed_reply to_string from_str (ask tmpl (participant_line names) body) in
    record {
      summaries =
          upsert_summary (record { recording_id = recording_id; template = tmpl; content = parsed })
            db.summaries;
      titles = update_title recording_id parsed.title db.titles;
    }
