-- ===== src/Examples/SummaryRuns.antt =====
-- Runs of the summarize stage and of the index, with answers that are fixed.
use scribe_local.Common.{
  ℕ, max, ◌≤◌, ◌≡◌, refl, not, List, [], ◌∷◌, ◌++◌, Option, none, some, length, find, filter, ◌⊎◌,
  Any, All, ltb→lt, replicate, false,
}
use scribe_local.Common.Text.{Text, codes, trim, to_ascii_lowercase}
use scribe_local.Summary.Parts.{lines, split_on_lines}
use scribe_local.Summary.Chunks.{unlines, concat, Fits, split_on_lines-cases}
use scribe_local.Summary.Condense.{Chat, prompt_body}
use scribe_local.Summary.Budget.{prompt_body-le}
use scribe_local.Summary.Template.{resolve, IsTemplateOf}
use scribe_local.Summary.Titles.{TitleRow}
use scribe_local.Summary.Stage.{Line, Tables, parsed_reply, render_transcript, speaker_names, run}
use scribe_local.Summary.Kept.{is_row, user_titled, run_lem}
use scribe_local.Index.Windows
use scribe_local.Index.Windows.{
  Word, Utterance, PendingChunk, ChunkRow, window_utterance, build_chunks, ok,
}
use scribe_local.Index.Coverage.{Covers, IsWithin, window_utterance-Covers}
use scribe_local.Index.Rows.{IsIndexed, run-IsIndexed}

abbrev two_lines : Text
two_lines = codes "one" ++ 10 ∷ codes "two"

split_on_lines-cases_example :
    ((trim (unlines (lines two_lines)) ≡ []) × (split_on_lines two_lines 5 ≡ two_lines ∷ []))
    ⊎ ((tail : Text) × (trim tail ≡ [])
        × (concat (split_on_lines two_lines 5) ++ tail ≡ unlines (lines two_lines))
        × All (Fits 5 (lines two_lines)) (split_on_lines two_lines 5))
split_on_lines-cases_example = split_on_lines-cases two_lines 5

abbrev brief : Chat
brief round part total text = some (codes "notes")

prompt_body-le_example : length (prompt_body brief (replicate 2400 b'a') 100) ≤ max 100 2000
prompt_body-le_example = prompt_body-le brief (replicate 2400 b'a') 100

abbrev user_row : TitleRow
user_row = record { id = 7; title = some (codes "Standup"); title_auto = false }

abbrev said : Line
said = record { local_idx = some 0; text = codes "hello" }

abbrev toy_tables : Tables
toy_tables = record { summaries = []; titles = user_row ∷ [] }

abbrev one_speaker : List (ℕ × Option Text)
one_speaker = (0, some (codes "Ann")) ∷ []

run_lem_example :
    (tmpl : Text) × IsTemplateOf (codes " Sales ") tmpl
    × (let names = speaker_names (λ _. []) one_speaker in
        let after =
          run
            (λ _. [])
            (λ _. none)
            (λ _. [])
            brief
            (λ _ _ _. none)
            100
            7
            (codes " Sales ")
            (said ∷ [])
            one_speaker
            toy_tables in
        let body = prompt_body brief (render_transcript (λ _. []) (said ∷ []) names) 100 in
        (find (is_row 7 tmpl) after.summaries
          ≡ some (record {
            recording_id = 7;
            template = tmpl;
            content = parsed_reply (λ _. []) (λ _. none) none;
          }))
        × (filter (λ r. not (is_row 7 tmpl r)) after.summaries
            ≡ filter (λ r. not (is_row 7 tmpl r)) toy_tables.summaries)
        × (user_titled after.titles ≡ user_titled toy_tables.titles))
run_lem_example =
    run_lem (λ _. []) (λ _. none) (λ _. []) brief (λ _ _ _. none) 100 7 (codes " Sales ")
      (said ∷ []) one_speaker toy_tables

-- An unknown template is the general one.
unknown_template : resolve (codes "brainstorm") ≡ codes "general"
unfolding resolve trim to_ascii_lowercase
unknown_template = refl

abbrev late_word : Word
late_word = record { text = codes "late"; start_ms = 50000; end_ms = 51000 }

abbrev long_utterance : Utterance
long_utterance = record {
  start_ms = 0;
  end_ms = 60000;
  local_idx = none;
  text = codes "late";
  words = late_word ∷ [];
}

window_utterance-Covers_example :
    (out : List PendingChunk) × (window_utterance long_utterance ≡ some out)
    × ((w : Word)
        → Any (λ x. x ≡ w) (late_word ∷ [])
        → IsWithin long_utterance 0 w
        → Covers long_utterance w out)
window_utterance-Covers_example = window_utterance-Covers long_utterance (ltb→lt 0 60000 refl)

run-IsIndexed_example :
    (cs : List PendingChunk) × (build_chunks (long_utterance ∷ []) ≡ some cs)
    × ((o : Windows.Result (List (ChunkRow Text))) × (Windows.run
            (λ ts. some ts)
            7
            (long_utterance ∷ [])
            []
          ≡ some o)
        × ((after : List (ChunkRow Text)) → o ≡ ok after → IsIndexed 7 cs [] after))
run-IsIndexed_example = run-IsIndexed (λ ts. some ts) 7 (long_utterance ∷ []) []
