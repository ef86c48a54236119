-- ===== src/Summary/Condense.antt =====
-- `condense`, `take_chars` and the choice of what goes into the prompt. The language model answers a
-- part, given its number and the number of parts, in a round, with a text or an error.
use scribe_local.Common.{
  ℕ, zero, suc, ◌+◌, ◌*◌, ◌/◌, max, true, false, List, [], ◌∷◌, ◌++◌, Option, none, some, ltb, leb,
  if◌then◌else◌, length, take,
}
use scribe_local.Common.Text.{Text, trim}
use scribe_local.Summary.Parts.{newline, split_on_lines}

abbrev pub Chat : Type 0
Chat = ℕ → ℕ → ℕ → Text → Option Text

abbrev pub max_rounds : ℕ
max_rounds = 4

abbrev pub take_chars : Text → ℕ → Text
take_chars s n = take n s

abbrev pub append_note : Option Text → Option Text → Option Text
append_note none rest = none
append_note (some text) none = none
append_note (some text) (some rest) = some (trim text ++ (newline ∷ newline ∷ rest))

module _ (chat : Chat) where
  -- The notes on the parts from the `i`th on; the first error ends the round.
  unfoldable pub notes_from : ℕ → ℕ → ℕ → List Text → Option Text
  notes_from round i total [] = some []
  notes_from round i total (part ∷ parts) =
      append_note (chat round (i + 1) total part) (notes_from round (i + 1) total parts)

  -- The rounds that are left.
  unfoldable pub rounds_from : ℕ → ℕ → Text → ℕ → Option Text
  unfolding notes_from
  rounds_from zero round body budget = some (take_chars body budget)
  rounds_from (suc left) round body budget =
      let parts = split_on_lines body (budget * 2 / 3) in
      elim (notes_from round 0 (length parts) parts) [
        | none ↦ none
        | some notes ↦ elim (leb (length (trim notes)) budget) [
          | true ↦ some (trim notes)
          | false ↦ rounds_from left (suc round) (trim notes) budget
        ]
      ]

  unfoldable pub condense : Text → ℕ → Option Text
  unfolding rounds_from
  condense transcript budget = rounds_from max_rounds 0 transcript budget

  abbrev pub or_opening : Text → ℕ → Option Text → Text
  or_opening transcript budget none = take_chars transcript budget
  or_opening transcript budget (some notes) = notes

  -- The body of the prompt: the transcript, its condensation, or its opening.
  unfoldable pub prompt_body : Text → ℕ → Text
  unfolding condense
  prompt_body transcript max_prompt_chars =
      let budget = max max_prompt_chars 2000 in
      if ltb budget (length transcript)
      then or_opening transcript budget (condense transcript budget)
      else transcript
