-- ===== src/Examples/TranscriptRuns.antt =====
-- Runs of the merge stage.
use scribe_local.Common.{ℕ, ◌≡◌, List, [], ◌∷◌, some, All, arith, ◌⊎◌}
use scribe_local.Common.Text.{codes}
use scribe_local.Transcript.Words.{Word, TurnArtifact, overlap_with, speaker_of}
use scribe_local.Transcript.Speakers.{IsLoudest, IsNearest, speaker_of-IsLoudest}
use scribe_local.Transcript.Utterances.{GroupedUtterance, group_into_utterances, begin}
use scribe_local.Transcript.Grouping.{
  IsUtterance, words_of, group_into_utterances-IsUtterance, words_of-group_into_utterances,
}

abbrev word : ℕ → ℕ → ℕ → Word
word start end speaker = record {
  text = codes "Yes.";
  start_ms = start;
  end_ms = end;
  local_idx = some speaker;
}

abbrev first_turn : TurnArtifact
first_turn = record { local_idx = 0; start_ms = 0; end_ms = 300 }

abbrev second_turn : TurnArtifact
second_turn = record { local_idx = 1; start_ms = 250; end_ms = 900 }

speaker_of-IsLoudest_example :
    (s : ℕ) × (speaker_of (word 200 500 0) (first_turn ∷ second_turn ∷ []) ≡ some s)
    × (IsLoudest (word 200 500 0) (first_turn ∷ second_turn ∷ []) s
        ⊎ (All (λ u. overlap_with (word 200 500 0) u ≡ 0) (first_turn ∷ second_turn ∷ [])
            × IsNearest (word 200 500 0) (first_turn ∷ second_turn ∷ []) s))
speaker_of-IsLoudest_example =
    speaker_of-IsLoudest (word 200 500 0) first_turn (second_turn ∷ []) (ground arith)

abbrev talk : List Word
talk = word 0 300 0 ∷ word 350 700 0 ∷ word 800 900 1 ∷ []

group_into_utterances-IsUtterance_example : All IsUtterance (group_into_utterances talk)
group_into_utterances-IsUtterance_example = group_into_utterances-IsUtterance talk

words_of-group_into_utterances_example : words_of (group_into_utterances talk) ≡ talk
words_of-group_into_utterances_example = words_of-group_into_utterances talk

abbrev lines : List GroupedUtterance
lines = begin (word 0 300 0) ∷ begin (word 350 700 1) ∷ []
