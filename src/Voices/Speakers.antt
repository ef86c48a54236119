-- ===== src/Voices/Speakers.antt =====
-- The rows of `recording_speakers`, with crates/scribe-db/src/recording_speakers.rs, and the diarize
-- stage that writes them. `E` is an embedding, `T` a turn's times; the diarizer's result is an argument.
use scribe_local.Common.{
  ℕ, Bool, false, not, ◌&&◌, List, [], ◌∷◌, Option, none, some, ltb, ◌==◌, if◌then◌else◌, any, find,
  filter,
}

abbrev pub mem : ℕ → List ℕ → Bool
mem i = any (λ j. j == i)

pub record SpeakerRow (E : Type 0) : Type 0 where
  pub recording_id : ℕ
  pub local_idx : ℕ
  pub speaker_id : Option ℕ
  pub embedding : Option E

module _ {E : Type 0} where
  abbrev pub is_at : ℕ → ℕ → SpeakerRow E → Bool
  is_at r i row = (row.recording_id == r) && (row.local_idx == i)

  -- The row of a voice.
  abbrev pub row_at : ℕ → ℕ → List (SpeakerRow E) → Option (SpeakerRow E)
  row_at r i = find (is_at r i)

  unfoldable pub upsert_recording_speaker : SpeakerRow E → List (SpeakerRow E) → List (SpeakerRow E)
  upsert_recording_speaker new [] = new ∷ []
  upsert_recording_speaker new (old ∷ rows) =
      let rest = upsert_recording_speaker new rows in
      if is_at new.recording_id new.local_idx old then new ∷ rows else old ∷ rest

  unfoldable pub prune_recording_speakers : ℕ → List ℕ → List (SpeakerRow E) → List (SpeakerRow E)
  prune_recording_speakers r keep =
      filter (λ row. not ((row.recording_id == r) && not (mem row.local_idx keep)))

  abbrev set_speaker : Option ℕ → SpeakerRow E → SpeakerRow E
  set_speaker s row = record row { speaker_id = s }

  -- `set_recording_speaker`; `none` is the error `NotFound`.
  abbrev push_row : SpeakerRow E → Option (List (SpeakerRow E)) → Option (List (SpeakerRow E))
  push_row row none = none
  push_row row (some rows) = some (row ∷ rows)

  unfoldable pub set_recording_speaker :
      ℕ → ℕ → Option ℕ → List (SpeakerRow E) → Option (List (SpeakerRow E))
  set_recording_speaker r i s [] = none
  set_recording_speaker r i s (row ∷ rows) =
      let rest = set_recording_speaker r i s rows in
      if is_at r i row then some (set_speaker s row ∷ rows) else push_row row rest

-- An utterance's recording and speaker, which decide whether it goes with a deleted speaker.
pub record SpokenRow : Type 0 where
  pub recording_id : ℕ
  pub local_idx : Option ℕ

abbrev pub is_of : Option ℕ → ℕ → Bool
is_of none i = false
is_of (some j) i = j == i

abbrev pub is_spoken_by : ℕ → ℕ → SpokenRow → Bool
is_spoken_by r i u = (u.recording_id == r) && is_of u.local_idx i

module _ {E : Type 0} where
  -- `delete_recording_speaker`: `none` is the error `NotFound`, which rolls the transaction back.
  unfoldable pub delete_recording_speaker :
      ℕ → ℕ → List SpokenRow × List (SpeakerRow E) → Option (List SpokenRow × List (SpeakerRow E))
  delete_recording_speaker r i (utterances, rows) =
      if any (is_at r i) rows
      then some (
        filter (λ u. not (is_spoken_by r i u)) utterances,
        filter (λ row. not (is_at r i row)) rows,
      )
      else none

pub record Turn : Type 0 where
  pub local_idx : ℕ
  pub start_ms : ℕ
  pub end_ms : ℕ

-- A `BTreeSet`: in order, each index once.
unfoldable pub insert_index : ℕ → List ℕ → List ℕ
insert_index i [] = i ∷ []
insert_index i (j ∷ js) =
    let rest = insert_index i js in
    if ltb i j then i ∷ j ∷ js else if i == j then j ∷ js else j ∷ rest

unfoldable pub speakers_of : List Turn → List ℕ
unfolding insert_index
speakers_of [] = []
speakers_of (t ∷ ts) = insert_index t.local_idx (speakers_of ts)

module _ {E : Type 0} where
  -- The embedding that the diarizer gave for a voice.
  abbrev pub embedding_of : ℕ → List (ℕ × E) → Option E
  embedding_of i [] = none
  embedding_of i ((j, e) ∷ more) = if j == i then some e else embedding_of i more

  abbrev push_voice : ℕ → Option E → List (ℕ × E) → List (ℕ × E)
  push_voice i none voices = voices
  push_voice i (some e) voices = (i, e) ∷ voices

  unfoldable pub voices_of : List ℕ → List (ℕ × E) → List (ℕ × E)
  voices_of [] embeddings = []
  voices_of (i ∷ is) embeddings = push_voice i (embedding_of i embeddings) (voices_of is embeddings)

  -- `identities` gives each voice its speaker, if one was recognised.
  abbrev pub row_of : ℕ → (ℕ → Option ℕ) → List (ℕ × E) → ℕ → SpeakerRow E
  row_of r identities embeddings i = record {
    recording_id = r;
    local_idx = i;
    speaker_id = identities i;
    embedding = embedding_of i embeddings;
  }

  unfoldable pub upsert_all :
      ℕ → (ℕ → Option ℕ) → List (ℕ × E) → List ℕ → List (SpeakerRow E) → List (SpeakerRow E)
  unfolding upsert_recording_speaker
  upsert_all r identities embeddings [] rows = rows
  upsert_all r identities embeddings (i ∷ is) rows =
      upsert_all r identities embeddings is
        (upsert_recording_speaker (row_of r identities embeddings i) rows)

  -- `run`, from the diarizer's turns and embeddings on: the rows of the speakers, and the turns that
  -- are handed to the merge stage. `resolve` is `resolve_identities` with the enrolled voiceprints.
  unfoldable pub run :
      (List (ℕ × E) → ℕ → Option ℕ)
      → ℕ
      → List Turn
      → List (ℕ × E)
      → List (SpeakerRow E)
      → List (SpeakerRow E) × List Turn
  unfolding speakers_of voices_of upsert_all prune_recording_speakers
  run resolve r turns embeddings rows =
      let speakers = speakers_of turns in
      let identities = resolve (voices_of speakers embeddings) in
      (
        prune_recording_speakers r speakers (upsert_all r identities embeddings speakers rows),
        turns,
      )
