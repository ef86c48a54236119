-- ===== src/Voices/Rows.antt =====
-- The rows of a recording's speakers after the diarize stage.
use scribe_local.Common.{
  ℕ, ◌≡◌, refl, ap, ◌∙◌, Bool, true, false, not, ◌&&◌, ◌||◌, List, [], ◌∷◌, Option, none, some,
  ◌==◌, if◌then◌else◌, any, Bool-cases, inl, inr, ◌⊎◌, ==_iff, arith,
}
use scribe_local.Voices.Speakers.{
  SpeakerRow, Turn, mem, is_at, row_at, upsert_recording_speaker, prune_recording_speakers,
  insert_index, speakers_of, upsert_all, row_of, voices_of, run,
}

mem-insert_index : (i j : ℕ) (js : List ℕ) → mem i (insert_index j js) ≡ ((j == i) || mem i js)
unfolding insert_index
mem-insert_index i j [] = refl
mem-insert_index i j (k ∷ js) = ground (arith, mem-insert_index i j js)

mem-speakers_of : (i : ℕ) (ts : List Turn) → mem i (speakers_of ts) ≡ any (λ t. t.local_idx == i) ts
unfolding speakers_of
mem-speakers_of i [] = refl
mem-speakers_of i (t ∷ ts) =
    ground (arith, mem-insert_index i t.local_idx (speakers_of ts), mem-speakers_of i ts)

module _ {E : Type 0} (r i : ℕ) where
  row_at-upsert :
      (new : SpeakerRow E) (rows : List (SpeakerRow E))
      → row_at r i (upsert_recording_speaker new rows)
        ≡ (if is_at r i new then some new else row_at r i rows)
  unfolding upsert_recording_speaker
  row_at-upsert new [] = refl
  row_at-upsert new (old ∷ rows) = ground (arith, row_at-upsert new rows)

  row_at-upsert_all :
      (q : ℕ) (identities : ℕ → Option ℕ) (embeddings : List (ℕ × E)) (is : List ℕ)
      (rows : List (SpeakerRow E))
      → row_at r i (upsert_all q identities embeddings is rows) ≡ (
          if (q == r) && mem i is then some (row_of q identities embeddings i) else row_at r i rows)
  unfolding upsert_all
  row_at-upsert_all q identities embeddings [] rows = ground arith
  row_at-upsert_all q identities embeddings (j ∷ is) rows =
      row_at-upsert_all q identities embeddings is
        (upsert_recording_speaker (row_of q identities embeddings j) rows)
      ∙ (rw (row_at-upsert (row_of q identities embeddings j) rows)
          (merged (q == r) (mem i is) (Bool-cases (j == i))))
    where
      merged :
          (a b : Bool)
          → ((j == i) ≡ true) ⊎ ((j == i) ≡ false)
          → (if a && b
              then some (row_of q identities embeddings i)
              else if a && (j == i)
              then some (row_of q identities embeddings j)
              else row_at r i rows)
            ≡ (if a && ((j == i) || b)
                then some (row_of q identities embeddings i)
                else row_at r i rows)
      merged false b h = refl
      merged true true (inl e) = rw e refl
      merged true false (inl e) =
          rw e (ap (λ (k : ℕ). some (row_of q identities embeddings k)) ((==_iff j i).0 e))
      merged true true (inr e) = rw e refl
      merged true false (inr e) = rw e refl

  row_at-prune :
      (q : ℕ) (keep : List ℕ) (rows : List (SpeakerRow E))
      → row_at r i (prune_recording_speakers q keep rows)
        ≡ (if (q == r) && not (mem i keep) then none else row_at r i rows)
  unfolding prune_recording_speakers
  row_at-prune q keep [] = ground arith
  row_at-prune q keep (row ∷ rows) = ground (arith, row_at-prune q keep rows)

  -- After the stage a recording has a row for each voice of the turns, with the speaker and the
  -- embedding of that voice, and for no other; the rows of other recordings are those that were
  -- there.
  pub row_at-run :
      (resolve : List (ℕ × E) → ℕ → Option ℕ) (q : ℕ) (turns : List Turn)
      (embeddings : List (ℕ × E)) (rows : List (SpeakerRow E))
      → row_at r i (run resolve q turns embeddings rows).0 ≡ (
          if q == r
          then (if any (λ t. t.local_idx == i) turns
              then some (row_of q (resolve (voices_of (speakers_of turns) embeddings)) embeddings i)
              else none)
          else row_at r i rows)
  unfolding run
  row_at-run resolve q turns embeddings rows =
      row_at-prune q (speakers_of turns) _
      ∙ rw
          (
            row_at-upsert_all q (resolve (voices_of (speakers_of turns) embeddings)) embeddings
                (speakers_of turns) rows,
            mem-speakers_of i turns,
          )
          (both (q == r) (any (λ t. t.local_idx == i) turns) _ _)
    where
      both :
          (a b : Bool) (x : SpeakerRow E) (y : Option (SpeakerRow E))
          → (if a && not b then none else if a && b then some x else y)
            ≡ (if a then (if b then some x else none) else y)
      both true true x y = refl
      both true false x y = refl
      both false b x y = refl
