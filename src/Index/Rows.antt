-- ===== src/Index/Rows.antt =====
-- The rows of the index after the stage.
use mathlib.Core.List.{append-nil}
use scribe_local.Common.{
  ℕ, ◌-◌, ◌≡◌, refl, ap, subst, ==_iff, ◌∙◌, List, [], ◌∷◌, ◌++◌, Option, none, some, leb, ◌==◌,
  ◌||◌, filter, map, length, Bool-cases, inl, inr, arith,
}
use scribe_local.Common.Text.{Text, trim}
use scribe_local.Index.Windows.{
  Utterance, PendingChunk, utterance_chunks, build_chunks, is_empty, window_ms, ChunkRow, Result,
  ok, err, wrong_count, delete_chunks_by_recording, zip_rows, embed_pending, insert_embedded,
  run_pending, run,
}
use scribe_local.Index.Coverage.{window_utterance-Covers}

utterance_chunks_total :
    (u : Utterance) (text : Text) → (out : List PendingChunk) × (utterance_chunks u text ≡ some out)
unfolding utterance_chunks
utterance_chunks_total u [] = ([], refl)
utterance_chunks_total u (c ∷ text) =
    elim (Bool-cases (leb (u.end_ms - u.start_ms) window_ms || is_empty u.words)) [
      | inl whole ↦ (
        record {
          start_ms = u.start_ms;
          end_ms = u.end_ms;
          local_idx = u.local_idx;
          text = c ∷ text;
        }
            ∷ [],
        rw whole refl,
      )
      | inr long ↦ let w = window_utterance-Covers u (ground arith) in (w.0, rw long w.1)
    ]

build_chunks_total :
    (us : List Utterance) → (out : List PendingChunk) × (build_chunks us ≡ some out)
unfolding build_chunks
build_chunks_total [] = ([], refl)
build_chunks_total (u ∷ us) =
    let a = utterance_chunks_total u (trim u.text) in
    let b = build_chunks_total us in (a.0 ++ b.0, rw (a.1, b.1) refl)

module _ {V : Type 0} where
  -- The rows of one recording.
  abbrev pub rows_of : ℕ → List (ChunkRow V) → List (ChunkRow V)
  rows_of r = filter (λ row. row.recording_id == r)

  rows_of-stored :
      (r : ℕ) (rows : List (ChunkRow V)) (cs : List PendingChunk) (vs : List V)
      → length vs ≡ length cs
      → map (λ row. row.chunk) (rows_of r (delete_chunks_by_recording r rows ++ zip_rows r cs vs))
        ≡ cs
  unfolding zip_rows
  rows_of-stored r [] [] vs h = refl
  rows_of-stored r [] (c ∷ cs) [] h = absurd (omega arith)
  rows_of-stored r [] (c ∷ cs) (v ∷ vs) h = ground (arith, rows_of-stored r [] cs vs)
  rows_of-stored r (row ∷ rows) cs vs h = ground (arith, rows_of-stored r rows cs vs)

  others-stored :
      (r : ℕ) (rows : List (ChunkRow V)) (cs : List PendingChunk) (vs : List V)
      → delete_chunks_by_recording r (delete_chunks_by_recording r rows ++ zip_rows r cs vs)
        ≡ delete_chunks_by_recording r rows
  unfolding zip_rows
  others-stored r [] [] vs = refl
  others-stored r [] (c ∷ cs) [] = refl
  others-stored r [] (c ∷ cs) (v ∷ vs) = ground (arith, others-stored r [] cs vs)
  others-stored r (row ∷ rows) cs vs = ground (arith, others-stored r rows cs vs)

  -- The rows after the stage: those of the recording are the new chunks, the others are unchanged.
  pub record IsIndexed (r : ℕ) (cs : List PendingChunk) (rows after : List (ChunkRow V))
      : Type 0 where
    pub stored : map (λ row. row.chunk) (rows_of r after) ≡ cs
    pub others : delete_chunks_by_recording r after ≡ delete_chunks_by_recording r rows

  indexed :
      (r : ℕ) (rows : List (ChunkRow V)) (cs : List PendingChunk) (vs : List V)
      → length vs ≡ length cs
      → IsIndexed r cs rows (delete_chunks_by_recording r rows ++ zip_rows r cs vs)
  indexed r rows cs vs h = record {
    stored = rows_of-stored r rows cs vs h;
    others = others-stored r rows cs vs;
  }

  ok_inj : (a b : List (ChunkRow V)) → ok a ≡ ok b → a ≡ b
  ok_inj a b h = cc

  wrong_count_ne_ok : {P : Type 0} {a : List (ChunkRow V)} → err wrong_count ≡ ok a → P
  wrong_count_ne_ok h = absurd (cc)

  embed_pending-IsIndexed :
      (embed : List Text → Option (List V)) (r : ℕ) (cs : List PendingChunk)
      (rows after : List (ChunkRow V))
      → embed_pending embed r cs rows ≡ ok after
      → IsIndexed r cs rows after
  unfolding zip_rows
  embed_pending-IsIndexed embed r [] rows after h =
      subst (IsIndexed r [] rows) (append-nil (delete_chunks_by_recording r rows) ∙ ok_inj _ _ h)
        (indexed r rows [] [] refl)
  embed_pending-IsIndexed embed r (c ∷ cs) rows after h = go (embed (map (λ p. p.text) (c ∷ cs))) h
    where
      go :
          (o : Option (List V))
          → insert_embedded r (c ∷ cs) o rows ≡ ok after
          → IsIndexed r (c ∷ cs) rows after
      go none e = absurd (cc)
      go (some vs) e = elim (Bool-cases (length vs == length (c ∷ cs))) [
        | inl same ↦
            subst (IsIndexed r (c ∷ cs) rows) (ok_inj _ _ (rw same at e))
              (indexed r rows (c ∷ cs) vs ((==_iff _ _).0 same))
        | inr other ↦ wrong_count_ne_ok (rw other at e)
      ]

  -- The stage ends; when it succeeds, the recording's rows hold the chunks of its transcript, in
  -- order, and the rows of other recordings are those that were there.
  pub run-IsIndexed :
      (embed : List Text → Option (List V)) (r : ℕ) (us : List Utterance) (rows : List (ChunkRow V))
      → (cs : List PendingChunk) × (build_chunks us ≡ some cs)
        × ((o : Result (List (ChunkRow V))) × (run embed r us rows ≡ some o)
            × ((after : List (ChunkRow V)) → o ≡ ok after → IsIndexed r cs rows after))
  unfolding run
  run-IsIndexed embed r us rows =
      let b = build_chunks_total us in
      (
        b.0,
        b.1,
        (
          embed_pending embed r b.0 rows,
          ap (λ (o : Option (List PendingChunk)). run_pending embed r o rows) b.1,
          λ after. embed_pending-IsIndexed embed r b.0 rows after,
        ),
      )
