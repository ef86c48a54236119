-- ===== src/Index/Windows.antt =====
-- `build_chunks`, `window_utterance` and `run`. The embedder is an argument, and the rows of `chunks`
-- are a list; an error of the database ends the stage and is left out.
use scribe_local.Common.{
  ℕ, zero, suc, ◌+◌, ◌-◌, min, max, Bool, true, false, not, ◌&&◌, ◌||◌, List, [], ◌∷◌, ◌++◌, Option,
  none, some, ltb, leb, ◌==◌, if◌then◌else◌, length, filter, map,
}
use scribe_local.Common.Text.{Text, trim}

pub record Word : Type 0 where
  pub text : Text
  pub start_ms : ℕ
  pub end_ms : ℕ

pub record Utterance : Type 0 where
  pub start_ms : ℕ
  pub end_ms : ℕ
  pub local_idx : Option ℕ
  pub text : Text
  pub words : List Word

pub record PendingChunk : Type 0 where
  pub start_ms : ℕ
  pub end_ms : ℕ
  pub local_idx : Option ℕ
  pub text : Text

abbrev pub window_ms : ℕ
window_ms = 45000

abbrev pub window_overlap_ms : ℕ
window_overlap_ms = 5000

abbrev pub in_window : ℕ → ℕ → Word → Bool
in_window win_start win_end w = ltb win_start w.end_ms && ltb w.start_ms win_end

abbrev pub last_end : List Word → ℕ
last_end [] = 0
last_end (w ∷ ws) = max w.end_ms (last_end ws)

-- `join(" ")`
unfoldable pub join_texts : List Word → Text
join_texts [] = []
join_texts (w ∷ []) = w.text
join_texts (w ∷ v ∷ ws) = w.text ++ b' ' ∷ join_texts (v ∷ ws)

-- The chunk of the words that a window has captured.
unfoldable pub chunk_of : Utterance → Word → List Word → PendingChunk
unfolding join_texts
chunk_of u w ws = record {
  start_ms = w.start_ms;
  end_ms = last_end (w ∷ ws);
  local_idx = u.local_idx;
  text = join_texts (w ∷ ws);
}

abbrev pub push_chunk : Utterance → List Word → List PendingChunk → List PendingChunk
push_chunk u [] rest = rest
push_chunk u (w ∷ ws) rest = chunk_of u w ws ∷ rest

abbrev pub push_window :
    Utterance → List Word → Option (List PendingChunk) → Option (List PendingChunk)
push_window u ws none = none
push_window u ws (some rest) = some (push_chunk u ws rest)

-- The loop from `win_start`; what it pushes comes first. `none` means that the fuel has run out.
unfoldable pub windows_from : ℕ → Utterance → ℕ → Option (List PendingChunk)
unfolding chunk_of
windows_from zero u win_start = none
windows_from (suc fuel) u win_start = elim (ltb win_start u.end_ms) [
  | false ↦ some []
  | true ↦
      let win_end = min (win_start + window_ms) u.end_ms in
      let captured = filter (in_window win_start win_end) u.words in
      elim (leb u.end_ms win_end) [
        | true ↦ some (push_chunk u captured [])
        | false ↦ push_window u captured (windows_from fuel u (win_end - window_overlap_ms))
      ]
]

-- A window starts 40 seconds after the one before, so the length in milliseconds, and one round more,
-- is fuel enough.
unfoldable pub window_utterance : Utterance → Option (List PendingChunk)
unfolding windows_from
window_utterance u = windows_from (suc (u.end_ms - u.start_ms)) u u.start_ms

abbrev pub append_chunks :
    Option (List PendingChunk) → Option (List PendingChunk) → Option (List PendingChunk)
append_chunks none rest = none
append_chunks (some cs) none = none
append_chunks (some cs) (some rest) = some (cs ++ rest)

abbrev pub is_empty {ℓ} : {A : Type ℓ} → List A → Bool
is_empty [] = true
is_empty (x ∷ xs) = false

-- The chunks of one utterance that has the trimmed text `text`.
unfoldable pub utterance_chunks : Utterance → Text → Option (List PendingChunk)
unfolding window_utterance
utterance_chunks u [] = some []
utterance_chunks u (c ∷ text) =
    if leb (u.end_ms - u.start_ms) window_ms || is_empty u.words
    then some (
        record {
          start_ms = u.start_ms;
          end_ms = u.end_ms;
          local_idx = u.local_idx;
          text = c ∷ text;
        }
        ∷ [])
    else window_utterance u

unfoldable pub build_chunks : List Utterance → Option (List PendingChunk)
unfolding utterance_chunks
build_chunks [] = some []
build_chunks (u ∷ us) = append_chunks (utterance_chunks u (trim u.text)) (build_chunks us)

-- A row of `chunks`; `V` is an embedding.
pub record ChunkRow (V : Type 0) : Type 0 where
  pub recording_id : ℕ
  pub chunk : PendingChunk
  pub embedding : V

pub data EmbedError : Type 0 where
  embedder_failed wrong_count : EmbedError

pub data Result (A : Type 0) : Type 0 where
  ok : A → Result A
  err : EmbedError → Result A

module _ {V : Type 0} where
  abbrev pub delete_chunks_by_recording : ℕ → List (ChunkRow V) → List (ChunkRow V)
  delete_chunks_by_recording r = filter (λ row. not (row.recording_id == r))

  unfoldable pub zip_rows : ℕ → List PendingChunk → List V → List (ChunkRow V)
  zip_rows r (c ∷ cs) (v ∷ vs) =
      record { recording_id = r; chunk = c; embedding = v } ∷ zip_rows r cs vs
  zip_rows r _ _ = []

  abbrev pub insert_embedded :
      ℕ → List PendingChunk → Option (List V) → List (ChunkRow V) → Result (List (ChunkRow V))
  insert_embedded r pending none rows = err embedder_failed
  insert_embedded r pending (some vectors) rows =
      if length vectors == length pending
      then ok (delete_chunks_by_recording r rows ++ zip_rows r pending vectors)
      else err wrong_count

  abbrev pub embed_pending :
      (List Text → Option (List V))
      → ℕ
      → List PendingChunk
      → List (ChunkRow V)
      → Result (List (ChunkRow V))
  embed_pending embed r [] rows = ok (delete_chunks_by_recording r rows)
  embed_pending embed r (c ∷ cs) rows =
      insert_embedded r (c ∷ cs) (embed (map (λ p. p.text) (c ∷ cs))) rows

  abbrev pub run_pending :
      (List Text → Option (List V))
      → ℕ
      → Option (List PendingChunk)
      → List (ChunkRow V)
      → Option (Result (List (ChunkRow V)))
  run_pending embed r none rows = none
  run_pending embed r (some pending) rows = some (embed_pending embed r pending rows)

  -- The stage over the rows of `chunks`.
  unfoldable pub run :
      (List Text → Option (List V))
      → ℕ
      → List Utterance
      → List (ChunkRow V)
      → Option (Result (List (ChunkRow V)))
  unfolding build_chunks zip_rows
  run embed r utterances rows = run_pending embed r (build_chunks utterances) rows
