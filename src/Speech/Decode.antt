-- ===== src/Speech/Decode.antt =====
-- The decoding of a recording by windows, crates/scribe-asr/src/real/asr.rs. The recognizer, and the
-- energy of a frame and its order, are a record. Times of words are not negative; the environment's
-- overrides of the window and of the gap are arguments.
use scribe_local.Common.{
  ℕ, zero, suc, ◌+◌, ◌-◌, ◌*◌, ◌/◌, min, max, Bool, true, false, ◌&&◌, ◌||◌, List, [], ◌∷◌, ◌++◌,
  Option, none, some, ltb, leb, ◌==◌, if◌then◌else◌, length, take, drop, map,
}
use scribe_local.Common.Text.{Text, trim}
use scribe_local.Transcript.Utterances.{last}
use scribe_local.Speech.Tokens.{AsrWord, RawResult, build_words}

pub record Transcript : Type 0 where
  pub text : Text
  pub words : List AsrWord

-- `energy` is the sum of the squares, `lt` the order of `f32`, and `recognize` a decode of one clip.
pub record Engine : Type 1 where
  pub F : Type 0
  pub energy : List F → F
  pub lt : F → F → Bool
  pub f32_max : F
  pub sec_to_ms : F → ℕ
  pub recognize : ℕ → List F → Option (RawResult F)

-- A failed decode is the error `Error::Model`.
pub data Result {ℓ} (A : Type ℓ) : Type ℓ where
  ok : A → Result A
  failed : Result A

infixl 5 ◌>>=◌
abbrev pub ◌>>=◌ {ℓ κ} : {A : Type ℓ} {B : Type κ} → Result A → (A → Result B) → Result B
ok a >>= f = f a
failed >>= f = failed

abbrev pub cut_search_fraction : ℕ
cut_search_fraction = 4

abbrev pub cut_frame : ℕ
cut_frame = 320

abbrev pub min_recover_ms : ℕ
min_recover_ms = 4000

-- `MAX_RECOVERY_PASSES` and the first pass.
abbrev pub passes : ℕ
passes = 7

unfoldable pub samples_to_ms : ℕ → ℕ → ℕ
samples_to_ms samples rate = if rate == 0 then 0 else samples * 1000 / rate

unfoldable pub ms_to_samples : ℕ → ℕ → ℕ
ms_to_samples ms rate = ms * rate / 1000

-- The quotient of `f64` is compared with 0.75 by multiplication.
unfoldable pub needs_recovery : ℕ → ℕ → ℕ → ℕ → Bool
unfolding samples_to_ms
needs_recovery cursor next total rate =
    if leb next cursor || leb total next
    then false
    else if ltb (samples_to_ms (total - next) rate) min_recover_ms
    then false
    else ltb (4 * (next - cursor)) (3 * (total - cursor))

abbrev pub append_piece : Text → Text → Text
append_piece text [] = text
append_piece [] (c ∷ piece) = c ∷ piece
append_piece (d ∷ text) (c ∷ piece) = (d ∷ text) ++ b' ' ∷ (c ∷ piece)

abbrev pub add_part : Transcript → Transcript → Transcript
add_part t part = record {
  text = append_piece t.text (trim part.text);
  words = t.words ++ part.words;
}

abbrev pub offset_words : ℕ → List AsrWord → List AsrWord
offset_words offset =
    map {A = AsrWord} (λ w. record w { start_ms = w.start_ms + offset; end_ms = w.end_ms + offset })

-- The gaps from `prev_end` on, up to the end of the audio.
unfoldable pub gaps : ℕ → ℕ → ℕ → List AsrWord → List (ℕ × ℕ)
gaps gap_ms total_ms prev_end [] =
    if leb (prev_end + gap_ms) total_ms then (prev_end, total_ms) ∷ [] else []
gaps gap_ms total_ms prev_end (w ∷ ws) =
    let rest = gaps gap_ms total_ms (max prev_end w.end_ms) ws in
    if leb (prev_end + gap_ms) w.start_ms then (prev_end, w.start_ms) ∷ rest else rest

-- The order of the key `(start_ms, end_ms)`.
abbrev pub key_le : AsrWord → AsrWord → Bool
key_le a b = ltb a.start_ms b.start_ms || ((a.start_ms == b.start_ms) && leb a.end_ms b.end_ms)

unfoldable pub insert_word : AsrWord → List AsrWord → List AsrWord
insert_word w [] = w ∷ []
insert_word w (v ∷ vs) = let rest = insert_word w vs in if key_le w v then w ∷ v ∷ vs else v ∷ rest

-- `sort_by_key`, which is stable.
unfoldable pub sort_words : List AsrWord → List AsrWord
unfolding insert_word
sort_words [] = []
sort_words (w ∷ ws) = insert_word w (sort_words ws)

unfoldable pub join_words : List AsrWord → Text
join_words [] = []
join_words (w ∷ []) = w.text
join_words (w ∷ v ∷ ws) = w.text ++ b' ' ∷ join_words (v ∷ ws)

-- The words that were found are merged in, if there are any; the text is joined anew.
abbrev pub recovered_transcript : List AsrWord → List AsrWord → Transcript
recovered_transcript old found =
    let words = if ltb 0 (length found) then sort_words (old ++ found) else old in
    record { text = join_words words; words = words }

module _ (en : Engine) where
  open en use {F, energy, lt, f32_max, sec_to_ms, recognize}

  -- The frames from `at` on; the `while` runs once for each whole frame that is left.
  unfoldable pub quietest : ℕ → List F → ℕ → ℕ → F → ℕ
  quietest zero samples at best best_energy = best
  quietest (suc rounds) samples at best best_energy =
      let e = energy (take cut_frame (drop at samples)) in
      quietest rounds samples (at + cut_frame)
        (if lt e best_energy then at + cut_frame / 2 else best)
        (if lt e best_energy then e else best_energy)

  unfoldable pub choose_window_end : List F → ℕ → ℕ → ℕ
  unfolding quietest
  choose_window_end samples start nominal_end =
      let band = (nominal_end - start) / cut_search_fraction in
      if leb (length samples) nominal_end
      then length samples
      else if ltb band (cut_frame * 2)
      then nominal_end
      else quietest (band / cut_frame) samples (nominal_end - band) nominal_end f32_max

  abbrev pub from_raw : ℕ → ℕ → Option (RawResult F) → Result Transcript
  from_raw clip_ms offset_ms none = failed
  from_raw clip_ms offset_ms (some r) =
      ok
        (record { text = r.text; words = offset_words offset_ms (build_words sec_to_ms r clip_ms) })

  unfoldable pub decode_clip : ℕ → List F → ℕ → Result Transcript
  unfolding samples_to_ms
  decode_clip rate samples offset_ms =
      from_raw (samples_to_ms (length samples) rate) offset_ms (recognize rate samples)

  -- Where the next pass starts, if there is one.
  abbrev pub next_cursor : ℕ → ℕ → ℕ → ℕ → Option AsrWord → Option ℕ
  next_cursor rate total offset_ms cursor none = none
  next_cursor rate total offset_ms cursor (some w) =
      let next = ms_to_samples (w.end_ms - offset_ms) rate in
      if needs_recovery cursor next total rate then some next else none

  -- The passes that are left of `decode_span`.
  unfoldable pub span_passes : ℕ → ℕ → List F → ℕ → ℕ → Transcript → Result Transcript
  unfolding decode_clip needs_recovery ms_to_samples samples_to_ms
  span_passes zero rate samples offset_ms cursor t = ok t
  span_passes (suc n) rate samples offset_ms cursor t =
      elim (decode_clip rate (drop cursor samples) (offset_ms + samples_to_ms cursor rate)) [
        | failed ↦ failed
        | ok part ↦ elim (next_cursor rate (length samples) offset_ms cursor (last part.words)) [
          | none ↦ ok (add_part t part)
          | some next ↦ span_passes n rate samples offset_ms next (add_part t part)
        ]
      ]

  unfoldable pub decode_span : ℕ → List F → ℕ → Result Transcript
  unfolding span_passes
  decode_span rate samples offset_ms =
      span_passes passes rate samples offset_ms 0 (record { text = []; words = [] })

  abbrev pub slice : ℕ → ℕ → List F → List F
  slice from upto samples = take (upto - from) (drop from samples)

  -- The loop over the windows from `start`. `none` means that the fuel has run out.
  unfoldable pub decode_windows : ℕ → ℕ → ℕ → List F → ℕ → Transcript → Option (Result Transcript)
  unfolding decode_span choose_window_end
  decode_windows zero rate window samples start t = none
  decode_windows (suc fuel) rate window samples start t = elim (ltb start (length samples)) [
    | false ↦ some (ok t)
    | true ↦
        let nominal = min (start + window) (length samples) in
        let end = choose_window_end samples start nominal in
        elim (decode_span rate (slice start end samples) (samples_to_ms start rate)) [
          | failed ↦ some failed
          | ok part ↦ decode_windows fuel rate window samples end (add_part t part)
        ]
  ]

  -- The words that a second decode finds in the gaps.
  unfoldable pub decode_gaps : ℕ → List F → List (ℕ × ℕ) → Result (List AsrWord)
  unfolding decode_span ms_to_samples
  decode_gaps rate samples [] = ok []
  decode_gaps rate samples ((from_ms, to_ms) ∷ more) =
      let a = min (ms_to_samples from_ms rate) (length samples) in
      let b = min (ms_to_samples to_ms rate) (length samples) in
      let rest = decode_gaps rate samples more in
      if leb b a
      then rest
      else (decode_span rate (slice a b samples) from_ms >>= λ part.
          rest >>= λ words. ok (part.words ++ words))

  unfoldable pub recover_gaps : ℕ → ℕ → List F → Transcript → Result Transcript
  unfolding gaps decode_gaps sort_words join_words samples_to_ms
  recover_gaps gap_ms rate samples first =
      if gap_ms == 0
      then ok first
      else (decode_gaps rate samples
            (gaps gap_ms (samples_to_ms (length samples) rate) 0 first.words)
          >>= λ found. ok (recovered_transcript first.words found))

  abbrev pub recover_from : ℕ → ℕ → List F → Option (Result Transcript) → Option (Result Transcript)
  recover_from gap_ms rate samples none = none
  recover_from gap_ms rate samples (some r) = some (r >>= recover_gaps gap_ms rate samples)

  -- A window holds a sample at least, so the number of samples and one round more are fuel enough.
  unfoldable pub transcribe : ℕ → ℕ → ℕ → List F → Option (Result Transcript)
  unfolding decode_windows decode_span recover_gaps
  transcribe max_clip_ms gap_ms rate samples =
      let window = max_clip_ms * rate / 1000 in
      recover_from gap_ms rate samples (
        if (window == 0) || leb (length samples) window
        then some (decode_span rate samples 0)
        else decode_windows (suc (length samples)) rate window samples 0
            (record { text = []; words = [] }))
