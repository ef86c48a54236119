-- ===== src/Speech/Windows.antt =====
-- The windows of a long recording advance, and the loop over them ends.
use scribe_local.Common.{
  ℕ, zero, suc, ◌+◌, ◌-◌, ◌*◌, ◌/◌, min, ◌≤◌, ◌<◌, ◌≡◌, refl, ap, List, [], Option, some, ltb, leb,
  ◌==◌, ◌||◌, length, Bool-cases, ltb→lt, inl, inr, ◌⊎◌, take, drop, arith,
}
use scribe_local.Speech.Decode.{
  Engine, Transcript, Result, ok, failed, ◌>>=◌, quietest, choose_window_end, cut_frame,
  decode_span, decode_windows, transcribe, recover_gaps, slice, samples_to_ms, add_part,
  recover_from,
}

Result-cases {ℓ} : {A : Type ℓ} (r : Result A) → (r ≡ failed) ⊎ ((a : A) × (r ≡ ok a))
Result-cases failed = inl refl
Result-cases (ok a) = inr (a, refl)

module _ (en : Engine) where
  quietest_bounds :
      (rounds : ℕ) (samples : List en.F) (at best : ℕ) (e : en.F) (lo hi : ℕ)
      → lo ≤ best
      → best ≤ hi
      → lo ≤ at
      → at + 320 * rounds ≤ hi
      → (lo ≤ quietest en rounds samples at best e) × (quietest en rounds samples at best e ≤ hi)
  unfolding quietest
  quietest_bounds zero samples at best e lo hi a b c d = (a, b)
  quietest_bounds (suc rounds) samples at best e lo hi a b c d =
      elim (Bool-cases (en.lt (en.energy (take cut_frame (drop at samples))) e)) [
        | inl quieter ↦ rw quieter (
            quietest_bounds rounds samples (at + 320) (at + 160) _ lo hi (omega arith) (omega arith)
              (omega arith) (omega arith))
        | inr louder ↦
            rw louder (
              quietest_bounds rounds samples (at + 320) best _ lo hi a b (omega arith)
                (omega arith))
      ]

  -- A window that starts before its nominal end, which is within the audio, ends after its start,
  -- not after its nominal end, and in the last quarter before it.
  pub choose_window_end_bounds :
      (samples : List en.F) (start nominal : ℕ)
      → start < nominal
      → nominal ≤ length samples
      → (start < choose_window_end en samples start nominal)
        × (choose_window_end en samples start nominal ≤ nominal)
        × (4 * (nominal - choose_window_end en samples start nominal) ≤ nominal - start)
  unfolding choose_window_end
  choose_window_end_bounds samples start nominal h k =
      let q =
        quietest_bounds ((nominal - start) / 4 / 320) samples (nominal - (nominal - start) / 4)
          nominal en.f32_max (nominal - (nominal - start) / 4) nominal (omega arith) (omega arith)
          (omega arith) (omega arith) in
      ground arith

  decode_windows_total :
      (fuel rate window : ℕ) (samples : List en.F) (start : ℕ) (t : Transcript)
      → 0 < window
      → start ≤ length samples
      → length samples < start + fuel
      → (r : Result Transcript) × (decode_windows en fuel rate window samples start t ≡ some r)
  unfolding decode_windows
  decode_windows_total zero rate window samples start t w k h = absurd (omega arith)
  decode_windows_total (suc fuel) rate window samples start t w k h =
      elim (Bool-cases (ltb start (length samples))) [
        | inr over ↦ (ok t, rw (over, decode_windows) refl)
        | inl left ↦
            let nominal = min (start + window) (length samples) in
            let long = ltb→lt start (length samples) left in
            let e = choose_window_end_bounds samples start nominal (omega arith) (omega arith) in
            let end = choose_window_end en samples start nominal in
            let part =
              decode_span en rate (slice en start end samples) (samples_to_ms start rate) in
            elim (Result-cases part) [
              | inl lost ↦ (failed, rw (left, decode_windows) (rw lost refl))
              | inr (p, found) ↦
                  let rest =
                    decode_windows_total fuel rate window samples end (add_part t p) w (omega arith)
                      (omega arith) in
                  (rest.0, rw (left, decode_windows) (rw found rest.1))
            ]
      ]

  recovered_total :
      (gap_ms rate : ℕ) (samples : List en.F) (o : Option (Result Transcript))
      (r : Result Transcript)
      → o ≡ some r
      → (r' : Result Transcript) × (recover_from en gap_ms rate samples o ≡ some r')
  recovered_total gap_ms rate samples o r e =
      ((r >>= recover_gaps en gap_ms rate samples), ap (recover_from en gap_ms rate samples) e)

  -- Transcription ends with a result, whatever the recognizer returns.
  pub transcribe_total :
      (max_clip_ms gap_ms rate : ℕ) (samples : List en.F)
      → (r : Result Transcript) × (transcribe en max_clip_ms gap_ms rate samples ≡ some r)
  unfolding transcribe
  transcribe_total max_clip_ms gap_ms rate samples =
      let window = max_clip_ms * rate / 1000 in
      elim (Bool-cases ((window == 0) || leb (length samples) window)) [
        | inl short ↦
            recovered_total gap_ms rate samples _ (decode_span en rate samples 0) (rw short refl)
        | inr long ↦
            let w =
              decode_windows_total (suc (length samples)) rate window samples 0
                (record { text = []; words = [] }) (ground arith) (omega arith) (omega arith) in
            recovered_total gap_ms rate samples _ w.0 (rw long w.1)
      ]
