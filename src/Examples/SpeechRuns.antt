-- ===== src/Examples/SpeechRuns.antt =====
-- Runs of the speech code, with numbers for floats and a recognizer that always hears one word.
use scribe_local.Common.{
  ℕ, ◌+◌, ◌-◌, ◌*◌, ◌≤◌, ◌<◌, ◌≡◌, refl, List, [], ◌∷◌, Option, none, some, ltb, map, length,
  replicate, arith, leb→le, ltb→lt,
}
use scribe_local.Common.Int.{ℤ, pos}
use scribe_local.Common.Text.{codes}
use scribe_local.Speech.Wav.{Floats, ok, parse_wav, scaled}
use scribe_local.Speech.WavWriter.{write_pcm16_mono}
use scribe_local.Speech.WavFiles.{parse_wav-write_pcm16_mono}
use scribe_local.Speech.Tokens.{AsrWord, spread_evenly, split_whitespace}
use scribe_local.Speech.Decode
use scribe_local.Speech.Decode.{
  Engine, Transcript, choose_window_end, transcribe, recover_gaps, decode_gaps, gaps, samples_to_ms,
}
use scribe_local.Speech.Windows.{choose_window_end_bounds, transcribe_total}
use scribe_local.Speech.Recovery.{IsRecovered, recover_gaps-IsRecovered}

abbrev whole : Floats
whole = record {
  F = ℤ;
  from_bits = pos;
  from_int = λ z. z;
  sub = λ a b. a;
  div = λ a b. a;
  sum = λ xs. pos 0;
}

abbrev two_samples : List ℕ
two_samples = 1 ∷ 65535 ∷ []

parse_wav-write_pcm16_mono_example :
    parse_wav whole (write_pcm16_mono 16000 two_samples)
    ≡ some (
        ok (record {
          sample_rate = 16000;
          channels = 1;
          samples = map (scaled whole 32768) two_samples;
        }))
parse_wav-write_pcm16_mono_example =
    parse_wav-write_pcm16_mono whole 16000 two_samples (ltb→lt 16000 2147483648 refl)
      (ltb→lt 40 4294967296 refl) (omega arith, (omega arith, tt))

abbrev total : List ℕ → ℕ
total [] = 0
total (x ∷ xs) = x + total xs

abbrev toy_engine : Engine
toy_engine = record {
  F = ℕ;
  energy = total;
  lt = ltb;
  f32_max = 1000000;
  sec_to_ms = λ s. 1000 * s;
  recognize = λ rate clip. some (record {
    text = codes "word";
    tokens = codes " word" ∷ [];
    timestamps = some (0 ∷ []);
    durations = some (1 ∷ []);
  });
}

abbrev long_clip : List ℕ
long_clip = replicate 3000 1

choose_window_end_bounds_example :
    (0 < choose_window_end toy_engine long_clip 0 2560)
    × (choose_window_end toy_engine long_clip 0 2560 ≤ 2560)
    × (4 * (2560 - choose_window_end toy_engine long_clip 0 2560) ≤ 2560 - 0)
choose_window_end_bounds_example =
    choose_window_end_bounds toy_engine long_clip 0 2560 (ltb→lt 0 2560 refl)
      (leb→le 2560 (length long_clip) refl)

-- At a rate of one sample a second.
abbrev short_clip : List ℕ
short_clip = replicate 8 1

transcribe_total_example :
    (r : Decode.Result Transcript) × (transcribe toy_engine 3000 5000 1 short_clip ≡ some r)
transcribe_total_example = transcribe_total toy_engine 3000 5000 1 short_clip

abbrev pair_clip : List ℕ
pair_clip = 1 ∷ 1 ∷ []

abbrev first_word : AsrWord
first_word = record { text = codes "word"; start_ms = 0; end_ms = 1000 }

abbrev found_word : AsrWord
found_word = record { text = codes "word"; start_ms = 1000; end_ms = 2000 }

abbrev heard : Transcript
heard = record { text = codes "word"; words = first_word ∷ [] }

abbrev heard_again : Transcript
heard_again = record { text = codes "word word"; words = first_word ∷ found_word ∷ [] }

gap_recovered : recover_gaps toy_engine 1000 1 pair_clip heard ≡ Decode.ok heard_again
unfolding recover_gaps scribe_local.Speech.Tokens.build_words scribe_local.Common.Text.trim
gap_recovered = refl

recover_gaps-IsRecovered_example :
    (found : List AsrWord) × (decode_gaps toy_engine 1 pair_clip
        (gaps 1000 (samples_to_ms 2 1) 0 (first_word ∷ []))
      ≡ Decode.ok found)
    × IsRecovered heard heard_again found
recover_gaps-IsRecovered_example =
    recover_gaps-IsRecovered toy_engine 1000 1 pair_clip heard heard_again (ltb→lt 0 1000 refl)
      gap_recovered
