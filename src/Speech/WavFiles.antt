-- ===== src/Speech/WavFiles.antt =====
-- Reading a file ends, and a file that was written is read back.
use scribe_local.Common.{
  ℕ, zero, suc, ◌+◌, ◌*◌, ◌/◌, ◌%◌, ◌^◌, ◌≤◌, ◌<◌, ◌≡◌, refl, ap, true, false, List, [], ◌∷◌, none,
  some, ltb, leb, length, map, Bool-cases, inl, inr, All, take, drop, min, ◌-◌, le→leb, lt→ltb, ◌∙◌,
  arith,
}
use native.Mathlib.Decide.{dec_le}
use scribe_local.Speech.WavWriter.{pcm16_bytes, write_pcm16_mono}
use scribe_local.Speech.Wav.{
  Bytes, Result, ok, err, WavError, not_riff, ◌>>=◌, Floats, Seen, WavFormat, chunk_step, walk,
  take_chunk, read_u32, parse_wav, WavData, scaled, samples16, finish, is_riff, finish_walk,
  decode_data, parse_fmt, read_fmt, read_u16, usize_bound,
}

chunk_step-advances :
    (b : Bytes) (p : ℕ) (seen seen' : Seen) (next : ℕ)
    → chunk_step b p seen ≡ ok (seen', next)
    → p + 8 ≤ next
unfolding chunk_step
chunk_step-advances b p seen seen' next h = ground arith

walk-end :
    (fuel : ℕ) (b : Bytes) (p : ℕ) (seen : Seen)
    → length b < p + 8
    → walk (suc fuel) b p seen ≡ some (ok seen)
unfolding walk
walk-end fuel b p seen h =
    let e : leb (p + 8) (length b) ≡ false = ground arith in rw (e, walk) refl

walk-err :
    (fuel : ℕ) (b : Bytes) (p : ℕ) (seen : Seen) {e : WavError}
    → p + 8 ≤ length b
    → chunk_step b p seen ≡ err e
    → walk (suc fuel) b p seen ≡ some (err e)
unfolding walk
walk-err fuel b p seen h c =
    let e : leb (p + 8) (length b) ≡ true = le→leb (p + 8) (length b) h in rw (e, walk) (rw c refl)

walk-next :
    (fuel : ℕ) (b : Bytes) (p : ℕ) (seen seen' : Seen) (next : ℕ)
    → p + 8 ≤ length b
    → chunk_step b p seen ≡ ok (seen', next)
    → walk (suc fuel) b p seen ≡ walk fuel b next seen'
unfolding walk
walk-next fuel b p seen seen' next h c =
    let e : leb (p + 8) (length b) ≡ true = le→leb (p + 8) (length b) h in rw (e, walk) (rw c refl)

walk_total :
    (fuel : ℕ) (b : Bytes) (p : ℕ) (seen : Seen)
    → 0 < fuel
    → length b < p + 8 * fuel
    → (r : Result Seen) × (walk fuel b p seen ≡ some r)
walk_total zero b p seen h k = absurd (omega arith)
walk_total (suc fuel) b p seen h k = elim (dec_le (p + 8) (length b)) [
  | no past ↦ (ok seen, walk-end fuel b p seen (omega arith))
  | yes room ↦
      go room (λ next seen' adv. walk_total fuel b next seen' (omega arith) (omega arith))
        (chunk_step b p seen) refl
]
  where
    go :
        p + 8 ≤ length b
        → ((next : ℕ) (seen' : Seen)
            → p + 8 ≤ next
            → (r : Result Seen) × (walk fuel b next seen' ≡ some r))
        → (c : Result (Seen × ℕ)) → chunk_step b p seen ≡ c
        → (r : Result Seen) × (walk (suc fuel) b p seen ≡ some r)
    go room on (err e) eq = (err e, walk-err fuel b p seen room eq)
    go room on (ok (seen', next)) eq =
        let rest = on next seen' (chunk_step-advances b p seen seen' next eq) in
        (rest.0, walk-next fuel b p seen seen' next room eq ∙ rest.1)

riff-length : (fl : Floats) (b : Bytes) → is_riff fl b ≡ true → 12 ≤ length b
riff-length fl b h = ground arith

-- Reading ends with a result on every file.
pub parse_wav_total :
    (fl : Floats) (b : Bytes) → (r : Result (WavData fl)) × (parse_wav fl b ≡ some r)
unfolding parse_wav
parse_wav_total fl b = elim (Bool-cases (is_riff fl b)) [
  | inr other ↦ (err not_riff, rw other refl)
  | inl riff ↦
      let long = riff-length fl b riff in
      let w =
        walk_total (length b) b 12 (record { fmt = none; samples = none }) (omega arith)
          (omega arith) in
      (w.0 >>= finish fl, rw (riff, w.1) refl)
]

samples16-pcm16_bytes :
    (fl : Floats) (samples : List ℕ)
    → All (λ s. s < 65536) samples
    → samples16 fl (pcm16_bytes samples) ≡ map (scaled fl 32768) samples
unfolding samples16 pcm16_bytes
samples16-pcm16_bytes fl [] h = refl
samples16-pcm16_bytes fl (s ∷ ss) (h, hs) =
    let e : s % 256 + 256 * (s / 256 % 256) ≡ s = omega arith in
    rw (e, samples16-pcm16_bytes fl ss hs) refl

take-length : (b : Bytes) → take (length b) b ≡ b
take-length [] = refl
take-length (x ∷ b) = ap (λ r. x ∷ r) (take-length b)

length-pcm16_bytes : (samples : List ℕ) → length (pcm16_bytes samples) ≡ length samples * 2
unfolding pcm16_bytes
length-pcm16_bytes [] = refl
length-pcm16_bytes (s ∷ ss) = omega (arith, length-pcm16_bytes ss)

-- The header that is written, with the bytes of its numbers, before the samples.
abbrev file_of : (z0 z1 z2 z3 r0 r1 r2 r3 y0 y1 y2 y3 d0 d1 d2 d3 : ℕ) → Bytes → Bytes
file_of z0 z1 z2 z3 r0 r1 r2 r3 y0 y1 y2 y3 d0 d1 d2 d3 body =
    b'R' ∷ b'I' ∷ b'F' ∷ b'F' ∷ z0 ∷ z1 ∷ z2 ∷ z3 ∷ b'W' ∷ b'A' ∷ b'V' ∷ b'E' ∷ b'f' ∷ b'm' ∷ b't'
    ∷ b' ' ∷ 16 ∷ 0 ∷ 0 ∷ 0 ∷ 1 ∷ 0 ∷ 1 ∷ 0 ∷ r0 ∷ r1 ∷ r2 ∷ r3 ∷ y0 ∷ y1 ∷ y2 ∷ y3 ∷ 2 ∷ 0 ∷ 16 ∷ 0
    ∷ b'd' ∷ b'a' ∷ b't' ∷ b'a' ∷ d0 ∷ d1 ∷ d2 ∷ d3 ∷ body

module _ (z0 z1 z2 z3 r0 r1 r2 r3 y0 y1 y2 y3 d0 d1 d2 d3 : ℕ) (body : Bytes) where
  abbrev file : Bytes
  file = file_of z0 z1 z2 z3 r0 r1 r2 r3 y0 y1 y2 y3 d0 d1 d2 d3 body

  abbrev format : WavFormat
  format = record {
    audio_format = 1;
    channels = 1;
    sample_rate = r0 + 256 * r1 + 65536 * r2 + 16777216 * r3;
    bits = 16;
  }

  fmt_step :
      chunk_step file 12 (record { fmt = none; samples = none })
      ≡ ok (record { fmt = some format; samples = none }, 36)
  unfolding chunk_step take_chunk parse_fmt read_fmt read_u16 read_u32
  fmt_step = let size : min 36 (length file) - 20 ≡ 16 = omega arith in rw size refl

  data_step :
      (seen : Seen)
      → d0 + 256 * d1 + 65536 * d2 + 16777216 * d3 ≡ length body
      → length body < 2 ^ 32
      → chunk_step file 36 seen
        ≡ ok (record seen { samples = some body }, 36 + (8 + length body + length body % 2))
  unfolding chunk_step take_chunk read_u32
  data_step seen e h =
      let size : min (44 + length body) (length file) - 44 ≡ length body = omega arith in
      let small : ltb (36 + (8 + length body + length body % 2)) usize_bound ≡ true =
        lt→ltb _ _ (omega arith) in
      rw (e, small, size, take-length body) refl

  walked :
      d0 + 256 * d1 + 65536 * d2 + 16777216 * d3 ≡ length body
      → length body < 2 ^ 32
      → (fuel : ℕ)
      → walk (suc (suc (suc fuel))) file 12 (record { fmt = none; samples = none })
        ≡ some (ok (record { fmt = some format; samples = some body }))
  walked e h fuel =
      walk-next _ file 12 _ _ 36 (omega arith) fmt_step
      ∙ (walk-next _ file 36 _ _ _ (omega arith) (data_step _ e h)
          ∙ walk-end fuel file _ _ (omega arith))

  parse_file :
      (fl : Floats)
      → d0 + 256 * d1 + 65536 * d2 + 16777216 * d3 ≡ length body
      → length body < 2 ^ 32
      → parse_wav fl file
        ≡ some (
            ok (record {
              sample_rate = r0 + 256 * r1 + 65536 * r2 + 16777216 * r3;
              channels = 1;
              samples = samples16 fl body;
            }))
  unfolding parse_wav finish decode_data
  parse_file fl e h =
      let long : leb 12 (length file) ≡ true = le→leb 12 (length file) (omega arith) in
      rw long (ap (finish_walk fl) (walked e h (length (drop 3 file))))

-- A file that is written is read back: one channel, the rate, and each sample over 32768, if the
-- samples have 16 bits, twice the rate fits 32 bits, and so does the size of the file.
pub parse_wav-write_pcm16_mono :
    (fl : Floats) (rate : ℕ) (samples : List ℕ)
    → rate < 2 ^ 31
    → 36 + length samples * 2 < 2 ^ 32
    → All (λ s. s < 65536) samples
    → parse_wav fl (write_pcm16_mono rate samples)
      ≡ some (
          ok (record { sample_rate = rate; channels = 1; samples = map (scaled fl 32768) samples }))
unfolding write_pcm16_mono
parse_wav-write_pcm16_mono fl rate samples hr hn hs =
    let same : rate % 256
          + 256 * (rate / 256 % 256)
          + 65536 * (rate / 65536 % 256)
          + 16777216 * (rate / 16777216 % 256)
        ≡ rate =
      omega arith in
    parse_file _ _ _ _ _ _ _ _ _ _ _ _ _ _ _ _ (pcm16_bytes samples) fl
      (omega (arith, length-pcm16_bytes samples)) (omega (arith, length-pcm16_bytes samples))
    ∙ rw (same, samples16-pcm16_bytes fl samples hs) refl
