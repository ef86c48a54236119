-- ===== src/Speech/Wav.antt =====
-- crates/scribe-asr/src/wav.rs. Bytes are numbers below 256, offsets are those of a 64-bit machine,
-- and the arithmetic of `f32` is a record.
use scribe_local.Common.{
  ℕ, zero, suc, ◌+◌, ◌-◌, ◌*◌, ◌%◌, ◌^◌, min, Bool, true, false, not, ◌&&◌, ◌||◌, List, [], ◌∷◌,
  Option, none, some, ltb, leb, ◌==◌, if◌then◌else◌, length, take, drop, map,
}
use scribe_local.Common.Int.{ℤ, pos, negsuc}
use scribe_local.Common.Text.{codes, text_eq}

abbrev pub Bytes : Type 0
Bytes = List ℕ

pub data WavError : Type 0 where
  not_riff unexpected_end fmt_too_small chunk_overflow missing_fmt missing_data : WavError
  zero_channels unsupported_format unsupported_depth : WavError

pub data Result {ℓ} (A : Type ℓ) : Type ℓ where
  ok : A → Result A
  err : WavError → Result A

infixl 5 ◌>>=◌
abbrev pub ◌>>=◌ {ℓ κ} : {A : Type ℓ} {B : Type κ} → Result A → (A → Result B) → Result B
ok a >>= f = f a
err e >>= f = err e

abbrev pub ok_or {ℓ} : {A : Type ℓ} → Option A → WavError → Result A
ok_or none e = err e
ok_or (some a) e = ok a

-- The operations of `f32`: its bits, a conversion, the arithmetic and the sum of a slice.
pub record Floats : Type 1 where
  pub F : Type 0
  pub from_bits : ℕ → F
  pub from_int : ℤ → F
  pub sub : F → F → F
  pub div : F → F → F
  pub sum : List F → F

pub record WavFormat : Type 0 where
  pub audio_format : ℕ
  pub channels : ℕ
  pub sample_rate : ℕ
  pub bits : ℕ

abbrev pub u16_of : Bytes → Result ℕ
u16_of (a ∷ b ∷ []) = ok (a + 256 * b)
u16_of _ = err unexpected_end

abbrev pub u32_of : Bytes → Result ℕ
u32_of (a ∷ b ∷ c ∷ d ∷ []) = ok (a + 256 * b + 65536 * c + 16777216 * d)
u32_of _ = err unexpected_end

unfoldable pub read_u16 : Bytes → ℕ → Result ℕ
read_u16 b off = u16_of (take 2 (drop off b))

unfoldable pub read_u32 : Bytes → ℕ → Result ℕ
read_u32 b off = u32_of (take 4 (drop off b))

unfoldable pub read_fmt : Bytes → Result WavFormat
unfolding read_u16 read_u32
read_fmt body = do
  audio_format ← read_u16 body 0
  channels ← read_u16 body 2
  sample_rate ← read_u32 body 4
  bits ← read_u16 body 14
  ok (record {
    audio_format = audio_format;
    channels = channels;
    sample_rate = sample_rate;
    bits = bits;
  })

unfoldable pub parse_fmt : Bytes → Result WavFormat
unfolding read_fmt
parse_fmt body = if ltb (length body) 16 then err fmt_too_small else read_fmt body

-- The last `fmt ` and `data` chunks so far.
pub record Seen : Type 0 where
  pub fmt : Option WavFormat
  pub samples : Option Bytes

unfoldable pub take_chunk : Bytes → Bytes → Seen → Result Seen
unfolding parse_fmt
take_chunk id body seen =
    if text_eq id (codes "fmt ")
    then (parse_fmt body >>= λ f. ok (record seen { fmt = some f }))
    else if text_eq id (codes "data")
    then ok (record seen { samples = some body })
    else ok seen

abbrev pub usize_bound : ℕ
usize_bound = 2 ^ 64

-- The body of a chunk is cut off at the end of the file.
abbrev pub body_at : Bytes → ℕ → ℕ → Bytes
body_at b start size = take (min (start + size) (length b) - start) (drop start b)

-- The chunk at `p`: what is seen after it, and where the next one starts. A chunk of an odd size is
-- followed by a pad byte.
unfoldable pub chunk_step : Bytes → ℕ → Seen → Result (Seen × ℕ)
unfolding read_u32 take_chunk
chunk_step b p seen = do
  size ← read_u32 b (p + 4)
  seen' ← take_chunk (take 4 (drop p b)) (body_at b (p + 8) size) seen
  let next = p + (8 + size + size % 2)
  if ltb next usize_bound then ok (seen', next) else err chunk_overflow

-- The loop over the chunks from `p`. `none` means that the fuel has run out.
unfoldable pub walk : ℕ → Bytes → ℕ → Seen → Option (Result Seen)
unfolding chunk_step
walk zero b p seen = none
walk (suc fuel) b p seen = elim (leb (p + 8) (length b)) [
  | false ↦ some (ok seen)
  | true ↦ elim (chunk_step b p seen) [
    | err e ↦ some (err e)
    | ok (seen', next) ↦ walk fuel b next seen'
  ]
]

-- Two's complement of `2 * half` values.
abbrev pub signed : ℕ → ℕ → ℤ
signed half v = if ltb v half then pos v else negsuc (2 * half - v - 1)

module _ (fl : Floats) where
  open fl use {F, from_bits, from_int, sub, div, sum}

  -- A two's complement value over the greatest magnitude.
  abbrev pub scaled : ℕ → ℕ → F
  scaled half v = div (from_int (signed half v)) (from_int (pos half))

  unfoldable pub floats32 : Bytes → List F
  floats32 (a ∷ b ∷ c ∷ d ∷ r) = from_bits (a + 256 * b + 65536 * c + 16777216 * d) ∷ floats32 r
  floats32 _ = []

  unfoldable pub samples16 : Bytes → List F
  samples16 (a ∷ b ∷ r) = scaled 32768 (a + 256 * b) ∷ samples16 r
  samples16 _ = []

  unfoldable pub samples24 : Bytes → List F
  samples24 (a ∷ b ∷ c ∷ r) = scaled 8388608 (a + 256 * b + 65536 * c) ∷ samples24 r
  samples24 _ = []

  unfoldable pub samples32 : Bytes → List F
  samples32 (a ∷ b ∷ c ∷ d ∷ r) =
      scaled 2147483648 (a + 256 * b + 65536 * c + 16777216 * d) ∷ samples32 r
  samples32 _ = []

  unfoldable pub sample8 : ℕ → F
  sample8 b = div (sub (from_int (pos b)) (from_int (pos 128))) (from_int (pos 128))

  unfoldable pub decode_samples : Bytes → ℕ → Bool → Result (List F)
  unfolding floats32 samples16 samples24 samples32 sample8
  decode_samples bytes bits true = if bits == 32 then ok (floats32 bytes) else err unsupported_depth
  decode_samples bytes bits false =
      if bits == 8
      then ok (map sample8 bytes)
      else if bits == 16
      then ok (samples16 bytes)
      else if bits == 24
      then ok (samples24 bytes)
      else if bits == 32
      then ok (samples32 bytes)
      else err unsupported_depth

  -- `chunks_exact(ch)`: as many rounds as there are samples are enough, since `ch` is not 0.
  unfoldable pub frames : ℕ → ℕ → List F → List (List F)
  frames zero ch xs = []
  frames (suc n) ch xs =
      let rest = frames n ch (drop ch xs) in if ltb (length xs) ch then [] else take ch xs ∷ rest

  unfoldable pub downmix_to_mono : List F → ℕ → List F
  unfolding frames
  downmix_to_mono interleaved channels =
      if leb channels 1
      then interleaved
      else map (λ frame. div (sum frame) (from_int (pos channels)))
          (frames (length interleaved) channels interleaved)

  pub record WavData : Type 0 where
    pub sample_rate : ℕ
    pub channels : ℕ
    pub samples : List F

  abbrev pub is_supported : ℕ → Bool
  is_supported audio_format =
      (audio_format == 3) || ((audio_format == 1) || (audio_format == 0xfffe))

  unfoldable pub decode_data : WavFormat → Bytes → Result WavData
  unfolding decode_samples downmix_to_mono
  decode_data f bytes =
      if f.channels == 0
      then err zero_channels
      else if not (is_supported f.audio_format)
      then err unsupported_format
      else (decode_samples bytes f.bits (f.audio_format == 3) >>= λ interleaved. ok (record {
        sample_rate = f.sample_rate;
        channels = f.channels;
        samples = downmix_to_mono interleaved f.channels;
      }))

  -- From the chunks that were found.
  unfoldable pub finish : Seen → Result WavData
  unfolding decode_data
  finish seen = do
    f ← ok_or seen.fmt missing_fmt
    bytes ← ok_or seen.samples missing_data
    decode_data f bytes

  abbrev pub finish_walk : Option (Result Seen) → Option (Result WavData)
  finish_walk none = none
  finish_walk (some r) = some (r >>= finish)

  abbrev pub is_riff : Bytes → Bool
  is_riff b =
      leb 12 (length b)
      && text_eq (take 4 b) (codes "RIFF")
      && text_eq (take 4 (drop 8 b)) (codes "WAVE")

  -- A chunk takes eight bytes at least, so the length of the file is fuel enough.
  unfoldable pub parse_wav : Bytes → Option (Result WavData)
  unfolding walk finish
  parse_wav b =
      if not (is_riff b)
      then some (err not_riff)
      else finish_walk (walk (length b) b 12 (record { fmt = none; samples = none }))

-- `to_le_bytes`
