-- ===== src/Speech/WavWriter.antt =====
-- `write_pcm16_mono` of crates/scribe-asr/src/wav.rs, which the tests of that crate write with.
use scribe_local.Common.{ℕ, ◌+◌, ◌*◌, ◌/◌, ◌%◌, ◌^◌, List, [], ◌∷◌, ◌++◌, length}
use scribe_local.Common.Text.{codes}
use scribe_local.Speech.Wav.{Bytes}

abbrev pub le16 : ℕ → Bytes
le16 n = (n % 256) ∷ (n / 256 % 256) ∷ []

abbrev pub le32 : ℕ → Bytes
le32 n = (n % 256) ∷ (n / 256 % 256) ∷ (n / 65536 % 256) ∷ (n / 16777216 % 256) ∷ []

unfoldable pub pcm16_bytes : List ℕ → Bytes
pcm16_bytes [] = []
pcm16_bytes (s ∷ ss) = (s % 256) ∷ (s / 256 % 256) ∷ pcm16_bytes ss

-- A sample is its 16 bits.
unfoldable pub write_pcm16_mono : ℕ → List ℕ → Bytes
unfolding pcm16_bytes
write_pcm16_mono sample_rate samples =
    let data_len = length samples * 2 % 2 ^ 32 in
    let byte_rate = sample_rate * 2 % 2 ^ 32 in
    codes "RIFF"
    ++ (le32 (36 + data_len)
        ++ (codes "WAVE"
            ++ (codes "fmt "
                ++ (le32 16
                    ++ (le16 1
                        ++ (le16 1
                            ++ (le32 sample_rate
                                ++ (le32 byte_rate
                                    ++ (le16 2
                                        ++ (le16 16
                                            ++ (codes "data"
                                                ++ (le32 data_len ++ pcm16_bytes samples))))))))))))
