-- ===== src/Examples/VoiceRuns.antt =====
-- Runs of the diarize stage and of the check of tokens, with numbers for floats.
use scribe_local.Common.{
  ℕ, ◌+◌, ◌*◌, ◌-◌, ◌≡◌, refl, true, false, List, [], ◌∷◌, ◌++◌, none, some, ◌/◌, max, ltb, leb,
  All, ◌⊎◌, ◌↔◌, ltb→lt, replicate,
}
use scribe_local.Common.Text.{Text, codes}
use scribe_local.Voices.Identities.{Floats, resolve_identities}
use scribe_local.Voices.Matching.{IsMatching, IsScored, resolve_identities-IsMatching}
use scribe_local.Voices.Speakers.{SpeakerRow, Turn, row_at, run}
use scribe_local.Voices.Rows.{row_at-run}
use scribe_local.Voices.Turns.{Signal, Limits, SpeakerTurn, turn_pieces}
use scribe_local.Voices.Tiling.{IsCut, turn_pieces-IsCut}
use scribe_local.Api.Auth.{AuthState, Request, v4, require_auth, is_valid, passed}
use scribe_local.Api.Access.{IsBearer, IsTailnetUser, require_auth-passed}

abbrev counts : Floats
counts = record {
  F = ℕ;
  nought = 0;
  two = 2;
  epsilon = 0;
  add = λ a b. a + b;
  sub = λ a b. a - b;
  mul = λ a b. a * b;
  div = λ a b. a / max b 1;
  sqrt = λ a. 1;
  lt = ltb;
  le = leb;
}

abbrev two_voices : List (ℕ × List ℕ)
two_voices = (0, 3 ∷ 1 ∷ []) ∷ (1, 1 ∷ 3 ∷ []) ∷ []

resolve_identities-IsMatching_example :
    IsMatching counts (resolve_identities counts 0 0 5 two_voices two_voices)
    × All
        (IsScored counts 5 two_voices two_voices)
        (resolve_identities counts 0 0 5 two_voices two_voices)
resolve_identities-IsMatching_example =
    resolve_identities-IsMatching counts 0 0 5 two_voices two_voices

abbrev a_turn : Turn
a_turn = record { local_idx = 1; start_ms = 0; end_ms = 900 }

abbrev old_row : SpeakerRow Text
old_row = record { recording_id = 7; local_idx = 0; speaker_id = some 3; embedding = none }

row_at-run_example :
    row_at 7 1 (run (λ _ _. some 4) 7 (a_turn ∷ []) ((1, codes "e") ∷ []) (old_row ∷ [])).0
    ≡ some (record {
      recording_id = 7;
      local_idx = 1;
      speaker_id = some 4;
      embedding = some (codes "e");
    })
row_at-run_example =
    row_at-run 7 1 (λ _ _. some 4) 7 (a_turn ∷ []) ((1, codes "e") ∷ []) (old_row ∷ [])

abbrev loudness : List ℕ → ℕ
loudness [] = 0
loudness (x ∷ xs) = max x (loudness xs)

abbrev toy_signal : Signal
toy_signal = record {
  F = ℕ;
  nought = 0;
  rms = loudness;
  from_count = λ n. n;
  add = λ a b. a + b;
  mul = λ a b. a * b;
  div = λ a b. a / max b 1;
  pow = λ a b. a;
  max_of = max;
  lt = ltb;
  le = leb;
  percentile_index = λ n. n - 1;
  silence_ratio = 0;
  floor_alpha = 1;
}

abbrev whole_turn : SpeakerTurn
whole_turn = record { local_idx = 0; start_ms = 0; end_ms = 400 }

abbrev quiet_middle : List ℕ
quiet_middle = replicate 6 9 ++ replicate 6 0 ++ replicate 8 9

abbrev toy_limits : Limits
toy_limits = record { min_split_silence_ms = 60; min_piece_ms = 100 }

turn_pieces-IsCut_example :
    IsCut 100 0 400 (turn_pieces toy_signal toy_limits 50 quiet_middle whole_turn)
turn_pieces-IsCut_example =
    turn_pieces-IsCut toy_signal toy_limits 50 quiet_middle whole_turn (ltb→lt 0 100 refl)
      (ltb→lt 0 400 refl)

abbrev guarded : AuthState
guarded = record {
  require_device_token = true;
  keys = (codes "secret", codes "phone") ∷ [];
  trust_tailscale_identity = true;
  tailnet_users = codes "ann@x" ∷ [];
}

abbrev bearing : Request
bearing = record {
  authorization = some (codes "BEARER  secret");
  tailscale_user_login = some (codes "ann@x");
  peer = some (v4 10 0 0 1);
}

require_auth-passed_example : (require_auth guarded bearing ≡ passed) ↔ (
    (true ≡ false)
    ⊎ (IsTailnetUser guarded bearing
        ⊎ ((t : Text) × IsBearer bearing.authorization t × (is_valid guarded t ≡ true))))
require_auth-passed_example = require_auth-passed guarded bearing
