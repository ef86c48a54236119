-- ===== src/Voices/Turns.antt =====
-- `split_turns_at_silence` and `split_evenly` of crates/scribe-asr/src/real/diarize.rs. The arithmetic
-- of `f32` is a record. Times are not negative; the environment's overrides are an argument.
use scribe_local.Common.{
  ℕ, zero, suc, ◌+◌, ◌-◌, ◌*◌, ◌/◌, min, max, Bool, true, false, ◌&&◌, ◌||◌, List, [], ◌∷◌, ◌++◌,
  Option, none, some, ltb, leb, ◌==◌, if◌then◌else◌, length, take, drop, map, get_elem?,
}

pub record SpeakerTurn : Type 0 where
  pub local_idx : ℕ
  pub start_ms : ℕ
  pub end_ms : ℕ

-- `rms` is the energy of a frame, `percentile_index` the index `(n - 1) * SPEECH_PERCENTILE`.
pub record Signal : Type 1 where
  pub F : Type 0
  pub nought : F
  pub rms : List F → F
  pub from_count : ℕ → F
  pub add : F → F → F
  pub mul : F → F → F
  pub div : F → F → F
  pub pow : F → F → F
  pub max_of : F → F → F
  pub lt : F → F → Bool
  pub le : F → F → Bool
  pub percentile_index : ℕ → ℕ
  pub silence_ratio : F
  pub floor_alpha : F

pub record Limits : Type 0 where
  pub min_split_silence_ms : ℕ
  pub min_piece_ms : ℕ

abbrev pub silence_frame_ms : ℕ
silence_frame_ms = 20

-- `split_evenly` from the `i`th piece on.
unfoldable pub even_pieces : ℕ → ℕ → ℕ → ℕ → ℕ → List (ℕ × ℕ)
even_pieces start len pieces zero i = []
even_pieces start len pieces (suc left) i =
    (start + len * i / pieces, start + len * (i + 1) / pieces)
    ∷ even_pieces start len pieces left (i + 1)

unfoldable pub split_evenly : ℕ → ℕ → ℕ → List (ℕ × ℕ)
unfolding even_pieces
split_evenly start end max_len =
    let len = end - start in
    let pieces = (len + (max_len - 1)) / max_len in
    if leb end start || (max_len == 0)
    then (start, end) ∷ []
    else even_pieces start len pieces pieces 0

-- The cut in the middle of the quiet run from `from` up to `i`, if it is long enough.
abbrev pub cut_of : ℕ → ℕ → ℕ → Option ℕ → List ℕ
cut_of min_run start_ms i none = []
cut_of min_run start_ms i (some from) =
    if leb min_run (i - from)
    then (start_ms + (from + (i - from) / 2) * silence_frame_ms) ∷ []
    else []

abbrev pub open_run : ℕ → Option ℕ → Option ℕ
open_run i none = some i
open_run i (some from) = some from

-- A cut is kept if the piece before it is long enough.
unfoldable pub keep_cuts : ℕ → ℕ → List ℕ → List ℕ
keep_cuts min_piece last [] = []
keep_cuts min_piece last (cut ∷ cuts) =
    let rest = keep_cuts min_piece (if leb (last + min_piece) cut then cut else last) cuts in
    if leb (last + min_piece) cut then cut ∷ rest else rest

abbrev pub is_empty {ℓ} : {A : Type ℓ} → List A → Bool
is_empty [] = true
is_empty (x ∷ xs) = false

-- The last cuts go while the piece after them is too short.
unfoldable pub drop_slivers : ℕ → ℕ → List ℕ → List ℕ
drop_slivers min_piece end_ms [] = []
drop_slivers min_piece end_ms (cut ∷ cuts) =
    let rest = drop_slivers min_piece end_ms cuts in
    if is_empty rest && ltb end_ms (cut + min_piece) then [] else cut ∷ rest

abbrev pub emit : ℕ → ℕ → List (ℕ × ℕ) → List (ℕ × ℕ)
emit start_ms end_ms rest = if ltb start_ms end_ms then (start_ms, end_ms) ∷ rest else rest

-- The pieces between the cuts.
unfoldable pub pieces_from : ℕ → ℕ → List ℕ → List (ℕ × ℕ)
pieces_from piece_start end_ms [] = emit piece_start end_ms []
pieces_from piece_start end_ms (cut ∷ cuts) =
    let rest = pieces_from (if ltb piece_start cut then cut else piece_start) end_ms cuts in
    if ltb piece_start cut then emit piece_start cut rest else rest

-- The pieces of a turn, from the cuts that its silences suggest.
unfoldable pub cut_turn : ℕ → ℕ → ℕ → List ℕ → List (ℕ × ℕ)
unfolding keep_cuts drop_slivers pieces_from
cut_turn min_piece start_ms end_ms cuts =
    pieces_from start_ms end_ms (drop_slivers min_piece end_ms (keep_cuts min_piece start_ms cuts))

-- Each piece has an index of its own.
unfoldable pub number_from : ℕ → List (ℕ × ℕ) → List SpeakerTurn
number_from i [] = []
number_from i ((start, end) ∷ pieces) =
    record { local_idx = i; start_ms = start; end_ms = end } ∷ number_from (i + 1) pieces

module _ (sg : Signal) where
  open sg use {
    F, nought, rms, from_count, add, mul, div, pow, max_of, lt, le, percentile_index, silence_ratio,
    floor_alpha,
  }

  -- `chunks(frame)`; a frame is not empty, so as many rounds as samples are enough.
  unfoldable pub chunks : ℕ → ℕ → List F → List (List F)
  chunks zero frame samples = []
  chunks (suc n) frame [] = []
  chunks (suc n) frame (x ∷ samples) =
      take frame (x ∷ samples) ∷ chunks n frame (drop frame (x ∷ samples))

  unfoldable pub sum_from : F → List F → F
  sum_from acc [] = acc
  sum_from acc (x ∷ xs) = sum_from (add acc x) xs

  unfoldable pub insert_value : F → List F → List F
  insert_value x [] = x ∷ []
  insert_value x (y ∷ ys) = let rest = insert_value x ys in if lt y x then y ∷ rest else x ∷ y ∷ ys

  unfoldable pub sort_values : List F → List F
  unfolding insert_value
  sort_values [] = []
  sort_values (x ∷ xs) = insert_value x (sort_values xs)

  abbrev or_nought : Option F → F
  or_nought none = nought
  or_nought (some x) = x

  -- The level below which a frame is silent: the higher of one relative to the mean and one above the
  -- noise floor.
  unfoldable pub threshold_of : List F → F
  unfolding sum_from sort_values
  threshold_of energies =
      let mean = div (sum_from nought energies) (from_count (length energies)) in
      let sorted = sort_values energies in
      let floor = or_nought (get_elem? sorted 0) in
      let speech = or_nought (get_elem? sorted (percentile_index (length sorted))) in
      let adaptive =
        if lt nought floor && lt floor speech
        then mul floor (pow (div speech floor) floor_alpha)
        else nought in
      max_of (mul mean silence_ratio) adaptive

  -- The cuts in the quiet runs, from the `i`th frame on; `run` is where the open run began.
  unfoldable pub cuts_from : F → ℕ → ℕ → ℕ → Option ℕ → List F → List ℕ
  cuts_from threshold min_run start_ms i run [] = cut_of min_run start_ms i run
  cuts_from threshold min_run start_ms i run (e ∷ es) =
      let rest =
        cuts_from threshold min_run start_ms (i + 1)
          (if le e threshold then open_run i run else none) es in
      if le e threshold then rest else cut_of min_run start_ms i run ++ rest

  unfoldable pub turn_pieces : Limits → ℕ → List F → SpeakerTurn → List (ℕ × ℕ)
  unfolding chunks threshold_of cuts_from cut_turn
  turn_pieces lim sr samples turn =
      let frame = max (silence_frame_ms * sr / 1000) 1 in
      let min_run = max (lim.min_split_silence_ms / silence_frame_ms) 1 in
      let start = turn.start_ms * sr / 1000 in
      let end = min (max turn.end_ms turn.start_ms * sr / 1000) (length samples) in
      let energies =
        map rms (chunks (end - start) frame (take (end - start) (drop start samples))) in
      if leb end start || ltb (end - start) (frame * 2)
      then emit turn.start_ms turn.end_ms []
      else cut_turn lim.min_piece_ms turn.start_ms turn.end_ms
          (cuts_from (threshold_of energies) min_run turn.start_ms 0 none energies)

  unfoldable pub all_pieces : Limits → ℕ → List F → List SpeakerTurn → List (ℕ × ℕ)
  unfolding turn_pieces
  all_pieces lim sr samples [] = []
  all_pieces lim sr samples (t ∷ ts) = turn_pieces lim sr samples t ++ all_pieces lim sr samples ts

  unfoldable pub split_turns_at_silence : Limits → ℕ → List F → List SpeakerTurn → List SpeakerTurn
  unfolding all_pieces number_from
  split_turns_at_silence lim sr samples turns = number_from 0 (all_pieces lim sr samples turns)
