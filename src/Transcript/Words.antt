-- ===== src/Transcript/Words.antt =====
-- `overlap`, `assign_speakers` and `speaker_islands`. Times are milliseconds from the start of the
-- recording; `conf` of a word, which the stage only copies, is left out.
use scribe_local.Common.{
  ℕ, ◌+◌, ◌-◌, ◌/◌, min, max, Bool, true, false, not, ◌&&◌, ◌||◌, List, [], ◌∷◌, Option, none, some,
  ltb, leb, ◌==◌, if◌then◌else◌, map,
}
use scribe_local.Common.Text.{Text}

pub record Word : Type 0 where
  pub text : Text
  pub start_ms : ℕ
  pub end_ms : ℕ
  pub local_idx : Option ℕ

pub record TurnArtifact : Type 0 where
  pub local_idx : ℕ
  pub start_ms : ℕ
  pub end_ms : ℕ

abbrev pub i64_max : ℕ
i64_max = 9223372036854775807

-- `(min - max).max(0)`: subtraction that stops at 0.
unfoldable pub overlap : ℕ → ℕ → ℕ → ℕ → ℕ
overlap a0 a1 b0 b1 = min a1 b1 - max a0 b0

abbrev pub overlap_with : Word → TurnArtifact → ℕ
overlap_with w t = overlap w.start_ms w.end_ms t.start_ms t.end_ms

-- `*by_speaker.entry(idx).or_insert(0) += ov`
unfoldable pub add_overlap : ℕ → ℕ → List (ℕ × ℕ) → List (ℕ × ℕ)
add_overlap idx ov [] = (idx, ov) ∷ []
add_overlap idx ov ((i, n) ∷ m) =
    let rest = add_overlap idx ov m in if i == idx then (i, n + ov) ∷ m else (i, n) ∷ rest

unfoldable pub tally : Word → List TurnArtifact → List (ℕ × ℕ) → List (ℕ × ℕ)
unfolding add_overlap
tally w [] m = m
tally w (t ∷ ts) m =
    let ov = overlap_with w t in tally w ts (if ltb 0 ov then add_overlap t.local_idx ov m else m)

-- `b` has the greater key `(ov, Reverse(idx))`.
abbrev pub outranks : ℕ × ℕ → ℕ × ℕ → Bool
outranks b a = ltb a.1 b.1 || ((a.1 == b.1) && ltb b.0 a.0)

unfoldable pub best_from : ℕ × ℕ → List (ℕ × ℕ) → ℕ × ℕ
best_from a [] = a
best_from a (b ∷ m) = best_from (if outranks b a then b else a) m

unfoldable pub best_speaker : List (ℕ × ℕ) → Option ℕ
unfolding best_from
best_speaker [] = none
best_speaker (a ∷ m) = some (best_from a m).0

abbrev pub distance : ℕ → ℕ → ℕ
distance a b = (a - b) + (b - a)

abbrev pub midpoint_distance : Word → TurnArtifact → ℕ
midpoint_distance w t = distance ((w.start_ms + w.end_ms) / 2) ((t.start_ms + t.end_ms) / 2)

unfoldable pub nearest_from : Word → List TurnArtifact → ℕ → Option ℕ → Option ℕ
nearest_from w [] best_dist nearest = nearest
nearest_from w (t ∷ ts) best_dist nearest =
    let closer = ltb (midpoint_distance w t) best_dist in
    nearest_from w ts (if closer then midpoint_distance w t else best_dist)
      (if closer then some t.local_idx else nearest)

unfoldable pub speaker_of : Word → List TurnArtifact → Option ℕ
unfolding tally best_speaker nearest_from
speaker_of w ts = elim (best_speaker (tally w ts [])) [
  | some idx ↦ some idx
  | none ↦ nearest_from w ts i64_max none
]

unfoldable pub assign_speakers : List Word → List TurnArtifact → List Word
unfolding speaker_of
assign_speakers words [] = words
assign_speakers words (t ∷ ts) =
    map {A = Word} (λ w. record w { local_idx = speaker_of w (t ∷ ts) }) words

abbrev pub same_speaker : Option ℕ → Option ℕ → Bool
same_speaker none none = true
same_speaker (some a) (some b) = a == b
same_speaker _ _ = false

abbrev pub max_island_ms : ℕ
max_island_ms = 800

-- The run from `first` to `last`, between the words `before` and `after`, is an island.
abbrev pub is_island : Option Word → Word → Word → Word → Bool
is_island none first last after = false
is_island (some before) first last after =
    same_speaker before.local_idx after.local_idx
    && not (same_speaker before.local_idx first.local_idx)
    && leb last.end_ms (first.start_ms + max_island_ms)

-- The loop from a run that has reached `last`.
unfoldable pub islands_from : Option Word → Word → Word → List Word → ℕ
islands_from before first last [] = 0
islands_from before first last (w ∷ ws) =
    let same = same_speaker w.local_idx first.local_idx in
    let rest = islands_from (if same then before else some last) (if same then first else w) w ws in
    if not same && is_island before first last w then 1 + rest else rest

unfoldable pub speaker_islands : List Word → ℕ
unfolding islands_from
speaker_islands [] = 0
speaker_islands (w ∷ ws) = islands_from none w w ws
