-- ===== src/Transcript/Tallies.antt =====
-- The tally of a word's speakers against the sum that it stands for.
use scribe_local.Common.{
  ℕ, ◌+◌, ◌<◌, ◌≡◌, refl, Bool, false, ◌||◌, List, [], ◌∷◌, ltb, ◌==◌, if◌then◌else◌, Bool-cases,
  inl, inr, arith,
}
use scribe_local.Transcript.Words.{Word, TurnArtifact, overlap_with, add_overlap, tally}

-- How long the turns of one speaker cover the word, all together.
unfoldable pub cover : Word → ℕ → List TurnArtifact → ℕ
cover w i [] = 0
cover w i (t ∷ ts) = (if t.local_idx == i then overlap_with w t else 0) + cover w i ts

abbrev pub lookup : ℕ → List (ℕ × ℕ) → ℕ
lookup i [] = 0
lookup i ((j, n) ∷ m) = let rest = lookup i m in if j == i then n else rest

abbrev pub has_key : ℕ → List (ℕ × ℕ) → Bool
has_key i [] = false
has_key i ((j, n) ∷ m) = (j == i) || has_key i m

-- Every speaker is counted once, with a cover above 0.
abbrev pub IsTally : List (ℕ × ℕ) → Type 0
IsTally [] = Unit {0}
IsTally ((j, n) ∷ m) = (has_key j m ≡ false) × (0 < n) × IsTally m

lookup-add_overlap :
    (i j ov : ℕ) (m : List (ℕ × ℕ))
    → lookup i (add_overlap j ov m) ≡ lookup i m + (if j == i then ov else 0)
unfolding add_overlap
lookup-add_overlap i j ov [] = ground arith
lookup-add_overlap i j ov ((k, n) ∷ m) = ground (arith, lookup-add_overlap i j ov m)

has_key-add_overlap :
    (i j ov : ℕ) (m : List (ℕ × ℕ)) → has_key i (add_overlap j ov m) ≡ (has_key i m || (j == i))
unfolding add_overlap
has_key-add_overlap i j ov [] = ground arith
has_key-add_overlap i j ov ((k, n) ∷ m) = ground (arith, has_key-add_overlap i j ov m)

add_overlap-IsTally :
    (j ov : ℕ) (m : List (ℕ × ℕ)) → 0 < ov → IsTally m → IsTally (add_overlap j ov m)
unfolding add_overlap
add_overlap-IsTally j ov [] pos h = (refl, pos, tt)
add_overlap-IsTally j ov ((k, n) ∷ m) pos h = elim (Bool-cases (k == j)) [
  | inl hit ↦ rw hit (h.0, omega (arith, h.1), h.2)
  | inr miss ↦
      rw miss
        (ground (arith, has_key-add_overlap k j ov m, h.0), h.1, add_overlap-IsTally j ov m pos h.2)
]

pub tally-IsTally :
    (w : Word) (ts : List TurnArtifact) (m : List (ℕ × ℕ)) → IsTally m → IsTally (tally w ts m)
unfolding tally
tally-IsTally w [] m h = h
tally-IsTally w (t ∷ ts) m h = elim (Bool-cases (ltb 0 (overlap_with w t))) [
  | inl some_cover ↦
      rw some_cover (
        tally-IsTally w ts _
          (add_overlap-IsTally t.local_idx (overlap_with w t) m (ground arith) h))
  | inr no_cover ↦ rw no_cover (tally-IsTally w ts m h)
]

pub lookup-tally :
    (w : Word) (i : ℕ) (ts : List TurnArtifact) (m : List (ℕ × ℕ))
    → lookup i (tally w ts m) ≡ lookup i m + cover w i ts
unfolding tally cover
lookup-tally w i [] m = omega arith
lookup-tally w i (t ∷ ts) m = elim (Bool-cases (ltb 0 (overlap_with w t))) [
  | inl some_cover ↦
      rw
        (
          some_cover,
          lookup-tally w i ts (add_overlap t.local_idx (overlap_with w t) m),
          lookup-add_overlap i t.local_idx (overlap_with w t) m,
        )
        (omega arith)
  | inr no_cover ↦ rw (no_cover, lookup-tally w i ts m) (ground arith)
]
