-- ===== src/Speech/Spread.antt =====
-- Words that are spread over a clip cover it.
use scribe_local.Common.{
  ℕ, suc, ◌+◌, ◌*◌, ◌/◌, ◌≤◌, ◌≡◌, refl, ap, subst, List, [], ◌∷◌, length, map, ltb, if◌then◌else◌,
  arith,
}
use scribe_local.Common.Text.{Text}
use scribe_local.Speech.Tokens.{AsrWord, split_whitespace, spread_from, spread_evenly}

-- Each word starts where the one before ends, the first at `from`, and the last ends at `upto`.
abbrev pub Tiles : ℕ → ℕ → List AsrWord → Type 0
Tiles from upto [] = Unit {0}
Tiles from upto (w ∷ []) = (w.start_ms ≡ from) × (from ≤ w.end_ms) × (w.end_ms ≡ upto)
Tiles from upto (w ∷ v ∷ ws) =
    (w.start_ms ≡ from) × (from ≤ w.end_ms) × Tiles w.end_ms upto (v ∷ ws)

spread_from-Tiles :
    (clip step i : ℕ) (ws : List Text)
    → step * i + step * length ws ≤ clip
    → Tiles (step * i) clip (spread_from clip step i ws)
unfolding spread_from
spread_from-Tiles clip step i [] h = tt
spread_from-Tiles clip step i (w ∷ []) h = (refl, omega arith, grind arith)
spread_from-Tiles clip step i (w ∷ v ∷ ws) h =
    let next : step * suc i ≡ step * i + step = grind arith in
    let room : step * suc i + step * length (v ∷ ws) ≤ clip = grind arith in
    let rest : Tiles (step * i + step) clip (spread_from clip step (suc i) (v ∷ ws)) =
      subst (λ (n : ℕ). Tiles n clip (spread_from clip step (suc i) (v ∷ ws))) next
        (spread_from-Tiles clip step (suc i) (v ∷ ws) room) in
    cons_Tiles w v ws rest
  where
    cons_Tiles :
        (w v : Text) (ws : List Text)
        → Tiles (step * i + step) clip (spread_from clip step (suc i) (v ∷ ws))
        → Tiles (step * i) clip (spread_from clip step i (w ∷ v ∷ ws))
    cons_Tiles w v [] rest = (refl, omega arith, rest)
    cons_Tiles w v (u ∷ ws) rest = (refl, omega arith, rest)

texts-spread_from :
    (clip step i : ℕ) (ws : List Text) → map (λ w. w.text) (spread_from clip step i ws) ≡ ws
unfolding spread_from
texts-spread_from clip step i [] = refl
texts-spread_from clip step i (w ∷ []) = refl
texts-spread_from clip step i (w ∷ v ∷ ws) =
    ap (λ r. w ∷ r) (texts-spread_from clip step (suc i) (v ∷ ws))

abbrev step_of : ℕ → List Text → ℕ
step_of clip parts = if ltb 0 (length parts) then clip / length parts else 0

fits :
    (clip : ℕ) (parts : List Text)
    → step_of clip parts * 0 + step_of clip parts * length parts ≤ clip
fits clip [] = omega arith
fits clip (p ∷ parts) = grind arith

times_zero : (n : ℕ) → n * 0 ≡ 0
times_zero n = omega arith

-- Without timestamps the words of the text are spread over the clip: in their order, without a gap
-- or an overlap, from its start to its end.
pub spread_evenly-Tiles :
    (text : Text) (clip_ms : ℕ)
    → (map (λ w. w.text) (spread_evenly text clip_ms) ≡ split_whitespace text)
      × Tiles 0 clip_ms (spread_evenly text clip_ms)
unfolding spread_evenly
spread_evenly-Tiles text clip_ms = (
  texts-spread_from clip_ms (step_of clip_ms (split_whitespace text)) 0 (split_whitespace text),
  subst (λ (n : ℕ). Tiles n clip_ms (spread_evenly text clip_ms))
      (times_zero (step_of clip_ms (split_whitespace text)))
      (spread_from-Tiles clip_ms (step_of clip_ms (split_whitespace text)) 0 (split_whitespace text)
        (fits clip_ms (split_whitespace text))),
)
