-- ===== src/Index/Coverage.antt =====
-- The windows over a long utterance come to an end and miss no word.
use scribe_local.Common.{
  ℕ, zero, suc, ◌+◌, ◌-◌, min, ◌≤◌, ◌<◌, ◌≡◌, refl, ap, ◌∙◌, Bool, true, List, [], ◌∷◌, some, ltb,
  leb, filter, Any, Bool-cases, leb→le, inl, inr, ◌⊎◌, arith,
}
use native.Mathlib.Decide.{dec_lt}
use scribe_local.Index.Windows.{
  Word, Utterance, PendingChunk, in_window, chunk_of, push_chunk, windows_from, window_utterance,
  window_ms, window_overlap_ms,
}

-- Some chunk of `out` is made of words of the utterance among which `w` is.
abbrev pub Covers : Utterance → Word → List PendingChunk → Type 0
Covers u w out =
    Any (λ c. (v : Word) × (vs : List Word) × Any (λ x. x ≡ w) (v ∷ vs) × (c ≡ chunk_of u v vs)) out

filter-Any :
    (p : Word → Bool) (w : Word) (ws : List Word)
    → p w ≡ true
    → Any (λ x. x ≡ w) ws
    → Any (λ x. x ≡ w) (filter p ws)
filter-Any p w [] h m = absurd m
filter-Any p w (x ∷ ws) h (inl e) = rw (ap p e ∙ h) (inl e)
filter-Any p w (x ∷ ws) h (inr m) = elim (Bool-cases (p x)) [
  | inl taken ↦ rw taken (inr (filter-Any p w ws h m))
  | inr left ↦ rw left (filter-Any p w ws h m)
]

push_chunk-Covers :
    (u : Utterance) (w : Word) (ws : List Word) (rest : List PendingChunk)
    → Any (λ x. x ≡ w) ws ⊎ Covers u w rest
    → Covers u w (push_chunk u ws rest)
push_chunk-Covers u w [] rest (inl m) = absurd m
push_chunk-Covers u w [] rest (inr c) = c
push_chunk-Covers u w (v ∷ ws) rest (inl m) = inl (v, ws, m, refl)
push_chunk-Covers u w (v ∷ ws) rest (inr c) = inr c

-- The words that overlap the utterance from `from` on.
abbrev pub IsWithin : Utterance → ℕ → Word → Type 0
IsWithin u from w = (from < w.end_ms) × (w.start_ms < u.end_ms) × (w.start_ms ≤ w.end_ms)

captured :
    (u : Utterance) (from upto : ℕ) (w : Word)
    → Any (λ x. x ≡ w) u.words
    → from < w.end_ms
    → w.start_ms < upto
    → Any (λ x. x ≡ w) (filter (in_window from upto) u.words)
captured u from upto w m a b = filter-Any (in_window from upto) w u.words (ground arith) m

-- A word of the utterance is in the window up to `upto`, or is left for the windows that follow.
now_or_later :
    (u : Utterance) (from upto next : ℕ) (w : Word)
    → next ≤ upto
    → 0 < upto - next
    → Any (λ x. x ≡ w) u.words
    → IsWithin u from w
    → Any (λ x. x ≡ w) (filter (in_window from upto) u.words) ⊎ IsWithin u next w
now_or_later u from upto next w n n' m (a, b, c) = elim (dec_lt w.start_ms upto) [
  | yes early ↦ inl (captured u from upto w m a early)
  | no late ↦ inr (omega arith, b, c)
]

windows_from-Covers :
    (fuel : ℕ) (u : Utterance) (from : ℕ)
    → 0 < fuel
    → u.end_ms < from + fuel
    → from < u.end_ms
    → (out : List PendingChunk) × (windows_from fuel u from ≡ some out)
      × ((w : Word) → Any (λ x. x ≡ w) u.words → IsWithin u from w → Covers u w out)
unfolding windows_from
windows_from-Covers zero u from f h g = absurd (omega arith)
windows_from-Covers (suc fuel) u from f h g = elim (Bool-cases (ltb from u.end_ms)) [
  | inr over ↦ absurd (ground arith)
  | inl left ↦
      let upto = min (from + window_ms) u.end_ms in
      let words = filter (in_window from upto) u.words in
      elim (Bool-cases (leb u.end_ms upto)) [
        | inl at_end ↦
            let e : upto ≡ u.end_ms = omega (arith, leb→le u.end_ms upto at_end) in
            (
              push_chunk u words [],
              rw (left, windows_from) (rw at_end refl),
              λ w m k.
                  push_chunk-Covers u w words []
                    (inl (captured u from upto w m k.0 (last_window w upto k e))),
            )
        | inr more ↦
            let far : upto < u.end_ms = ground arith in
            let e : upto ≡ from + window_ms = omega arith in
            let rest =
              windows_from-Covers fuel u (upto - window_overlap_ms) (omega arith) (omega arith)
                (omega arith) in
            (
              push_chunk u words rest.0,
              rw (left, windows_from) (rw (more, rest.1) refl),
              λ w m k. push_chunk-Covers u w words rest.0 (
                  both
                    (now_or_later u from upto (upto - window_overlap_ms) w (omega arith)
                      (omega arith) m k)
                    (rest.2 w m)),
            )
      ]
]
  where
    last_window : (w : Word) (upto : ℕ) → IsWithin u from w → upto ≡ u.end_ms → w.start_ms < upto
    last_window w upto (a, b, c) e = omega arith

    both : {A B C : Type 0} → A ⊎ B → (B → C) → A ⊎ C
    both (inl a) f = inl a
    both (inr b) f = inr (f b)

-- Splitting an utterance that ends after its start comes to an end, and every word of it that does
-- not end before it starts, and overlaps it, is among the words of a chunk.
pub window_utterance-Covers :
    (u : Utterance)
    → u.start_ms < u.end_ms
    → (out : List PendingChunk) × (window_utterance u ≡ some out)
      × ((w : Word) → Any (λ x. x ≡ w) u.words → IsWithin u u.start_ms w → Covers u w out)
unfolding window_utterance
window_utterance-Covers u h =
    windows_from-Covers (suc (u.end_ms - u.start_ms)) u u.start_ms (omega arith) (omega arith) h
