-- ===== src/Transcript/Grouping.antt =====
-- What the utterances keep of the words.
use scribe_local.Common.{
  ℕ, ◌+◌, ◌≤◌, ◌≡◌, refl, ap, max, true, List, [], ◌∷◌, ◌++◌, Option, none, some, All, All-map,
  All-append, Bool-cases, inl, inr, arith,
}
use mathlib.Core.List.{append_assoc}
use scribe_local.Transcript.Words.{Word, same_speaker}
use scribe_local.Transcript.Utterances.{
  GroupedUtterance, continues, begin, extend, group_from, group_into_utterances, max_utterance_ms,
}

abbrev pub words_of : List GroupedUtterance → List Word
words_of [] = []
words_of (u ∷ us) = u.words ++ words_of us

-- An utterance starts with its first word; all its words are of its speaker and end by its end,
-- and its end is at most the limit after its start or is the first word's own.
abbrev pub IsUtterance : GroupedUtterance → Type 0
IsUtterance u =
    (first : Word) × (more : List Word) × (u.words ≡ first ∷ more)
    × (u.start_ms ≡ first.start_ms)
    × (u.end_ms ≤ max first.end_ms (u.start_ms + max_utterance_ms))
    × All (λ w. (same_speaker u.local_idx w.local_idx ≡ true) × (w.end_ms ≤ u.end_ms)) u.words

same_speaker_refl : (s : Option ℕ) → same_speaker s s ≡ true
same_speaker_refl none = refl
same_speaker_refl (some a) = ground arith

begin-IsUtterance : (w : Word) → IsUtterance (begin w)
begin-IsUtterance w =
    (w, [], refl, refl, omega arith, ((same_speaker_refl w.local_idx, omega arith), tt))

in_limit :
    (c : GroupedUtterance) (p : ℕ) (w : Word)
    → continues c p w ≡ true
    → w.end_ms ≤ c.start_ms + max_utterance_ms
in_limit c p w h = ground arith

of_speaker :
    (c : GroupedUtterance) (p : ℕ) (w : Word)
    → continues c p w ≡ true
    → same_speaker c.local_idx w.local_idx ≡ true
of_speaker c p w h = ground arith

within : (a b c : ℕ) → a ≤ b → a ≤ max b c
within a b c h = omega arith

at_most : (a b m : ℕ) → a ≤ m → b ≤ m → max a b ≤ m
at_most a b m h k = omega arith

in_either : (b f s : ℕ) → b ≤ s → b ≤ max f s
in_either b f s h = omega arith

no_less : (a b : ℕ) → b ≤ max a b
no_less a b = omega arith

extend-IsUtterance :
    (c : GroupedUtterance) (p : ℕ) (w : Word)
    → continues c p w ≡ true
    → IsUtterance c
    → IsUtterance (extend c w)
extend-IsUtterance c p w h (first, more, words, start, end, all) = (
  first,
  more ++ w ∷ [],
  ap (λ ws. ws ++ w ∷ []) words,
  start,
  at_most c.end_ms w.end_ms _ end (in_either w.end_ms first.end_ms _ (in_limit c p w h)),
  All-append _ c.words (w ∷ [])
      (All-map _ _ c.words (λ v k. (k.0, within v.end_ms c.end_ms w.end_ms k.1)) all)
      ((of_speaker c p w h, no_less c.end_ms w.end_ms), tt),
)

group_from-IsUtterance :
    (c : GroupedUtterance) (p : ℕ) (ws : List Word)
    → IsUtterance c
    → All IsUtterance (group_from c p ws)
unfolding group_from
group_from-IsUtterance c p [] u = (u, tt)
group_from-IsUtterance c p (w ∷ ws) u = elim (Bool-cases (continues c p w)) [
  | inl on ↦ rw on (group_from-IsUtterance (extend c w) w.end_ms ws (extend-IsUtterance c p w on u))
  | inr stop ↦ rw stop (u, group_from-IsUtterance (begin w) w.end_ms ws (begin-IsUtterance w))
]

-- Every utterance starts with its first word, holds only words of its own speaker, which all end by
-- its end, and ends within the limit from its start unless its first word alone ends later.
pub group_into_utterances-IsUtterance :
    (ws : List Word) → All IsUtterance (group_into_utterances ws)
unfolding group_into_utterances
group_into_utterances-IsUtterance [] = tt
group_into_utterances-IsUtterance (w ∷ ws) =
    group_from-IsUtterance (begin w) w.end_ms ws (begin-IsUtterance w)

words_of-group_from :
    (c : GroupedUtterance) (p : ℕ) (ws : List Word) → words_of (group_from c p ws) ≡ c.words ++ ws
unfolding group_from
words_of-group_from c p [] = refl
words_of-group_from c p (w ∷ ws) = elim (Bool-cases (continues c p w)) [
  | inl on ↦
      rw (on, words_of-group_from (extend c w) w.end_ms ws) (append_assoc c.words (w ∷ []) ws)
  | inr stop ↦ rw (stop, words_of-group_from (begin w) w.end_ms ws) refl
]

-- Grouping loses, repeats and reorders no word: the words of the utterances, one after another, are
-- the words of the transcript.
pub words_of-group_into_utterances : (ws : List Word) → words_of (group_into_utterances ws) ≡ ws
unfolding group_into_utterances
words_of-group_into_utterances [] = refl
words_of-group_into_utterances (w ∷ ws) = words_of-group_from (begin w) w.end_ms ws
