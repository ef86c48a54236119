-- ===== src/Speech/Recovery.antt =====
-- A second decode of the gaps loses no word of the first, and puts the words in order.
use mathlib.Core.List.Perm
use mathlib.Core.List.{Perm, append-nil}
use scribe_local.Common.{
  ℕ, ◌<◌, ◌≡◌, refl, sym, subst, true, false, List, [], ◌∷◌, ◌++◌, Bool-cases, inl, inr, ◌⊎◌, All,
  length, ltb, lt→ltb, ◌==◌, arith,
}
use scribe_local.Speech.Tokens.{AsrWord}
use scribe_local.Speech.Decode.{
  Engine, Transcript, Result, ok, failed, ◌>>=◌, key_le, insert_word, sort_words, join_words,
  recover_gaps, recovered_transcript, decode_gaps, gaps, samples_to_ms,
}

-- The words are in the order of their start, then of their end.
abbrev pub IsSorted : List AsrWord → Type 0
IsSorted [] = Unit {0}
IsSorted (w ∷ ws) = All (λ v. key_le w v ≡ true) ws × IsSorted ws

key_le_trans : (u v w : AsrWord) → key_le u v ≡ true → key_le v w ≡ true → key_le u w ≡ true
key_le_trans u v w h k = ground arith

key_le_total : (u v : AsrWord) → key_le u v ≡ false → key_le v u ≡ true
key_le_total u v h = ground arith

All-key_le :
    (u v : AsrWord) (ws : List AsrWord)
    → key_le u v ≡ true
    → All (λ w. key_le v w ≡ true) ws
    → All (λ w. key_le u w ≡ true) ws
All-key_le u v [] h a = tt
All-key_le u v (w ∷ ws) h (a, as') = (key_le_trans u v w h a, All-key_le u v ws h as')

All-insert_word :
    (u w : AsrWord) (vs : List AsrWord)
    → key_le u w ≡ true
    → All (λ v. key_le u v ≡ true) vs
    → All (λ v. key_le u v ≡ true) (insert_word w vs)
unfolding insert_word
All-insert_word u w [] h a = (h, tt)
All-insert_word u w (v ∷ vs) h (a, as') = elim (Bool-cases (key_le w v)) [
  | inl before ↦ rw before (h, (a, as'))
  | inr after ↦ rw after (a, All-insert_word u w vs h as')
]

insert_word-IsSorted : (w : AsrWord) (vs : List AsrWord) → IsSorted vs → IsSorted (insert_word w vs)
unfolding insert_word
insert_word-IsSorted w [] h = (tt, tt)
insert_word-IsSorted w (v ∷ vs) (a, h) = elim (Bool-cases (key_le w v)) [
  | inl before ↦ rw before ((before, All-key_le w v vs before a), (a, h))
  | inr after ↦
      rw after (All-insert_word v w vs (key_le_total w v after) a, insert_word-IsSorted w vs h)
]

sort_words-IsSorted : (ws : List AsrWord) → IsSorted (sort_words ws)
unfolding sort_words
sort_words-IsSorted [] = tt
sort_words-IsSorted (w ∷ ws) = insert_word-IsSorted w (sort_words ws) (sort_words-IsSorted ws)

insert_word-perm : (w : AsrWord) (vs : List AsrWord) → Perm (insert_word w vs) (w ∷ vs)
unfolding insert_word
insert_word-perm w [] = Perm.refl (w ∷ [])
insert_word-perm w (v ∷ vs) = elim (Bool-cases (key_le w v)) [
  | inl before ↦ rw before (Perm.refl (w ∷ v ∷ vs))
  | inr after ↦ rw after (Perm.trans (Perm.cons v (insert_word-perm w vs)) (Perm.swap w v vs))
]

sort_words-perm : (ws : List AsrWord) → Perm (sort_words ws) ws
unfolding sort_words
sort_words-perm [] = Perm.refl []
sort_words-perm (w ∷ ws) =
    Perm.trans (insert_word-perm w (sort_words ws)) (Perm.cons w (sort_words-perm ws))

-- What the decode of the gaps has added.
pub record IsRecovered (first after : Transcript) (found : List AsrWord) : Type 0 where
  pub same_words : Perm after.words (first.words ++ found)
  pub in_order : (found ≡ []) ⊎ IsSorted after.words
  pub rejoined : after.text ≡ join_words after.words

recovered_transcript-IsRecovered :
    (first : Transcript) (found : List AsrWord)
    → IsRecovered first (recovered_transcript first.words found) found
recovered_transcript-IsRecovered first [] = record {
  same_words = subst (Perm first.words) (sym (append-nil first.words)) (Perm.refl first.words);
  in_order = inl refl;
  rejoined = refl;
}
recovered_transcript-IsRecovered first (w ∷ found) =
    let some_found : ltb 0 (length (w ∷ found)) ≡ true = lt→ltb _ _ (omega arith) in
    rw some_found (record {
      same_words = sort_words-perm (first.words ++ w ∷ found);
      in_order = inr (sort_words-IsSorted (first.words ++ w ∷ found));
      rejoined = refl;
    })

module _ (en : Engine) where
  found-IsRecovered :
      (first after : Transcript) (r : Result (List AsrWord))
      → (r >>= λ found. ok (recovered_transcript first.words found)) ≡ ok after
      → (found : List AsrWord) × (r ≡ ok found) × IsRecovered first after found
  found-IsRecovered first after (ok found) h =
      let same : recovered_transcript first.words found ≡ after = cc in
      (
        found,
        refl,
        subst (λ (t : Transcript). IsRecovered first t found) same
            (recovered_transcript-IsRecovered first found),
      )
  found-IsRecovered first after failed h = absurd (cc)

  -- When the gaps of a transcript are decoded again, for a length of gap that is not 0 and with no
  -- decode that fails, the words are those of the first decode and those that were found in the
  -- gaps, each as often; with any found they are in order, and the text is that of the words.
  pub recover_gaps-IsRecovered :
      (gap_ms rate : ℕ) (samples : List en.F) (first after : Transcript)
      → 0 < gap_ms
      → recover_gaps en gap_ms rate samples first ≡ ok after
      → (found : List AsrWord) × (decode_gaps en rate samples
            (gaps gap_ms (samples_to_ms (length samples) rate) 0 first.words)
          ≡ ok found)
        × IsRecovered first after found
  unfolding recover_gaps
  recover_gaps-IsRecovered gap_ms rate samples first after g h =
      let on : (gap_ms == 0) ≡ false = ground arith in found-IsRecovered first after _ (rw on at h)
