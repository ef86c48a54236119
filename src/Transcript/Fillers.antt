-- ===== src/Transcript/Fillers.antt =====
-- crates/scribe-pipeline/src/fillers.rs. `char::is_alphanumeric` of Rust's library is a parameter. A
-- `HashSet` of texts is the list of them.
use scribe_local.Common.{
  ℕ, ◌+◌, ◌-◌, ◌≡◌, refl, ap, Bool, true, false, not, ◌&&◌, ◌||◌, List, [], ◌∷◌, map, filter,
  reverse, length, any, if◌then◌else◌, Bool-cases, inl, inr, arith,
}
use scribe_local.Common.Text.{Text, text_eq, trim, to_ascii_lowercase}
use scribe_local.Transcript.Words.{Word}

abbrev pub is_empty {ℓ} : {A : Type ℓ} → List A → Bool
is_empty [] = true
is_empty (x ∷ xs) = false

-- `trim_start_matches`
abbrev pub drop_while : (ℕ → Bool) → Text → Text
drop_while p [] = []
drop_while p (c ∷ s) = let rest = drop_while p s in if p c then rest else c ∷ s

abbrev pub trim_matches : (ℕ → Bool) → Text → Text
trim_matches p s = reverse (drop_while p (reverse (drop_while p s)))

pub record FillerFilter : Type 0 where
  pub enabled : Bool
  pub set : List Text

module _ (is_alphanumeric : ℕ → Bool) where
  unfoldable pub normalize : Text → Text
  normalize w = to_ascii_lowercase (trim_matches (λ c. not (is_alphanumeric c)) (trim w))

  -- From `remove_fillers` and `filler_words` of the configuration.
  unfoldable pub from_config : Bool → List Text → FillerFilter
  unfolding normalize
  from_config remove_fillers filler_words = record {
    enabled = remove_fillers;
    set = filter (λ w. not (is_empty w)) (map normalize filler_words);
  }

  unfoldable pub is_filler : FillerFilter → Text → Bool
  unfolding normalize
  is_filler f word =
      let n = normalize word in f.enabled && not (is_empty n) && any (text_eq n) f.set

  unfoldable pub clean : FillerFilter → List Word → List Word × ℕ
  unfolding is_filler
  clean f words =
      let kept = filter (λ w. not (is_filler f w.text)) words in
      if not f.enabled || is_empty f.set then (words, 0) else (kept, length words - length kept)

  idle_and :
      (e b : Bool) (n : Text) (ns : List Text)
      → (not e || is_empty ns) ≡ true
      → (e && b && any (text_eq n) ns) ≡ false
  idle_and false b n ns h = refl
  idle_and true false n [] h = refl
  idle_and true true n [] h = refl
  idle_and true b n (x ∷ xs) h = absurd (ground arith)

  filter_all : (p : Word → Bool) (ws : List Word) → ((w : Word) → p w ≡ true) → filter p ws ≡ ws
  filter_all p [] h = refl
  filter_all p (w ∷ ws) h = ground (arith, h w, filter_all p ws h)

  split_count :
      (p : Word → Bool) (ws : List Word)
      → length ws ≡ length (filter (λ w. not (p w)) ws) + length (filter p ws)
  split_count p [] = refl
  split_count p (w ∷ ws) = ground (arith, split_count p ws)

  filter_none : (p : Word → Bool) (ws : List Word) → ((w : Word) → p w ≡ false) → filter p ws ≡ []
  filter_none p [] h = refl
  filter_none p (w ∷ ws) h = ground (arith, h w, filter_none p ws h)

  idle-is_filler :
      (f : FillerFilter) (w : Word)
      → (not f.enabled || is_empty f.set) ≡ true
      → is_filler f w.text ≡ false
  unfolding is_filler
  idle-is_filler f w h = idle_and f.enabled _ (normalize w.text) f.set h

  -- Cleaning removes exactly the fillers, keeps the other words in their order, and returns how many
  -- it has removed; the shortcut for a filter that is off or empty changes nothing of that.
  pub clean-filter :
      (f : FillerFilter) (words : List Word)
      → clean f words ≡ (
        filter (λ w. not (is_filler f w.text)) words,
        length (filter (λ w. is_filler f w.text) words),
      )
  unfolding clean
  clean-filter f words = elim (Bool-cases (not f.enabled || is_empty f.set)) [
    | inl idle ↦
        let none_is = λ (w : Word). idle-is_filler f w idle in
        rw
          (
            idle,
            filter_all (λ w. not (is_filler f w.text)) words (λ w. rw (none_is w) refl),
            filter_none (λ w. is_filler f w.text) words none_is,
          )
          refl
    | inr busy ↦ rw busy (
        ap (λ n. (filter (λ w. not (is_filler f w.text)) words, n))
          (omega (arith, split_count (λ w. is_filler f w.text) words)))
  ]
