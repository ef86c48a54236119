-- ===== src/Summary/Chunks.antt =====
-- What the parts of a transcript keep of it.
use mathlib.Core.List.{append-nil, append_assoc}
use scribe_local.Common.{
  ℕ, ◌+◌, ◌≤◌, ◌≡◌, refl, sym, ap, subst, ◌∙◌, true, false, List, [], ◌∷◌, ◌++◌, length,
  length-append, All, Any, ◌⊎◌, inl, inr, Bool-cases, if◌then◌else◌, arith,
}
use scribe_local.Common.Text.{Text, trim}
use scribe_local.Summary.Parts.{newline, is_empty, is_full, lines, parts_from, split_on_lines}

abbrev pub concat : List Text → Text
concat [] = []
concat (p ∷ ps) = p ++ concat ps

-- The lines, each with its end.
abbrev pub unlines : List Text → Text
unlines [] = []
unlines (l ∷ ls) = (l ++ newline ∷ []) ++ unlines ls

empty_lem : (s : Text) → is_empty s ≡ true → s ≡ []
empty_lem [] h = refl
empty_lem (c ∷ s) h = absurd (cc)

trim_nil : trim [] ≡ []
unfolding trim
trim_nil = refl

concat-parts_from :
    (budget : ℕ) (current : Text) (ls : List Text)
    → (tail : Text) × (trim tail ≡ [])
      × (concat (parts_from budget current ls) ++ tail ≡ current ++ unlines ls)
unfolding parts_from
concat-parts_from budget current [] = elim (Bool-cases (is_empty (trim current))) [
  | inl blank ↦ rw blank (current, empty_lem (trim current) blank, sym (append-nil current))
  | inr text ↦ rw text ([], trim_nil, append-nil (current ++ []))
]
concat-parts_from budget current (l ∷ ls) = elim (Bool-cases (is_full current l budget)) [
  | inl full ↦
      let (tail, blank, same) = concat-parts_from budget (l ++ newline ∷ []) ls in
      rw full (
        tail,
        blank,
        append_assoc current (concat (parts_from budget (l ++ newline ∷ []) ls)) tail
            ∙ ap (λ s. current ++ s) same,
      )
  | inr room ↦
      let (tail, blank, same) = concat-parts_from budget (current ++ (l ++ newline ∷ [])) ls in
      rw room (tail, blank, same ∙ append_assoc current (l ++ newline ∷ []) (unlines ls))
]

-- A part keeps to the budget, or is a single line.
abbrev pub Fits : ℕ → List Text → Text → Type 0
Fits budget ls p = (length p ≤ budget) ⊎ Any (λ l. p ≡ l ++ newline ∷ []) ls

room-cases :
    (current l : Text) (budget : ℕ)
    → is_full current l budget ≡ false
    → (current ≡ []) ⊎ (length current + (length l + 1) ≤ budget)
room-cases [] l budget h = inl refl
room-cases (c ∷ current) l budget h = inr (ground arith)

full-Fits :
    (current l : Text) (budget : ℕ) (all : List Text)
    → is_full current l budget ≡ true
    → (current ≡ []) ⊎ Fits budget all current
    → Fits budget all current
full-Fits current l budget all h (inr f) = f
full-Fits [] l budget all h (inl e) = absurd (cc)
full-Fits (c ∷ current) l budget all h (inl e) = absurd (cc)

parts_from-Fits :
    (budget : ℕ) (current : Text) (all ls : List Text)
    → All (λ l. Any (λ m. l ++ newline ∷ [] ≡ m ++ newline ∷ []) all) ls
    → (current ≡ []) ⊎ Fits budget all current
    → All (Fits budget all) (parts_from budget current ls)
unfolding parts_from
parts_from-Fits budget [] all [] h c = rw trim_nil tt
parts_from-Fits budget (x ∷ current) all [] h c =
    elim (Bool-cases (is_empty (trim (x ∷ current)))) [
      | inl blank ↦ rw blank tt
      | inr text ↦ rw text (fits c, tt)
    ]
  where
    fits : ((x ∷ current) ≡ []) ⊎ Fits budget all (x ∷ current) → Fits budget all (x ∷ current)
    fits (inl e) = absurd (cc)
    fits (inr f) = f
parts_from-Fits budget current all (l ∷ ls) (h, hs) c =
    elim (Bool-cases (is_full current l budget)) [
      | inl full ↦ rw full (
        full-Fits current l budget all full c,
        parts_from-Fits budget (l ++ newline ∷ []) all ls hs (inr (inr h)),
      )
      | inr room ↦ rw room (
          parts_from-Fits budget (current ++ (l ++ newline ∷ [])) all ls hs
            (inr (joined (room-cases current l budget room))))
    ]
  where
    joined :
        (current ≡ []) ⊎ (length current + (length l + 1) ≤ budget)
        → Fits budget all (current ++ (l ++ newline ∷ []))
    joined (inl e) =
        subst (λ (s : Text). Fits budget all (s ++ (l ++ newline ∷ []))) (sym e) (inr h)
    joined (inr k) = inl (
        omega (
          arith,
          length-append {0} current (l ++ newline ∷ []),
          length-append {0} l (newline ∷ []),
        ))

Any-more : {P Q : Text → Type 0} (ls : List Text) → ((l : Text) → P l → Q l) → Any P ls → Any Q ls
Any-more [] f a = a
Any-more (l ∷ ls) f (inl p) = inl (f l p)
Any-more (l ∷ ls) f (inr a) = inr (Any-more ls f a)

All-members :
    (ls all : List Text)
    → ((l : Text) → Any (λ m. m ≡ l) ls → Any (λ m. m ≡ l) all)
    → All (λ l. Any (λ m. l ++ newline ∷ [] ≡ m ++ newline ∷ []) all) ls
All-members [] all f = tt
All-members (l ∷ ls) all f = (
  Any-more all (λ m e. ap (λ (s : Text). s ++ newline ∷ []) (sym e)) (f l (inl refl)),
  All-members ls all (λ m a. f m (inr a)),
)

-- Splitting leaves a text as its one part, and then it is all white space; or the parts are, one after
-- another, the lines of the text with their ends, less white space at the very end, and each part
-- keeps to the budget or is a single line.
pub split_on_lines-cases :
    (text : Text) (budget : ℕ)
    → ((trim (unlines (lines text)) ≡ []) × (split_on_lines text budget ≡ text ∷ []))
      ⊎ ((tail : Text) × (trim tail ≡ [])
          × (concat (split_on_lines text budget) ++ tail ≡ unlines (lines text))
          × All (Fits budget (lines text)) (split_on_lines text budget))
unfolding split_on_lines
split_on_lines-cases text budget =
    go (parts_from budget [] (lines text)) (concat-parts_from budget [] (lines text)) (
      parts_from-Fits budget [] (lines text) (lines text)
        (All-members (lines text) (lines text) (λ l a. a)) (inl refl))
  where
    go :
        (parts : List Text)
        → (tail : Text) × (trim tail ≡ []) × (concat parts ++ tail ≡ unlines (lines text))
        → All (Fits budget (lines text)) parts
        → ((trim (unlines (lines text)) ≡ [])
            × ((if is_empty parts then text ∷ [] else parts) ≡ text ∷ []))
          ⊎ ((tail : Text) × (trim tail ≡ [])
              × (concat (if is_empty parts then text ∷ [] else parts) ++ tail
                  ≡ unlines (lines text))
              × All (Fits budget (lines text)) (if is_empty parts then text ∷ [] else parts))
    go [] (tail, blank, same) fits = inl (ap trim (sym same) ∙ blank, refl)
    go (p ∷ ps) (tail, blank, same) fits = inr (tail, blank, same, fits)
