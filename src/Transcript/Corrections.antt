-- ===== src/Transcript/Corrections.antt =====
-- What a language model's reply can do to the lines, and where its array is found.
use scribe_local.Common.{
  ℕ, zero, suc, ◌≡◌, refl, sym, ◌∙◌, ap, subst, Bool, true, false, ◌&&◌, List, [], ◌∷◌, ◌++◌, map,
  Option, none, some, ◌==◌, Bool-cases, inl, inr, arith,
}
use scribe_local.Common.Text.{Text, trim}
use scribe_local.Transcript.Utterances.{GroupedUtterance}
use scribe_local.Transcript.Replies.{
  prefix, scan_array, first_json_array, Correction, is_close, correct_at, apply_corrections,
}

-- An utterance without its text.
abbrev pub blank : GroupedUtterance → GroupedUtterance
blank u = record u { text = [] }

blank-correct_at :
    (i : ℕ) (new : Text) (us : List GroupedUtterance)
    → map blank (correct_at i new us) ≡ map blank us
unfolding correct_at
blank-correct_at i new [] = refl
blank-correct_at zero new (u ∷ us) = elim (Bool-cases (is_close u.text new)) [
  | inl taken ↦ rw taken refl
  | inr left ↦ rw left refl
]
blank-correct_at (suc i) new (u ∷ us) = ap (λ vs. blank u ∷ vs) (blank-correct_at i new us)

-- Whatever a reply asks for, the lines keep their number, order, speakers, times and words: only
-- texts change.
pub apply_corrections-blank :
    (cs : List Correction) (us : List GroupedUtterance)
    → map blank (apply_corrections cs us).0 ≡ map blank us
unfolding apply_corrections
apply_corrections-blank [] us = refl
apply_corrections-blank (c ∷ cs) us =
    apply_corrections-blank cs (correct_at c.i (trim c.text) us)
    ∙ blank-correct_at c.i (trim c.text) us

prefix-some :
    (c : ℕ) (o : Option Text) (r : Text)
    → prefix c o ≡ some r
    → (s : Text) × (o ≡ some s) × (r ≡ c ∷ s)
prefix-some c none r h = absurd (ground arith)
prefix-some c (some s) r h = (s, refl, ground arith)

some_inj : (a b : Text) → some a ≡ some b → a ≡ b
some_inj a b h = ground arith

-- What the scan returns, scanned again with any text after it, is returned again.
scan_array-again :
    (s : Text) (in_str escape : Bool) (depth : ℕ) (out rest : Text)
    → scan_array in_str escape depth s ≡ some out
    → scan_array in_str escape depth (out ++ rest) ≡ some out
unfolding scan_array
scan_array-again [] in_str escape depth out rest h = absurd (ground arith)
scan_array-again (c ∷ s) true escape depth out rest h =
    let (tail, e, same) = prefix-some c _ out h in
    subst (λ o. scan_array true escape depth (o ++ rest) ≡ some o) (sym same)
      (ap (prefix c) (scan_array-again s _ _ depth tail rest e))
scan_array-again (c ∷ s) false escape depth out rest h =
    elim (Bool-cases ((c == b']') && (depth == 1))) [
      | inl ends ↦
          subst (λ o. scan_array false escape depth (o ++ rest) ≡ some o)
            (some_inj (c ∷ []) out (rw ends at h)) (rw ends refl)
      | inr on ↦
          let (tail, e, same) = prefix-some c _ out (rw on at h) in
          subst (λ o. scan_array false escape depth (o ++ rest) ≡ some o) (sym same)
            (rw on (ap (prefix c) (scan_array-again s _ _ _ tail rest e)))
    ]

-- An array that is found in a reply is found again, and is the same, with any other text after it.
pub first_json_array-again :
    (s out rest : Text) → first_json_array s ≡ some out → first_json_array (out ++ rest) ≡ some out
unfolding first_json_array
first_json_array-again [] out rest h = absurd (ground arith)
first_json_array-again (c ∷ s) out rest h = elim (Bool-cases (c == b'[')) [
  | inl opens ↦
      let (tail, e, same) = prefix-some c _ out (rw opens at h) in
      subst (λ o. first_json_array (o ++ rest) ≡ some o) (sym same)
        (rw opens (ap (prefix c) (scan_array-again s false false 1 tail rest e)))
  | inr later ↦ first_json_array-again s out rest (rw later at h)
]
