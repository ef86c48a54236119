-- ===== src/Summary/Budget.antt =====
-- The prompt keeps to its budget.
use scribe_local.Common.{
  ℕ, zero, suc, ◌*◌, ◌/◌, max, ◌≤◌, ◌≡◌, refl, subst, true, false, Option, none, some, length,
  length-take, Bool-cases, inl, inr, leb, leb→le, ltb, arith,
}
use scribe_local.Common.Text.{Text, trim}
use scribe_local.Summary.Parts.{split_on_lines}
use scribe_local.Summary.Condense.{
  Chat, rounds_from, condense, notes_from, or_opening, prompt_body, max_rounds,
}

some_inj : (a b : Text) → some a ≡ some b → a ≡ b
some_inj a b h = cc

or_opening-le :
    (chat : Chat) (transcript : Text) (budget : ℕ) (o : Option Text)
    → ((notes : Text) → o ≡ some notes → length notes ≤ budget)
    → length (or_opening chat transcript budget o) ≤ budget
or_opening-le chat transcript budget none h = omega (arith, length-take budget transcript)
or_opening-le chat transcript budget (some notes) h = h notes refl

rounds_from-le :
    (chat : Chat) (left round : ℕ) (body : Text) (budget : ℕ) (out : Text)
    → rounds_from chat left round body budget ≡ some out
    → length out ≤ budget
unfolding rounds_from
rounds_from-le chat zero round body budget out h = ground (arith, length-take budget body)
rounds_from-le chat (suc left) round body budget out h =
    go (notes_from chat round 0 _ (split_on_lines body (budget * 2 / 3))) h
      (λ notes. rounds_from-le chat left (suc round) (trim notes) budget out)
  where
    go :
        (o : Option Text)
        → (elim o [
          | none ↦ none
          | some notes ↦ elim (leb (length (trim notes)) budget) [
            | true ↦ some (trim notes)
            | false ↦ rounds_from chat left (suc round) (trim notes) budget
          ]
        ])
          ≡ some out
        → ((notes : Text)
            → rounds_from chat left (suc round) (trim notes) budget ≡ some out
            → length out ≤ budget)
        → length out ≤ budget
    go none h ih = absurd (cc)
    go (some notes) h ih = elim (Bool-cases (leb (length (trim notes)) budget)) [
      | inl fits ↦
          subst (λ (o : Text). length o ≤ budget) (some_inj (trim notes) out (rw fits at h))
            (leb→le _ _ fits)
      | inr more ↦ ih notes (rw more at h)
    ]

-- Whatever the language model answers, and whichever calls fail, the body of the prompt is no longer
-- than its budget: the configured number of characters, or 2000 where that is less.
pub prompt_body-le :
    (chat : Chat) (transcript : Text) (max_prompt_chars : ℕ)
    → length (prompt_body chat transcript max_prompt_chars) ≤ max max_prompt_chars 2000
unfolding prompt_body condense
prompt_body-le chat transcript max_prompt_chars =
    elim (Bool-cases (ltb (max max_prompt_chars 2000) (length transcript))) [
      | inr short ↦ rw short (ground arith)
      | inl long ↦ rw long (
          or_opening-le chat transcript _ _ (λ notes.
            rounds_from-le chat max_rounds 0 transcript (max max_prompt_chars 2000) notes))
    ]
