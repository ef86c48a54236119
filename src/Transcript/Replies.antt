-- ===== src/Transcript/Replies.antt =====
-- `first_json_array` and the part of `correct_names` that applies a language model's reply: the
-- request, and serde's parse of the array into corrections, come before it.
use scribe_local.Common.{
  ℕ, zero, suc, ◌+◌, ◌-◌, ◌/◌, max, Bool, true, false, not, ◌&&◌, ◌||◌, List, [], ◌∷◌, Option, none,
  some, ltb, ◌==◌, if◌then◌else◌, length,
}
use scribe_local.Common.Text.{Text, text_eq, trim}
use scribe_local.Transcript.Utterances.{GroupedUtterance}

abbrev pub prefix : ℕ → Option Text → Option Text
prefix c none = none
prefix c (some s) = some (c ∷ s)

-- Outside a string, and in one; after a backslash `escape` is set. The result is what is left of
-- the array. In UTF-8 no byte of the tests occurs inside another code point. `depth` is not 0.
unfoldable pub scan_array : Bool → Bool → ℕ → Text → Option Text
scan_array in_str escape depth [] = none
scan_array true escape depth (c ∷ s) =
    let rest = scan_array (escape || not (c == b'"')) (not escape && (c == b'\\')) depth s in
    prefix c rest
scan_array false escape depth (c ∷ s) =
    let rest =
      scan_array (c == b'"') false
        (if c == b'[' then suc depth else if c == b']' then depth - 1 else depth) s in
    if (c == b']') && (depth == 1) then some (c ∷ []) else prefix c rest

unfoldable pub first_json_array : Text → Option Text
unfolding scan_array
first_json_array [] = none
first_json_array (c ∷ s) =
    let later = first_json_array s in
    if c == b'[' then prefix c (scan_array false false 1 s) else later

pub record Correction : Type 0 where
  pub i : ℕ
  pub text : Text

abbrev pub distance : ℕ → ℕ → ℕ
distance a b = (a - b) + (b - a)

-- The corrected line is taken: it is not empty, not the old one, and close to it in length.
abbrev pub is_close : Text → Text → Bool
is_close old new =
    not (length new == 0)
    && not (text_eq new old)
    && not (ltb (max (length old / 3) 12) (distance (length old) (length new)))

abbrev pub correct_line : Text → GroupedUtterance → GroupedUtterance
correct_line new u = if is_close u.text new then record u { text = new } else u

-- `get_mut(c.i)`: out of range nothing changes.
unfoldable pub correct_at : ℕ → Text → List GroupedUtterance → List GroupedUtterance
correct_at i new [] = []
correct_at zero new (u ∷ us) = correct_line new u ∷ us
correct_at (suc i) new (u ∷ us) = u ∷ correct_at i new us

abbrev pub is_applied_to : Text → GroupedUtterance → Bool
is_applied_to new u = is_close u.text new

unfoldable pub is_applied : ℕ → Text → List GroupedUtterance → Bool
is_applied i new [] = false
is_applied zero new (u ∷ us) = is_applied_to new u
is_applied (suc i) new (u ∷ us) = is_applied i new us

unfoldable pub apply_corrections :
    List Correction → List GroupedUtterance → List GroupedUtterance × ℕ
unfolding correct_at is_applied
apply_corrections [] us = (us, 0)
apply_corrections (c ∷ cs) us =
    let new = trim c.text in
    let rest = apply_corrections cs (correct_at c.i new us) in
    (rest.0, (if is_applied c.i new us then 1 else 0) + rest.1)
