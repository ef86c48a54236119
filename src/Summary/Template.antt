-- ===== src/Summary/Template.antt =====
-- The ids of crates/scribe-core/src/summary_template.rs. The labels and the instructions, which an id
-- stands for, are not modelled.
use scribe_local.Common.{
  ◌≡◌, ◌≢◌, refl, List, [], ◌∷◌, Bool, Option, none, some, true, false, find, All, Any, Bool-cases,
  inl, inr, ◌⊎◌,
}
use scribe_local.Common.Text.{
  Text, codes, trim, to_ascii_lowercase, text_eq, text_eq_sound, text_eq_refl,
}

abbrev pub template_ids : List Text
template_ids =
    codes "general"
    ∷ codes "standup"
    ∷ codes "interview"
    ∷ codes "one_on_one"
    ∷ codes "lecture"
    ∷ codes "sales"
    ∷ []

abbrev pub default_template_id : Text
default_template_id = codes "general"

-- `eq_ignore_ascii_case`
abbrev pub names : Text → Text → Bool
names id t = text_eq (to_ascii_lowercase t) (to_ascii_lowercase (trim id))

abbrev pub or_default : Option Text → Text
or_default none = default_template_id
or_default (some t) = t

-- `resolve`, and `canonical_id`: the id of the template.
unfoldable pub resolve : Text → Text
resolve id = or_default (find (names id) template_ids)

-- The template's id is the text's, but for case and white space around it; or the text is no
-- template's, and the template is the general one.
abbrev pub IsTemplateOf : Text → Text → Type 0
IsTemplateOf id t =
    (Any (λ k. k ≡ t) template_ids × (to_ascii_lowercase t ≡ to_ascii_lowercase (trim id)))
    ⊎ (All (λ k. to_ascii_lowercase k ≢ to_ascii_lowercase (trim id)) template_ids
        × (t ≡ codes "general"))

find-names :
    (id : Text) (ts : List Text)
    → ((t : Text) × (find (names id) ts ≡ some t)
        × Any (λ k. k ≡ t) ts
        × (to_ascii_lowercase t ≡ to_ascii_lowercase (trim id)))
      ⊎ ((find (names id) ts ≡ none)
          × All (λ k. to_ascii_lowercase k ≢ to_ascii_lowercase (trim id)) ts)
find-names id [] = inr (refl, tt)
find-names id (t ∷ ts) = elim (Bool-cases (names id t)) [
  | inl hit ↦ inl (t, rw hit refl, inl refl, text_eq_sound _ _ hit)
  | inr miss ↦ elim (find-names id ts) [
    | inl (u, found, member, same) ↦ inl (u, rw miss found, inr member, same)
    | inr (lost, others) ↦ inr (rw miss lost, (differs miss, others))
  ]
]
  where
    differs : names id t ≡ false → to_ascii_lowercase t ≢ to_ascii_lowercase (trim id)
    differs miss same =
        let hit : names id t ≡ true = rw same (text_eq_refl (to_ascii_lowercase (trim id))) in
        absurd (cc (miss, hit))

pub resolve-IsTemplateOf : (id : Text) → IsTemplateOf id (resolve id)
unfolding resolve
resolve-IsTemplateOf id = elim (find-names id template_ids) [
  | inl (t, found, member, same) ↦ rw found (inl (member, same))
  | inr (lost, others) ↦ rw lost (inr (others, refl))
]
