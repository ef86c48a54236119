-- ===== src/Voices/Identities.antt =====
-- `cosine`, `median` and `resolve_identities`. The arithmetic of `f32` is a record; ids are numbers,
-- ordered as the source orders them. The environment's overrides are arguments.
use scribe_local.Common.{
  ℕ, ◌-◌, ◌/◌, ◌%◌, Bool, true, false, not, ◌&&◌, ◌||◌, List, [], ◌∷◌, ◌++◌, Option, none, some,
  ltb, leb, ◌==◌, if◌then◌else◌, length, any, get_elem?,
}

pub record Floats : Type 1 where
  pub F : Type 0
  pub nought : F
  pub two : F
  pub epsilon : F
  pub add : F → F → F
  pub sub : F → F → F
  pub mul : F → F → F
  pub div : F → F → F
  pub sqrt : F → F
  pub lt : F → F → Bool
  pub le : F → F → Bool

abbrev pub is_empty {ℓ} : {A : Type ℓ} → List A → Bool
is_empty [] = true
is_empty (x ∷ xs) = false

module _ (fl : Floats) where
  open fl use {F, nought, two, epsilon, add, sub, mul, div, sqrt, lt, le}

  -- The sum of the products of the pairs, added to `acc` in order.
  unfoldable pub dot_from : F → List F → List F → F
  dot_from acc (x ∷ xs) (y ∷ ys) = dot_from (add acc (mul x y)) xs ys
  dot_from acc _ _ = acc

  unfoldable pub cosine : List F → List F → F
  unfolding dot_from
  cosine a b =
      let na = sqrt (dot_from nought a a) in
      let nb = sqrt (dot_from nought b b) in
      if is_empty a || not (length a == length b)
      then nought
      else if le na epsilon || le nb epsilon
      then nought
      else div (dot_from nought a b) (mul na nb)

  -- `sort_by` with `partial_cmp`, where numbers that do not compare are equal.
  unfoldable pub insert_value : F → List F → List F
  insert_value x [] = x ∷ []
  insert_value x (y ∷ ys) = let rest = insert_value x ys in if lt y x then y ∷ rest else x ∷ y ∷ ys

  unfoldable pub sort_values : List F → List F
  unfolding insert_value
  sort_values [] = []
  sort_values (x ∷ xs) = insert_value x (sort_values xs)

  abbrev or_nought : Option F → F
  or_nought none = nought
  or_nought (some x) = x

  unfoldable pub median : List F → Option F
  unfolding sort_values
  median [] = none
  median (x ∷ xs) =
      let sorted = sort_values (x ∷ xs) in
      let mid = length sorted / 2 in
      some (
        if length sorted % 2 == 0
        then div (add (or_nought (get_elem? sorted (mid - 1))) (or_nought (get_elem? sorted mid)))
            two
        else or_nought (get_elem? sorted mid))

  pub record Candidate : Type 0 where
    pub sim : F
    pub local_idx : ℕ
    pub speaker_id : ℕ

  -- `scores[i] - baseline < separation()`, where there is a baseline.
  abbrev pub stands_out : F → F → Option F → Bool
  stands_out separation s none = true
  stands_out separation s (some baseline) = not (lt (sub s baseline) separation)

  abbrev pub is_admissible : F → F → F → List F → Bool
  is_admissible threshold separation s rest =
      not (lt s threshold) && stands_out separation s (median rest)

  abbrev pub scores_of : List (ℕ × F) → List F
  scores_of [] = []
  scores_of ((id, s) ∷ more) = s ∷ scores_of more

  -- The admissible pairs of one voice with the enrolled, whose scores before these are `before`.
  unfoldable pub voice_candidates : F → F → ℕ → List F → List (ℕ × F) → List Candidate
  unfolding median
  voice_candidates threshold separation idx before [] = []
  voice_candidates threshold separation idx before ((id, s) ∷ after) =
      let more = voice_candidates threshold separation idx (before ++ s ∷ []) after in
      if is_admissible threshold separation s (before ++ scores_of after)
      then record { sim = s; local_idx = idx; speaker_id = id } ∷ more
      else more

  unfoldable pub score_all : List F → List (ℕ × List F) → List (ℕ × F)
  unfolding cosine
  score_all embedding [] = []
  score_all embedding ((id, voiceprint) ∷ more) =
      (id, cosine embedding voiceprint) ∷ score_all embedding more

  unfoldable pub all_candidates : F → F → List (ℕ × List F) → List (ℕ × List F) → List Candidate
  unfolding voice_candidates score_all
  all_candidates threshold separation [] enrolled = []
  all_candidates threshold separation ((idx, embedding) ∷ voices) enrolled =
      voice_candidates threshold separation idx [] (score_all embedding enrolled)
      ++ all_candidates threshold separation voices enrolled

  -- `a` is sorted before `b`, or stays before it: best first, then by index, then by id.
  abbrev pub goes_before : Candidate → Candidate → Bool
  goes_before a b =
      lt b.sim a.sim
      || (not (lt a.sim b.sim)
          && (ltb a.local_idx b.local_idx
              || ((a.local_idx == b.local_idx) && leb a.speaker_id b.speaker_id)))

  unfoldable pub insert_candidate : Candidate → List Candidate → List Candidate
  insert_candidate a [] = a ∷ []
  insert_candidate a (b ∷ bs) =
      let rest = insert_candidate a bs in if goes_before a b then a ∷ b ∷ bs else b ∷ rest

  unfoldable pub sort_candidates : List Candidate → List Candidate
  unfolding insert_candidate
  sort_candidates [] = []
  sort_candidates (a ∷ as') = insert_candidate a (sort_candidates as')

  -- The voice or the speaker is taken.
  abbrev pub clashes : Candidate → Candidate → Bool
  clashes c d = (d.local_idx == c.local_idx) || (d.speaker_id == c.speaker_id)

  abbrev pub keeps_standard : F → F → Option F → Bool
  keeps_standard consistency s none = true
  keeps_standard consistency s (some standard) = not (lt s (mul consistency standard))

  abbrev pub sims_of : List Candidate → List F
  sims_of [] = []
  sims_of (c ∷ cs) = c.sim ∷ sims_of cs

  abbrev pub is_taken : F → List Candidate → Candidate → Bool
  is_taken consistency accepted c =
      not (any (clashes c) accepted) && keeps_standard consistency c.sim (median (sims_of accepted))

  -- The loop over the candidates, after those that are accepted.
  unfoldable pub accept : F → List Candidate → List Candidate → List Candidate
  unfolding median
  accept consistency accepted [] = accepted
  accept consistency accepted (c ∷ cs) =
      accept consistency (if is_taken consistency accepted c then accepted ++ c ∷ [] else accepted)
        cs

  unfoldable pub resolve_identities :
      F → F → F → List (ℕ × List F) → List (ℕ × List F) → List Candidate
  unfolding all_candidates sort_candidates accept
  resolve_identities consistency separation threshold voices enrolled =
      accept consistency [] (sort_candidates (all_candidates threshold separation voices enrolled))
