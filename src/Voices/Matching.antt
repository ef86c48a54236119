-- ===== src/Voices/Matching.antt =====
-- A recording's voices are matched one to one.
use scribe_local.Common.{
  ℕ, ◌≡◌, ◌≢◌, refl, sym, ap, subst, false, List, [], ◌∷◌, ◌++◌, any, All, All-append, Any,
  Bool-cases, inl, inr, arith,
}
use scribe_local.Voices.Identities.{
  Floats, Candidate, voice_candidates, all_candidates, score_all, insert_candidate, sort_candidates,
  clashes, goes_before, is_taken, is_admissible, accept, resolve_identities, scores_of,
}

Any-more :
    {A : Type 0} {P Q : A → Type 0} (xs : List A) → ((a : A) → P a → Q a) → Any P xs → Any Q xs
Any-more [] f a = absurd a
Any-more (x ∷ xs) f (inl p) = inl (f x p)
Any-more (x ∷ xs) f (inr a) = inr (Any-more xs f a)

module _ (fl : Floats) where
  open fl use {F, lt}

  -- No two of the matches are of one voice or name one person.
  abbrev pub IsMatching : List (Candidate fl) → Type 0
  IsMatching [] = Unit {0}
  IsMatching (c ∷ cs) =
      All (λ d. (c.local_idx ≢ d.local_idx) × (c.speaker_id ≢ d.speaker_id)) cs × IsMatching cs

  apart :
      (c d : Candidate fl)
      → clashes fl c d ≡ false
      → (d.local_idx ≢ c.local_idx) × (d.speaker_id ≢ c.speaker_id)
  apart c d h = (λ e. absurd (ground arith), λ e. absurd (ground arith))

  IsMatching-append :
      (cs : List (Candidate fl)) (c : Candidate fl)
      → any (clashes fl c) cs ≡ false
      → IsMatching cs
      → IsMatching (cs ++ c ∷ [])
  IsMatching-append [] c h m = (tt, tt)
  IsMatching-append (d ∷ cs) c h (a, m) = (
    All-append _ cs (c ∷ []) a (apart c d (ground arith), tt),
    IsMatching-append cs c (ground arith) m,
  )

  accept-IsMatching :
      (consistency : F) (accepted cs : List (Candidate fl))
      → IsMatching accepted
      → IsMatching (accept fl consistency accepted cs)
  unfolding accept
  accept-IsMatching consistency accepted [] m = m
  accept-IsMatching consistency accepted (c ∷ cs) m =
      elim (Bool-cases (is_taken fl consistency accepted c)) [
        | inl taken ↦ rw taken (
            accept-IsMatching consistency (accepted ++ c ∷ []) cs
              (IsMatching-append accepted c (ground arith) m))
        | inr left ↦ rw left (accept-IsMatching consistency accepted cs m)
      ]

  -- What holds of every candidate holds of every match.
  accept-All :
      (P : Candidate fl → Type 0) (consistency : F) (accepted cs : List (Candidate fl))
      → All P accepted
      → All P cs
      → All P (accept fl consistency accepted cs)
  unfolding accept
  accept-All P consistency accepted [] a h = a
  accept-All P consistency accepted (c ∷ cs) a (h, hs) =
      elim (Bool-cases (is_taken fl consistency accepted c)) [
        | inl taken ↦ rw taken (
            accept-All P consistency (accepted ++ c ∷ []) cs
              (All-append P accepted (c ∷ []) a (h, tt)) hs)
        | inr left ↦ rw left (accept-All P consistency accepted cs a hs)
      ]

  insert_candidate-All :
      (P : Candidate fl → Type 0) (c : Candidate fl) (cs : List (Candidate fl))
      → P c
      → All P cs
      → All P (insert_candidate fl c cs)
  unfolding insert_candidate
  insert_candidate-All P c [] h a = (h, tt)
  insert_candidate-All P c (d ∷ cs) h (a, as') = elim (Bool-cases (goes_before fl c d)) [
    | inl before ↦ rw before (h, (a, as'))
    | inr after ↦ rw after (a, insert_candidate-All P c cs h as')
  ]

  sort_candidates-All :
      (P : Candidate fl → Type 0) (cs : List (Candidate fl))
      → All P cs
      → All P (sort_candidates fl cs)
  unfolding sort_candidates
  sort_candidates-All P [] a = tt
  sort_candidates-All P (c ∷ cs) (a, as') =
      insert_candidate-All P c (sort_candidates fl cs) a (sort_candidates-All P cs as')

  -- The score of a match reaches the threshold, and is that of a voice with an enrolled voiceprint.
  abbrev pub IsScored : F → List (ℕ × List F) → List (ℕ × List F) → Candidate fl → Type 0
  IsScored threshold voices enrolled c =
      (lt c.sim threshold ≡ false)
      × Any
          (λ v.
            (v.0 ≡ c.local_idx) × Any (λ e. e ≡ (c.speaker_id, c.sim)) (score_all fl v.1 enrolled))
          voices

  voice_candidates-All :
      (P : Candidate fl → Type 0) (threshold separation : F) (idx : ℕ) (before : List F)
      (after : List (ℕ × F))
      → ((id : ℕ) (s : F)
          → Any (λ e. e ≡ (id, s)) after
          → lt s threshold ≡ false
          → P (record { sim = s; local_idx = idx; speaker_id = id }))
      → All P (voice_candidates fl threshold separation idx before after)
  unfolding voice_candidates
  voice_candidates-All P threshold separation idx before [] f = tt
  voice_candidates-All P threshold separation idx before ((id, s) ∷ after) f =
      let rest =
        voice_candidates-All P threshold separation idx (before ++ s ∷ []) after
          (λ i t m. f i t (inr m)) in
      elim (Bool-cases (is_admissible fl threshold separation s (before ++ scores_of fl after))) [
        | inl admitted ↦ rw admitted (f id s (inl refl) (ground arith), rest)
        | inr refused ↦ rw refused rest
      ]

  all_candidates-All :
      (threshold separation : F) (all voices enrolled : List (ℕ × List F))
      → ((v : ℕ × List F) → Any (λ x. x ≡ v) voices → Any (λ x. x ≡ v) all)
      → All
          (IsScored threshold all enrolled)
          (all_candidates fl threshold separation voices enrolled)
  unfolding all_candidates
  all_candidates-All threshold separation all [] enrolled f = tt
  all_candidates-All threshold separation all ((idx, embedding) ∷ voices) enrolled f =
      All-append _
        (voice_candidates fl threshold separation idx [] (score_all fl embedding enrolled)) _
        (voice_candidates-All _ threshold separation idx [] (score_all fl embedding enrolled)
          (λ id s m h. (
            h,
            Any-more all
                (λ x e. (
                  ap (λ (p : ℕ × List F). p.0) e,
                  at_score x embedding enrolled (id, s) (ap (λ (p : ℕ × List F). p.1) e) m,
                ))
                (f (idx, embedding) (inl refl)),
          )))
        (all_candidates-All threshold separation all voices enrolled (λ v m. f v (inr m)))
    where
      at_score :
          (x : ℕ × List F) (embedding : List F) (enrolled : List (ℕ × List F)) (e : ℕ × F)
          → x.1 ≡ embedding
          → Any (λ y. y ≡ e) (score_all fl embedding enrolled)
          → Any (λ y. y ≡ e) (score_all fl x.1 enrolled)
      at_score x embedding enrolled e same m =
          subst (λ (v : List F). Any (λ y. y ≡ e) (score_all fl v enrolled)) (sym same) m

  -- The voices of a recording are matched with the enrolled speakers one to one: no two matches are
  -- of one voice, and no two name one person. Each score is that of the voice with the speaker's
  -- voiceprint, and reaches the threshold.
  pub resolve_identities-IsMatching :
      (consistency separation threshold : F) (voices enrolled : List (ℕ × List F))
      → IsMatching (resolve_identities fl consistency separation threshold voices enrolled)
        × All
            (IsScored threshold voices enrolled)
            (resolve_identities fl consistency separation threshold voices enrolled)
  unfolding resolve_identities
  resolve_identities-IsMatching consistency separation threshold voices enrolled = (
    accept-IsMatching consistency []
        (sort_candidates fl (all_candidates fl threshold separation voices enrolled)) tt,
    accept-All (IsScored threshold voices enrolled) consistency []
        (sort_candidates fl (all_candidates fl threshold separation voices enrolled)) tt
        (sort_candidates-All (IsScored threshold voices enrolled)
          (all_candidates fl threshold separation voices enrolled)
          (all_candidates-All threshold separation voices voices enrolled (λ v m. m))),
  )
