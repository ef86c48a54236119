-- ===== src/Transcript/Speakers.antt =====
-- `assign_speakers`: which speaker a word gets.
use scribe_local.Common.{
  ℕ, ◌≤◌, ◌<◌, ◌≡◌, refl, sym, ◌∙◌, subst, ap, true, false, List, [], ◌∷◌, Option, none, some, ltb,
  ltb→lt, All, Any, Bool-cases, inl, inr, arith, ◌⊎◌,
}
use scribe_local.Transcript.Words.{
  Word, TurnArtifact, overlap_with, tally, outranks, best_from, best_speaker, midpoint_distance,
  nearest_from, speaker_of, i64_max,
}
use scribe_local.Transcript.Tallies.{cover, lookup, has_key, IsTally, tally-IsTally, lookup-tally}

-- The entry that the search returns: it stands in the list, and none outranks it.
abbrev IsTop : ℕ × ℕ → List (ℕ × ℕ) → Type 0
IsTop b m = Any (λ e. e ≡ b) m × All (λ e. outranks e b ≡ false) m

outranks_trans : (a b c : ℕ × ℕ) → outranks b a ≡ true → outranks b c ≡ false → outranks a c ≡ false
outranks_trans a b c h k = ground arith

outranks_lower :
    (a b c : ℕ × ℕ) → outranks b a ≡ false → outranks a c ≡ false → outranks b c ≡ false
outranks_lower a b c h k = ground arith

best_from-IsTop : (a : ℕ × ℕ) (m : List (ℕ × ℕ)) → IsTop (best_from a m) (a ∷ m)
unfolding best_from
best_from-IsTop a [] = (inl refl, (ground arith, tt))
best_from-IsTop a (b ∷ m) = elim (Bool-cases (outranks b a)) [
  | inl higher ↦
      let (found, top) = best_from-IsTop b m in
      subst (λ r. IsTop r (a ∷ b ∷ m)) (rw higher refl)
        (inr found, (outranks_trans a b (best_from b m) higher top.0, top))
  | inr lower ↦
      let (found, top) = best_from-IsTop a m in
      subst (λ r. IsTop r (a ∷ b ∷ m)) (rw lower refl)
        (keep found, (top.0, (outranks_lower a b (best_from a m) lower top.0, top.1)))
]
  where
    keep : {c : ℕ × ℕ} → Any (λ e. e ≡ c) (a ∷ m) → Any (λ e. e ≡ c) (a ∷ b ∷ m)
    keep (inl e) = inl e
    keep (inr e) = inr (inr e)

has_key-Any : (b : ℕ × ℕ) (m : List (ℕ × ℕ)) → Any (λ e. e ≡ b) m → has_key b.0 m ≡ true
has_key-Any b [] e = absurd e
has_key-Any b (x ∷ m) (inl e) = subst (λ c. has_key c.0 (x ∷ m) ≡ true) e (ground arith)
has_key-Any b (x ∷ m) (inr e) = ground (arith, has_key-Any b m e)

lookup-Any :
    (b : ℕ × ℕ) (m : List (ℕ × ℕ))
    → IsTally m
    → Any (λ e. e ≡ b) m
    → (lookup b.0 m ≡ b.1) × (0 < b.1)
lookup-Any b [] h e = absurd e
lookup-Any b (x ∷ m) h (inl e) =
    subst (λ c. (lookup c.0 (x ∷ m) ≡ c.1) × (0 < c.1)) e (ground arith, h.1)
lookup-Any b (x ∷ m) h (inr e) =
    let (same, pos) = lookup-Any b m h.2 e in (ground (arith, has_key-Any b m e, h.0, same), pos)

All-lookup :
    (b : ℕ × ℕ) (m : List (ℕ × ℕ)) (i : ℕ)
    → 0 < b.1
    → All (λ e. outranks e b ≡ false) m
    → outranks (i, lookup i m) b ≡ false
All-lookup b [] i pos h = ground arith
All-lookup b ((j, n) ∷ m) i pos h = ground (arith, All-lookup b m i pos h.1, h.0)

-- `s` covers some of the word, and every other speaker covers less of it, or as much with a
-- greater index.
abbrev pub IsLoudest : Word → List TurnArtifact → ℕ → Type 0
IsLoudest w ts s =
    (0 < cover w s ts)
    × All
        (λ t.
          (cover w t.local_idx ts < cover w s ts)
          ⊎ ((cover w t.local_idx ts ≡ cover w s ts) × (s ≤ t.local_idx)))
        ts

-- `s` has a turn whose midpoint is at most as far from the word's as that of any turn.
abbrev pub IsNearest : Word → List TurnArtifact → ℕ → Type 0
IsNearest w ts s =
    (t : TurnArtifact) × Any (λ u. u ≡ t) ts
    × (t.local_idx ≡ s)
    × All (λ u. midpoint_distance w t ≤ midpoint_distance w u) ts

no_cover :
    (w : Word) (ts : List TurnArtifact)
    → ((i : ℕ) → cover w i ts ≡ 0)
    → All (λ t. overlap_with w t ≡ 0) ts
unfolding cover
no_cover w [] h = tt
no_cover w (t ∷ ts) h = (ground (arith, h t.local_idx), no_cover w ts (λ i. omega (arith, h i)))

always {κ} : {A : Type 0} (P : A → Type κ) (xs : List A) → ((a : A) → P a) → All P xs
always P [] h = tt
always P (x ∷ xs) h = (h x, always P xs h)

beaten : (b x : ℕ × ℕ) → outranks x b ≡ false → (x.1 < b.1) ⊎ ((x.1 ≡ b.1) × (b.0 ≤ x.0))
beaten b x h = ground arith

le_self : (a : ℕ) → a ≤ a
le_self a = omega arith

less_le : (a b : ℕ) → a < b → a ≤ b
less_le a b h = omega arith

closest : (a b d : ℕ) → a < b → ltb b d ≡ true → a < d
closest a b d h k = ground arith

not_ltb : (a d : ℕ) → ltb a d ≡ false → d ≤ a
not_ltb a d h = ground arith

closer_le : (a d b : ℕ) → ltb a d ≡ false → b < d → b ≤ a
closer_le a d b h k = ground arith

nearest_from-IsNearest :
    (w : Word) (ts : List TurnArtifact) (d : ℕ) (n : Option ℕ)
    → ((nearest_from w ts d n ≡ n) × All (λ u. d ≤ midpoint_distance w u) ts)
      ⊎ ((t : TurnArtifact) × Any (λ u. u ≡ t) ts
          × (nearest_from w ts d n ≡ some t.local_idx)
          × (midpoint_distance w t < d)
          × All (λ u. midpoint_distance w t ≤ midpoint_distance w u) ts)
unfolding nearest_from
nearest_from-IsNearest w [] d n = inl (refl, tt)
nearest_from-IsNearest w (t ∷ ts) d n = elim (Bool-cases (ltb (midpoint_distance w t) d)) [
  | inl closer ↦
      rw closer (elim (nearest_from-IsNearest w ts (midpoint_distance w t) (some t.local_idx)) [
        | inl (same, far) ↦ inr (t, inl refl, same, ltb→lt _ d closer, (le_self _, far))
        | inr (u, found, same, near, far) ↦
            inr (u, inr found, same, closest _ _ d near closer, (less_le _ _ near, far))
      ])
  | inr farther ↦ rw farther (elim (nearest_from-IsNearest w ts d n) [
    | inl (same, far) ↦ inl (same, (not_ltb _ d farther, far))
    | inr (u, found, same, near, far) ↦
        inr (u, inr found, same, near, (closer_le _ d _ farther near, far))
  ])
]

tallied : (w : Word) (i : ℕ) (ts : List TurnArtifact) → cover w i ts ≡ lookup i (tally w ts [])
tallied w i ts = omega (arith, lookup-tally w i ts [])

best_from-IsLoudest :
    (w : Word) (ts : List TurnArtifact) (a : ℕ × ℕ) (m : List (ℕ × ℕ))
    → tally w ts [] ≡ a ∷ m
    → IsLoudest w ts (best_from a m).0
best_from-IsLoudest w ts a m e =
    let b = best_from a m in
    let right = subst IsTally e (tally-IsTally w ts [] tt) in
    let (found, top) = best_from-IsTop a m in
    let (same, pos) = lookup-Any b (a ∷ m) right found in
    let covers = (λ (i : ℕ). tallied w i ts ∙ ap (lookup i) e) in
    let mine = covers b.0 ∙ same in
    (
      subst (λ n. 0 < n) (sym mine) pos,
      always _ ts (λ t.
          subst
            (λ n.
              (cover w t.local_idx ts < n) ⊎ ((cover w t.local_idx ts ≡ n) × (b.0 ≤ t.local_idx)))
            (sym mine)
            (decided b t.local_idx (cover w t.local_idx ts) (covers t.local_idx)
              (All-lookup b (a ∷ m) t.local_idx pos top))),
    )
  where
    decided :
        (b : ℕ × ℕ) (i c : ℕ)
        → c ≡ lookup i (a ∷ m)
        → outranks (i, lookup i (a ∷ m)) b ≡ false
        → (c < b.1) ⊎ ((c ≡ b.1) × (b.0 ≤ i))
    decided b i c q h = beaten b (i, c) (subst (λ n. outranks (i, n) b ≡ false) (sym q) h)

-- Where there is a turn, and the first turn's midpoint is within range of the word's, the word gets
-- a speaker: the one whose turns together cover most of the word, of several the one of least
-- index; or, when no turn overlaps the word, one with a turn whose midpoint is nearest.
pub speaker_of-IsLoudest :
    (w : Word) (t : TurnArtifact) (ts : List TurnArtifact)
    → midpoint_distance w t < i64_max
    → (s : ℕ) × (speaker_of w (t ∷ ts) ≡ some s)
      × (IsLoudest w (t ∷ ts) s
          ⊎ (All (λ u. overlap_with w u ≡ 0) (t ∷ ts) × IsNearest w (t ∷ ts) s))
unfolding speaker_of best_speaker
speaker_of-IsLoudest w t ts near = go (tally w (t ∷ ts) []) refl
  where
    go :
        (m : List (ℕ × ℕ))
        → tally w (t ∷ ts) [] ≡ m
        → (s : ℕ) × (speaker_of w (t ∷ ts) ≡ some s)
          × (IsLoudest w (t ∷ ts) s
              ⊎ (All (λ u. overlap_with w u ≡ 0) (t ∷ ts) × IsNearest w (t ∷ ts) s))
    go (a ∷ m) e =
        ((best_from a m).0, rw (e, speaker_of) refl, inl (best_from-IsLoudest w (t ∷ ts) a m e))
    go [] e =
        let silent = no_cover w (t ∷ ts) (λ i. tallied w i (t ∷ ts) ∙ ap (lookup i) e) in
        elim (nearest_from-IsNearest w (t ∷ ts) i64_max none) [
          | inl (same, far) ↦ absurd (omega (arith, far.0, near))
          | inr (u, found, same, close, far) ↦
              (u.local_idx, rw (e, speaker_of) same, inr (silent, (u, found, refl, far)))
        ]
