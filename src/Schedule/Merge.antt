-- ===== src/Schedule/Merge.antt =====
-- Sorting and merging windows: their order, and the instants that they cover.
use scribe_local.Common.{
  ℕ, ◌≤◌, ◌<◌, ◌≡◌, refl, max, List, [], ◌∷◌, All, Any, Bool-cases, inl, inr, arith, leb, leb→le,
  ◌↔◌,
}
use scribe_local.Schedule.Policy.{Window, insert_window, sort_windows, merge_from, merge_windows}

abbrev pub Contains : ℕ → Window → Type 0
Contains t w = (w.opens ≤ t) × (t < w.closes)

abbrev pub Covers : List Window → ℕ → Type 0
Covers ws t = Any (Contains t) ws

-- Openings ascend from `lo`.
abbrev pub IsSorted : ℕ → List Window → Type 0
IsSorted lo [] = Unit
IsSorted lo (w ∷ ws) = (lo ≤ w.opens) × IsSorted w.opens ws

IsSorted-weaken : (lo hi : ℕ) (ws : List Window) → lo ≤ hi → IsSorted hi ws → IsSorted lo ws
IsSorted-weaken lo hi [] h s = tt
IsSorted-weaken lo hi (w ∷ ws) h s = (omega arith, s.1)

insert_window-IsSorted :
    (lo : ℕ) (w : Window) (ws : List Window)
    → lo ≤ w.opens
    → IsSorted lo ws
    → IsSorted lo (insert_window w ws)
unfolding insert_window
insert_window-IsSorted lo w [] h s = (h, tt)
insert_window-IsSorted lo w (v ∷ vs) h s = ground (arith, insert_window-IsSorted v.opens w vs)

sort_windows-IsSorted : (ws : List Window) → IsSorted 0 (sort_windows ws)
unfolding sort_windows
sort_windows-IsSorted [] = tt
sort_windows-IsSorted (w ∷ ws) =
    insert_window-IsSorted 0 w (sort_windows ws) (omega arith) (sort_windows-IsSorted ws)

Covers-insert_window :
    (t : ℕ) (w : Window) (ws : List Window) → Covers (insert_window w ws) t ↔ Covers (w ∷ ws) t
unfolding insert_window
Covers-insert_window t w [] = (λ c. c, λ c. c)
Covers-insert_window t w (v ∷ vs) = elim (Bool-cases (leb w.opens v.opens)) [
  | inl here ↦ rw here (λ c. c, λ c. c)
  | inr on ↦ let ih = Covers-insert_window t w vs in rw on (there ih, back ih)
]
  where
    there :
        Covers (insert_window w vs) t ↔ Covers (w ∷ vs) t
        → Covers (v ∷ insert_window w vs) t
        → Covers (w ∷ v ∷ vs) t
    there ih (inl c) = inr (inl c)
    there ih (inr c) = elim (ih.0 c) [ inl d ↦ inl d | inr d ↦ inr (inr d) ]

    back :
        Covers (insert_window w vs) t ↔ Covers (w ∷ vs) t
        → Covers (w ∷ v ∷ vs) t
        → Covers (v ∷ insert_window w vs) t
    back ih (inl c) = inr (ih.1 (inl c))
    back ih (inr (inl c)) = inl c
    back ih (inr (inr c)) = inr (ih.1 (inr c))

Covers-sort_windows : (t : ℕ) (ws : List Window) → Covers (sort_windows ws) t ↔ Covers ws t
unfolding sort_windows
Covers-sort_windows t [] = (λ c. c, λ c. c)
Covers-sort_windows t (w ∷ ws) =
    let ih = Covers-sort_windows t ws in
    let step = Covers-insert_window t w (sort_windows ws) in
    (λ c. into ih (step.0 c), λ c. step.1 (back ih c))
  where
    into :
        Covers (sort_windows ws) t ↔ Covers ws t
        → Covers (w ∷ sort_windows ws) t
        → Covers (w ∷ ws) t
    into ih (inl c) = inl c
    into ih (inr c) = inr (ih.0 c)

    back :
        Covers (sort_windows ws) t ↔ Covers ws t
        → Covers (w ∷ ws) t
        → Covers (w ∷ sort_windows ws) t
    back ih (inl c) = inl c
    back ih (inr c) = inr (ih.1 c)

-- After `last` closes, the next window opens strictly later, and so on.
abbrev pub IsApart : List Window → Type 0
IsApart [] = Unit {0}
IsApart (w ∷ []) = Unit {0}
IsApart (w ∷ v ∷ vs) = (w.closes < v.opens) × IsApart (v ∷ vs)

Covers-grow :
    (t : ℕ) (last w : Window) (ws : List Window)
    → last.opens ≤ w.opens
    → w.opens ≤ last.closes
    → Covers (record last { closes = max last.closes w.closes } ∷ ws) t ↔ Covers (last ∷ w ∷ ws) t
Covers-grow t last w ws h k = (into, back)
  where
    into :
        Covers (record last { closes = max last.closes w.closes } ∷ ws) t → Covers (last ∷ w ∷ ws) t
    into (inl c) = ground arith
    into (inr c) = inr (inr c)

    back :
        Covers (last ∷ w ∷ ws) t → Covers (record last { closes = max last.closes w.closes } ∷ ws) t
    back (inl c) = inl (omega arith)
    back (inr (inl c)) = inl (omega arith)
    back (inr (inr c)) = inr c

Covers-merge_from :
    (t : ℕ) (last : Window) (ws : List Window)
    → IsSorted last.opens ws
    → Covers (merge_from last ws) t ↔ Covers (last ∷ ws) t
unfolding merge_from
Covers-merge_from t last [] s = (λ c. c, λ c. c)
Covers-merge_from t last (w ∷ ws) s = elim (Bool-cases (leb w.opens last.closes)) [
  | inl touch ↦
      let ih =
        Covers-merge_from t (record last { closes = max last.closes w.closes }) ws
          (IsSorted-weaken last.opens w.opens ws s.0 s.1) in
      let g = Covers-grow t last w ws s.0 (leb→le _ _ touch) in
      rw touch (λ c. g.0 (ih.0 c), λ c. ih.1 (g.1 c))
  | inr gap ↦ rw gap (into (Covers-merge_from t w ws s.1), back (Covers-merge_from t w ws s.1))
]
  where
    into :
        Covers (merge_from w ws) t ↔ Covers (w ∷ ws) t
        → Covers (last ∷ merge_from w ws) t
        → Covers (last ∷ w ∷ ws) t
    into ih (inl c) = inl c
    into ih (inr c) = inr (ih.0 c)

    back :
        Covers (merge_from w ws) t ↔ Covers (w ∷ ws) t
        → Covers (last ∷ w ∷ ws) t
        → Covers (last ∷ merge_from w ws) t
    back ih (inl c) = inl c
    back ih (inr c) = inr (ih.1 c)

merge_from-IsSorted :
    (lo : ℕ) (last : Window) (ws : List Window)
    → lo ≤ last.opens
    → IsSorted last.opens ws
    → IsSorted lo (merge_from last ws)
unfolding merge_from
merge_from-IsSorted lo last [] h s = (h, tt)
merge_from-IsSorted lo last (w ∷ ws) h s = elim (Bool-cases (leb w.opens last.closes)) [
  | inl touch ↦ rw touch (
      merge_from-IsSorted lo (record last { closes = max last.closes w.closes }) ws h
        (IsSorted-weaken last.opens w.opens ws s.0 s.1))
  | inr gap ↦ rw gap (h, merge_from-IsSorted last.opens w ws s.0 s.1)
]

-- `merge_from` begins with a window that opens where `last` does.
merge_from-head :
    (last : Window) (ws : List Window)
    → (w : Window) × (vs : List Window) × (merge_from last ws ≡ w ∷ vs) × (w.opens ≡ last.opens)
unfolding merge_from
merge_from-head last [] = (last, [], refl, refl)
merge_from-head last (w ∷ ws) = elim (Bool-cases (leb w.opens last.closes)) [
  | inl touch ↦ rw touch (merge_from-head (record last { closes = max last.closes w.closes }) ws)
  | inr gap ↦ rw gap (last, merge_from w ws, refl, refl)
]

merge_from-IsApart : (last : Window) (ws : List Window) → IsApart (merge_from last ws)
unfolding merge_from
merge_from-IsApart last [] = tt
merge_from-IsApart last (w ∷ ws) = elim (Bool-cases (leb w.opens last.closes)) [
  | inl touch ↦ rw touch (merge_from-IsApart (record last { closes = max last.closes w.closes }) ws)
  | inr gap ↦
      let (v, vs, e, same) = merge_from-head w ws in
      let rest : IsApart (v ∷ vs) = rw e at (merge_from-IsApart w ws) in
      rw (gap, e) (ground arith, rest)
]

-- Sorting and merging change no instant: exactly those that some window contains are covered.
pub Covers-merge_windows :
    (t : ℕ) (ws : List Window) → Covers (merge_windows (sort_windows ws)) t ↔ Covers ws t
unfolding merge_windows
Covers-merge_windows t ws =
    go (sort_windows ws) (sort_windows-IsSorted ws) (Covers-sort_windows t ws)
  where
    go :
        (vs : List Window)
        → IsSorted 0 vs
        → Covers vs t ↔ Covers ws t
        → Covers (merge_windows vs) t ↔ Covers ws t
    go [] s e = e
    go (v ∷ vs) s e = let m = Covers-merge_from t v vs s.1 in (λ c. e.0 (m.0 c), λ c. m.1 (e.1 c))

-- The merged windows are in order of opening, and each opens strictly after the one before closes.
pub merge_windows-IsApart :
    (ws : List Window)
    → IsSorted 0 (merge_windows (sort_windows ws)) × IsApart (merge_windows (sort_windows ws))
unfolding merge_windows
merge_windows-IsApart ws = go (sort_windows ws) (sort_windows-IsSorted ws)
  where
    go :
        (vs : List Window)
        → IsSorted 0 vs
        → IsSorted 0 (merge_windows vs) × IsApart (merge_windows vs)
    go [] s = (tt, tt)
    go (v ∷ vs) s = (merge_from-IsSorted 0 v vs s.0 s.1, merge_from-IsApart v vs)

-- What holds of every opening before holds of every opening after.
abbrev pub Opens : (ℕ → Type 0) → List Window → Type 0
Opens P = All (λ w. P w.opens)

Opens-insert_window :
    (P : ℕ → Type 0) (w : Window) (ws : List Window)
    → P w.opens
    → Opens P ws
    → Opens P (insert_window w ws)
unfolding insert_window
Opens-insert_window P w [] h hs = (h, tt)
Opens-insert_window P w (v ∷ vs) h hs = elim (Bool-cases (leb w.opens v.opens)) [
  | inl here ↦ rw here (h, hs)
  | inr on ↦ rw on (hs.0, Opens-insert_window P w vs h hs.1)
]

Opens-sort_windows : (P : ℕ → Type 0) (ws : List Window) → Opens P ws → Opens P (sort_windows ws)
unfolding sort_windows
Opens-sort_windows P [] h = tt
Opens-sort_windows P (w ∷ ws) h =
    Opens-insert_window P w (sort_windows ws) h.0 (Opens-sort_windows P ws h.1)

Opens-merge_from :
    (P : ℕ → Type 0) (last : Window) (ws : List Window)
    → P last.opens
    → Opens P ws
    → Opens P (merge_from last ws)
unfolding merge_from
Opens-merge_from P last [] h hs = (h, tt)
Opens-merge_from P last (w ∷ ws) h hs = elim (Bool-cases (leb w.opens last.closes)) [
  | inl touch ↦
      rw touch (Opens-merge_from P (record last { closes = max last.closes w.closes }) ws h hs.1)
  | inr gap ↦ rw gap (h, Opens-merge_from P w ws hs.0 hs.1)
]

pub Opens-merge_windows :
    (P : ℕ → Type 0) (ws : List Window) → Opens P ws → Opens P (merge_windows (sort_windows ws))
unfolding merge_windows
Opens-merge_windows P ws h = go (sort_windows ws) (Opens-sort_windows P ws h)
  where
    go : (vs : List Window) → Opens P vs → Opens P (merge_windows vs)
    go [] hs = tt
    go (v ∷ vs) hs = Opens-merge_from P v vs hs.0 hs.1
