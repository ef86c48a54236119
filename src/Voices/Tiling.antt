-- ===== src/Voices/Tiling.antt =====
-- The pieces of a turn cover it.
use scribe_local.Common.{
  ℕ, ◌+◌, ◌-◌, ◌*◌, ◌/◌, ◌≤◌, ◌<◌, ◌≡◌, refl, true, ◌&&◌, ◌||◌, min, max, length, List, [], ◌∷◌,
  Bool-cases, inl, inr, ◌⊎◌, All, ltb, leb, if◌then◌else◌, arith,
}
use scribe_local.Voices.Turns.{
  keep_cuts, drop_slivers, pieces_from, emit, cut_turn, is_empty, Signal, Limits, SpeakerTurn,
  turn_pieces, silence_frame_ms,
}

-- The pieces stand one after another from `from` up to `upto`, and none is empty.
abbrev pub Tiles : ℕ → ℕ → List (ℕ × ℕ) → Type 0
Tiles from upto [] = from ≡ upto
Tiles from upto ((a, b) ∷ pieces) = (a ≡ from) × (a < b) × Tiles b upto pieces

-- The cuts go up by `gap` at least, from `last` on.
abbrev Ascends : ℕ → ℕ → List ℕ → Type 0
Ascends gap last [] = Unit {0}
Ascends gap last (cut ∷ cuts) = (last + gap ≤ cut) × Ascends gap cut cuts

keep_cuts-Ascends : (gap last : ℕ) (cuts : List ℕ) → Ascends gap last (keep_cuts gap last cuts)
unfolding keep_cuts
keep_cuts-Ascends gap last [] = tt
keep_cuts-Ascends gap last (cut ∷ cuts) = elim (Bool-cases (leb (last + gap) cut)) [
  | inl far ↦ rw far (ground arith, keep_cuts-Ascends gap cut cuts)
  | inr near ↦ rw near (keep_cuts-Ascends gap last cuts)
]

-- The last cut leaves room for `gap`, too.
abbrev Ends : ℕ → ℕ → ℕ → List ℕ → Type 0
Ends gap last upto [] = Unit {0}
Ends gap last upto (cut ∷ []) = (last + gap ≤ cut) × (cut + gap ≤ upto)
Ends gap last upto (cut ∷ next ∷ cuts) = (last + gap ≤ cut) × Ends gap cut upto (next ∷ cuts)

drop_slivers-Ends :
    (gap last upto : ℕ) (cuts : List ℕ)
    → Ascends gap last cuts
    → Ends gap last upto (drop_slivers gap upto cuts)
unfolding drop_slivers
drop_slivers-Ends gap last upto [] h = tt
drop_slivers-Ends gap last upto (cut ∷ cuts) (h, hs) =
    go (drop_slivers gap upto cuts) (drop_slivers-Ends gap cut upto cuts hs)
  where
    go :
        (rest : List ℕ)
        → Ends gap cut upto rest
        → Ends gap last upto (if is_empty rest && ltb upto (cut + gap) then [] else cut ∷ rest)
    go [] k = elim (Bool-cases (ltb upto (cut + gap))) [
      | inl short ↦ rw short tt
      | inr room ↦ rw room (h, ground arith)
    ]
    go (next ∷ rest) k = (h, k)

-- Pieces that are each at least `gap` long.
abbrev pub AreLong : ℕ → List (ℕ × ℕ) → Type 0
AreLong gap = All (λ p. p.0 + gap ≤ p.1)

Ends-lt :
    (gap last upto next : ℕ) (cuts : List ℕ)
    → 0 < gap
    → Ends gap last upto (next ∷ cuts)
    → last < upto
Ends-lt gap last upto next [] g (a, b) = omega arith
Ends-lt gap last upto next (cut ∷ cuts) g (a, b) = omega (arith, Ends-lt gap next upto cut cuts g b)

pieces_from-Tiles :
    (gap from upto : ℕ) (cuts : List ℕ)
    → 0 < gap
    → from < upto
    → Ends gap from upto cuts
    → Tiles from upto (pieces_from from upto cuts)
unfolding pieces_from
pieces_from-Tiles gap from upto [] g h k =
    let e : ltb from upto ≡ true = ground arith in rw e (refl, h, refl)
pieces_from-Tiles gap from upto (cut ∷ []) g h (a, b) =
    let e : ltb from cut ≡ true = ground arith in
    let e' : ltb cut upto ≡ true = ground arith in
    rw (e, e') (refl, omega arith, (refl, omega arith, refl))
pieces_from-Tiles gap from upto (cut ∷ next ∷ cuts) g h (a, b) =
    let e : ltb from cut ≡ true = ground arith in
    rw e (
      refl,
      omega arith,
      pieces_from-Tiles gap cut upto (next ∷ cuts) g (Ends-lt gap cut upto next cuts g b) b,
    )

pieces_from-AreLong :
    (gap from upto cut : ℕ) (cuts : List ℕ)
    → 0 < gap
    → Ends gap from upto (cut ∷ cuts)
    → AreLong gap (pieces_from from upto (cut ∷ cuts))
unfolding pieces_from
pieces_from-AreLong gap from upto cut [] g (a, b) =
    let e : ltb from cut ≡ true = ground arith in
    let e' : ltb cut upto ≡ true = ground arith in rw (e, e') (a, (b, tt))
pieces_from-AreLong gap from upto cut (next ∷ cuts) g (a, b) =
    let e : ltb from cut ≡ true = ground arith in
    rw e (a, pieces_from-AreLong gap cut upto next cuts g b)

-- The turn is covered, and is left whole or cut into pieces of the least length at least.
abbrev pub IsCut : ℕ → ℕ → ℕ → List (ℕ × ℕ) → Type 0
IsCut gap from upto pieces =
    Tiles from upto pieces × ((pieces ≡ (from, upto) ∷ []) ⊎ AreLong gap pieces)

whole-IsCut : (gap from upto : ℕ) → from < upto → IsCut gap from upto (emit from upto [])
whole-IsCut gap from upto h =
    let e : ltb from upto ≡ true = ground arith in rw e ((refl, h, refl), inl refl)

cut_turn-IsCut :
    (gap from upto : ℕ) (cuts : List ℕ)
    → 0 < gap
    → from < upto
    → IsCut gap from upto (cut_turn gap from upto cuts)
unfolding cut_turn
cut_turn-IsCut gap from upto cuts g h =
    go (drop_slivers gap upto (keep_cuts gap from cuts))
      (drop_slivers-Ends gap from upto (keep_cuts gap from cuts) (keep_cuts-Ascends gap from cuts))
  where
    go : (cs : List ℕ) → Ends gap from upto cs → IsCut gap from upto (pieces_from from upto cs)
    go [] k = whole-IsCut gap from upto h
    go (cut ∷ cs) k = (
      pieces_from-Tiles gap from upto (cut ∷ cs) g h k,
      inr (pieces_from-AreLong gap from upto cut cs g k),
    )

-- Whatever the audio holds, the pieces of a turn that ends after its start cover it without a gap or
-- an overlap, and the turn is left whole or each piece has the least length, which is not 0.
pub turn_pieces-IsCut :
    (sg : Signal) (lim : Limits) (rate : ℕ) (samples : List sg.F) (turn : SpeakerTurn)
    → 0 < lim.min_piece_ms
    → turn.start_ms < turn.end_ms
    → IsCut lim.min_piece_ms turn.start_ms turn.end_ms (turn_pieces sg lim rate samples turn)
unfolding turn_pieces
turn_pieces-IsCut sg lim rate samples turn g h =
    let frame = max (silence_frame_ms * rate / 1000) 1 in
    let start = turn.start_ms * rate / 1000 in
    let end = min (max turn.end_ms turn.start_ms * rate / 1000) (length samples) in
    elim (Bool-cases (leb end start || ltb (end - start) (frame * 2))) [
      | inl short ↦ rw short (whole-IsCut lim.min_piece_ms turn.start_ms turn.end_ms h)
      | inr long ↦ rw long (cut_turn-IsCut lim.min_piece_ms turn.start_ms turn.end_ms _ g h)
    ]
