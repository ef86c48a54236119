-- ===== src/Summary/Parts.antt =====
-- `str::lines` and `split_on_lines`.
use scribe_local.Common.{
  ℕ, ◌+◌, Bool, true, false, not, ◌&&◌, List, [], ◌∷◌, ◌++◌, ltb, ◌==◌, if◌then◌else◌, length,
}
use scribe_local.Common.Text.{Text, trim}

abbrev pub newline : ℕ
newline = b'\n'

abbrev pub is_empty {ℓ} : {A : Type ℓ} → List A → Bool
is_empty [] = true
is_empty (x ∷ xs) = false

abbrev pub push_first : ℕ → List Text → List Text
push_first c [] = (c ∷ []) ∷ []
push_first c (p ∷ ps) = (c ∷ p) ∷ ps

-- `split('\n')`
unfoldable pub segments : Text → List Text
segments [] = [] ∷ []
segments (c ∷ s) = let rest = segments s in if c == newline then [] ∷ rest else push_first c rest

-- A line's end may be `\r\n`.
unfoldable pub strip_cr : Text → Text
strip_cr [] = []
strip_cr (c ∷ []) = if c == b'\r' then [] else c ∷ []
strip_cr (c ∷ d ∷ s) = c ∷ strip_cr (d ∷ s)

-- What follows the last line end is a line unless it is empty.
unfoldable pub drop_last_empty : List Text → List Text
unfolding strip_cr
drop_last_empty [] = []
drop_last_empty (p ∷ []) = if is_empty p then [] else p ∷ []
drop_last_empty (p ∷ q ∷ ps) = strip_cr p ∷ drop_last_empty (q ∷ ps)

unfoldable pub lines : Text → List Text
unfolding segments drop_last_empty
lines s = drop_last_empty (segments s)

abbrev pub is_full : Text → Text → ℕ → Bool
is_full current line budget =
    not (is_empty current) && ltb budget (length current + (length line + 1))

-- The loop of `split_on_lines` from the part `current`; what it pushes comes first.
unfoldable pub parts_from : ℕ → Text → List Text → List Text
parts_from budget current [] = if is_empty (trim current) then [] else current ∷ []
parts_from budget current (line ∷ ls) =
    let full = is_full current line budget in
    let rest = parts_from budget ((if full then [] else current) ++ (line ++ newline ∷ [])) ls in
    if full then current ∷ rest else rest

unfoldable pub split_on_lines : Text → ℕ → List Text
unfolding parts_from lines
split_on_lines text budget =
    let parts = parts_from budget [] (lines text) in if is_empty parts then text ∷ [] else parts
