-- ===== src/Api/ByteRanges.antt =====
-- The bytes that a range request gets.
use scribe_local.Common.{
  ℕ, zero, suc, ◌+◌, ◌-◌, ◌≤◌, ◌<◌, ◌≡◌, refl, min, List, [], ◌∷◌, ◌++◌, Option, none, some, ltb,
  ◌==◌, length, take, drop, Bool-cases, Option-cases, inl, inr, arith, ◌⊎◌, length-take,
  length-drop, ap, sym, ◌∙◌, subst,
}
use scribe_local.Common.Text.{Text, codes, trim}
use scribe_local.Api.Range.{
  ParsedRange, full, bytes, unsatisfiable, strip_prefix, before, split_once, parse_u64,
  suffix_range, bounded_range, end_of, start_range, range_of, parse_range, any_of, part_of,
  Response, full_body, serve_range, serve_file_range,
}

-- The range lies within a file of the length.
abbrev pub IsWithin : ℕ → ParsedRange → Type 0
IsWithin total (bytes start end) = (start ≤ end) × (end < total)
IsWithin total full = Unit {0}
IsWithin total unsatisfiable = Unit {0}

bounded-IsWithin :
    (total start : ℕ) (o : Option ℕ)
    → 0 < total
    → ((e : ℕ) → o ≡ some e → e < total)
    → IsWithin total (bounded_range start o)
bounded-IsWithin total start none pos h = tt
bounded-IsWithin total start (some e) pos h = elim (Bool-cases (ltb e start)) [
  | inl less ↦ rw less tt
  | inr more ↦ rw more (ground arith, h e refl)
]

end_of-within : (total : ℕ) (s : Text) (e : ℕ) → 0 < total → end_of total s ≡ some e → e < total
end_of-within total [] e pos h = ground arith
end_of-within total (c ∷ s) e pos h = go (parse_u64 (c ∷ s)) h
  where
    go :
        (o : Option ℕ)
        → (elim o as (λ _. Option ℕ) [ none ↦ none | some e ↦ some (min e (total - 1)) ]) ≡ some e
        → e < total
    go none k = absurd (ground arith)
    go (some n) k = ground arith

suffix-IsWithin : (total : ℕ) (o : Option ℕ) → 0 < total → IsWithin total (suffix_range total o)
suffix-IsWithin total none pos = tt
suffix-IsWithin total (some n) pos = elim (Bool-cases (n == 0)) [
  | inl zero_len ↦ rw zero_len tt
  | inr more ↦ rw more (ground arith, omega arith)
]

start-IsWithin :
    (total : ℕ) (end_s : Text) (o : Option ℕ)
    → 0 < total
    → IsWithin total (start_range total end_s o)
start-IsWithin total end_s none pos = tt
start-IsWithin total end_s (some start) pos = elim (Bool-cases (ltb (total - 1) start)) [
  | inl past ↦ rw past tt
  | inr inside ↦ rw inside (
      bounded-IsWithin total start (end_of total end_s) pos
        (λ e h. end_of-within total end_s e pos h))
]

range_of-IsWithin :
    (total : ℕ) (ends : Text × Text) → 0 < total → IsWithin total (range_of total ends)
range_of-IsWithin total ([], end_s) pos = suffix-IsWithin total (parse_u64 end_s) pos
range_of-IsWithin total (c ∷ s, end_s) pos = start-IsWithin total end_s (parse_u64 (c ∷ s)) pos

-- Whatever the header says, a range that is taken from it lies within the file.
pub parse_range-IsWithin : (value : Text) (total : ℕ) → IsWithin total (parse_range value total)
unfolding parse_range
parse_range-IsWithin value total =
    elim (Option-cases (strip_prefix (codes "bytes=") (trim value))) [
      | inl e ↦ rw (e, parse_range) tt
      | inr (spec, e) ↦ elim (Option-cases (split_once b'-' (trim (before b',' spec)))) [
        | inl f ↦ rw (e, f, parse_range) tt
        | inr (ends, f) ↦ elim (Bool-cases (total == 0)) [
          | inl empty ↦ rw (e, f, empty, parse_range) tt
          | inr filled ↦
              rw (e, f, filled, parse_range) (range_of-IsWithin total ends (ground arith))
        ]
      ]
    ]

length-slice :
    (xs : List ℕ) (start n : ℕ) → start + n ≤ length xs → length (take n (drop start xs)) ≡ n
length-slice xs start n h =
    omega (arith, length-take {0} n (drop start xs), length-drop {0} start xs, h)

take-drop : (n : ℕ) (xs : List ℕ) → take n xs ++ drop n xs ≡ xs
take-drop zero xs = refl
take-drop (suc n) [] = refl
take-drop (suc n) (x ∷ xs) = ap (λ ys. x ∷ ys) (take-drop n xs)

take_nothing : (n : ℕ) → take {A = ℕ} n [] ++ [] ≡ []
take_nothing zero = refl
take_nothing (suc n) = refl

split_drop : (s n m : ℕ) (xs : List ℕ) → m ≡ s + n → take n (drop s xs) ++ drop m xs ≡ drop s xs
split_drop zero n m xs e =
    subst (λ k. take n xs ++ drop k xs ≡ xs) (omega (arith, e)) (take-drop n xs)
split_drop (suc s) n zero xs e = absurd (omega (arith, e))
split_drop (suc s) n (suc m) [] e = take_nothing n
split_drop (suc s) n (suc m) (x ∷ xs) e = split_drop s n m xs (omega (arith, e))

-- The answer for a file: all of it; or a part of it, whose length and place the headers give; or
-- nothing.
abbrev pub IsAnswer : List ℕ → Response → Type 0
IsAnswer file r =
    (r ≡ full_body file)
    ⊎ ((start : ℕ) × (end : ℕ) × (start ≤ end)
        × (end < length file)
        × (r.status ≡ 206)
        × (r.content_range ≡ some (part_of start end (length file)))
        × (r.content_length ≡ some (length r.body))
        × (take start file ++ (r.body ++ drop (end + 1) file) ≡ file))
    ⊎ ((r.status ≡ 416) × (r.content_range ≡ some (any_of (length file))) × (r.body ≡ []))

serve_range-IsAnswer :
    (file : List ℕ) (p : ParsedRange)
    → IsWithin (length file) p
    → IsAnswer file (serve_range file p)
serve_range-IsAnswer file full h = inl refl
serve_range-IsAnswer file unsatisfiable h = inr (inr (refl, refl, refl))
serve_range-IsAnswer file (bytes start end) h = inr (
    inl (
      start,
      end,
      h.0,
      h.1,
      refl,
      refl,
      ap some (sym (length-slice file start (end - start + 1) (omega (arith, h.0, h.1)))),
      ap (λ ys. take start file ++ ys)
            (split_drop start (end - start + 1) (end + 1) file (omega (arith, h.0)))
          ∙ take-drop start file,
    ))

-- An existing file is answered whole with 200, or by a part with 206, where the headers give the
-- part's bounds within the file and its length and the part stands in the file between them, or
-- with 416 and no body.
pub serve_file_range-IsAnswer :
    (file : List ℕ) (header : Option Text)
    → (r : Response) × (serve_file_range (some file) header ≡ some r) × IsAnswer file r
unfolding serve_file_range
serve_file_range-IsAnswer file none = (full_body file, refl, inl refl)
serve_file_range-IsAnswer file (some value) = (
  serve_range file (parse_range value (length file)),
  refl,
  serve_range-IsAnswer file (parse_range value (length file))
      (parse_range-IsWithin value (length file)),
)
