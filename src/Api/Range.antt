-- ===== src/Api/Range.antt =====
-- crates/scribe-api/src/range.rs. A file is its bytes, or absent; `to_str` of a header that is not
-- text gives no header. An error of the operating system other than "not found" is left out.
use scribe_local.Common.{
  ℕ, ◌+◌, ◌-◌, ◌*◌, ◌^◌, min, ◌&&◌, List, [], ◌∷◌, Option, none, some, ltb, leb, ◌==◌,
  if◌then◌else◌, length, take, drop,
}
use scribe_local.Common.Text.{Text, codes, trim}

pub data ParsedRange : Type 0 where
  full : ParsedRange
  bytes : ℕ → ℕ → ParsedRange
  unsatisfiable : ParsedRange

-- `strip_prefix`
unfoldable pub strip_prefix : Text → Text → Option Text
strip_prefix [] s = some s
strip_prefix (p ∷ ps) [] = none
strip_prefix (p ∷ ps) (c ∷ s) = let rest = strip_prefix ps s in if p == c then rest else none

-- `split(sep).next()`: the text before the first separator.
unfoldable pub before : ℕ → Text → Text
before sep [] = []
before sep (c ∷ s) = let rest = before sep s in if c == sep then [] else c ∷ rest

abbrev pub cons_left : ℕ → Option (Text × Text) → Option (Text × Text)
cons_left c none = none
cons_left c (some (a, b)) = some (c ∷ a, b)

unfoldable pub split_once : ℕ → Text → Option (Text × Text)
split_once sep [] = none
split_once sep (c ∷ s) =
    let rest = split_once sep s in if c == sep then some ([], s) else cons_left c rest

abbrev pub u64_bound : ℕ
u64_bound = 2 ^ 64

-- Digits, with what has been read so far; an overflow is an error.
unfoldable pub digits : ℕ → Text → Option ℕ
digits n [] = some n
digits n (c ∷ s) =
    let m = n * 10 + (c - b'0') in
    let rest = digits m s in if leb b'0' c && leb c b'9' && ltb m u64_bound then rest else none

-- `str::parse::<u64>`: a plus sign may come first.
unfoldable pub parse_u64 : Text → Option ℕ
unfolding digits
parse_u64 [] = none
parse_u64 (c ∷ []) = if c == b'+' then none else digits 0 (c ∷ [])
parse_u64 (c ∷ d ∷ s) = if c == b'+' then digits 0 (d ∷ s) else digits 0 (c ∷ d ∷ s)

abbrev pub suffix_range : ℕ → Option ℕ → ParsedRange
suffix_range total none = full
suffix_range total (some suffix) =
    if suffix == 0 then unsatisfiable else bytes (total - min suffix total) (total - 1)

abbrev pub bounded_range : ℕ → Option ℕ → ParsedRange
bounded_range start none = full
bounded_range start (some end) = if ltb end start then unsatisfiable else bytes start end

-- `start-end` or `start-`; an end past the last byte is the last byte.
abbrev pub end_of : ℕ → Text → Option ℕ
end_of total [] = some (total - 1)
end_of total (c ∷ s) = elim (parse_u64 (c ∷ s)) [ none ↦ none | some e ↦ some (min e (total - 1)) ]

abbrev pub start_range : ℕ → Text → Option ℕ → ParsedRange
start_range total end_s none = full
start_range total end_s (some start) =
    if ltb (total - 1) start then unsatisfiable else bounded_range start (end_of total end_s)

abbrev pub range_of : ℕ → Text × Text → ParsedRange
range_of total ([], end_s) = suffix_range total (parse_u64 end_s)
range_of total (c ∷ s, end_s) = start_range total end_s (parse_u64 (c ∷ s))

unfoldable pub parse_range : Text → ℕ → ParsedRange
unfolding strip_prefix before split_once parse_u64
parse_range value total = elim (strip_prefix (codes "bytes=") (trim value)) [
  | none ↦ full
  | some spec ↦ elim (split_once b'-' (trim (before b',' spec))) [
    | none ↦ full
    | some ends ↦ if total == 0 then unsatisfiable else range_of total ends
  ]
]

-- `Content-Range`: `bytes */total` or `bytes start-end/total`.
pub data ContentRange : Type 0 where
  any_of : ℕ → ContentRange
  part_of : ℕ → ℕ → ℕ → ContentRange

pub record Response : Type 0 where
  pub status : ℕ
  pub content_range : Option ContentRange
  pub content_length : Option ℕ
  pub body : List ℕ

unfoldable pub full_body : List ℕ → Response
full_body file = record {
  status = 200;
  content_range = none;
  content_length = some (length file);
  body = file;
}

abbrev pub serve_range : List ℕ → ParsedRange → Response
serve_range file full = full_body file
serve_range file unsatisfiable = record {
  status = 416;
  content_range = some (any_of (length file));
  content_length = none;
  body = [];
}
serve_range file (bytes start end) = record {
  status = 206;
  content_range = some (part_of start end (length file));
  content_length = some (end - start + 1);
  body = take (end - start + 1) (drop start file);
}

abbrev pub serve_header : List ℕ → Option Text → Response
serve_header file none = full_body file
serve_header file (some value) = serve_range file (parse_range value (length file))

-- `none` is the error that no such file exists.
unfoldable pub serve_file_range : Option (List ℕ) → Option Text → Option Response
unfolding parse_range full_body
serve_file_range none header = none
serve_file_range (some file) header = some (serve_header file header)
