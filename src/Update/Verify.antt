-- ===== src/Update/Verify.antt =====
-- crates/scribe-update/src/verify.rs. The hash, the signature scheme, the hexadecimal decoder and the
-- lower-casing of Unicode are a record of the crates' and the platform's functions.
use scribe_local.Common.{
  ℕ, ◌+◌, ◌-◌, ◌*◌, ◌^◌, Bool, true, false, not, ◌&&◌, ◌||◌, List, [], ◌∷◌, Option, none, some, ltb,
  leb, ◌==◌, if◌then◌else◌, length,
}
use scribe_local.Common.Text.{Text, codes, text_eq, trim}
use scribe_local.Update.Errors.{
  UpdateError, misconfigured, invalid_package, bad_signature, checksum_mismatch, downgrade,
  target_mismatch, Result, ok, err, ◌>>=◌, ◌>>◌, ok_or,
}
use scribe_local.Update.Package.{Bytes, Package}

-- What verify.rs reads of `UpdateConfig`.
pub record UpdateConfig : Type 0 where
  pub public_key : Option Text
  pub allow_downgrade : Bool
  pub allow_target_mismatch : Bool

-- `host` is `current_target()`, `running` the version of the running program.
pub record Platform : Type 1 where
  pub Key : Type 0
  pub hex_decode : Text → Option Bytes
  pub key_from_bytes : Bytes → Option Key
  pub verify_strict : Key → Bytes → Bytes → Bool
  pub sha256_hex : Bytes → Text
  pub to_lowercase : Text → Text
  pub host : Text
  pub running : Text

abbrev pub u64_bound : ℕ
u64_bound = 2 ^ 64

abbrev pub is_digit : ℕ → Bool
is_digit c = leb b'0' c && leb c b'9'

-- The digits of `str::parse::<u64>`, with the value before them; a value beyond 64 bits fails.
unfoldable pub parse_digits : ℕ → Text → Option ℕ
parse_digits n [] = some n
parse_digits n (c ∷ s) =
    let next = n * 10 + (c - b'0') in
    let rest = parse_digits next s in if is_digit c && ltb next u64_bound then rest else none

-- `parse::<u64>().unwrap_or(0)`, which accepts a leading plus.
unfoldable pub parse_or_zero : Text → ℕ
unfolding parse_digits
parse_or_zero [] = 0
parse_or_zero (c ∷ []) = elim (parse_digits 0 (c ∷ [])) [ none ↦ 0 | some n ↦ n ]
parse_or_zero (c ∷ d ∷ s) = elim (parse_digits 0 (if c == b'+' then d ∷ s else c ∷ d ∷ s)) [
  | none ↦ 0
  | some n ↦ n
]

unfoldable pub trim_start_v : Text → Text
trim_start_v [] = []
trim_start_v (c ∷ s) = if c == b'v' then trim_start_v s else c ∷ s

-- `split(['-', '+']).next()`
unfoldable pub before_suffix : Text → Text
before_suffix [] = []
before_suffix (c ∷ s) =
    let rest = before_suffix s in if (c == b'-') || (c == b'+') then [] else c ∷ rest

abbrev pub push_first : ℕ → List Text → List Text
push_first c [] = (c ∷ []) ∷ []
push_first c (p ∷ ps) = (c ∷ p) ∷ ps

-- `split('.')`, which has at least one part.
unfoldable pub split_dots : Text → List Text
split_dots [] = [] ∷ []
split_dots (c ∷ s) = let rest = split_dots s in if c == b'.' then [] ∷ rest else push_first c rest

-- The next number, or 0, and the parts after it.
unfoldable pub next_number : List Text → ℕ × List Text
unfolding parse_or_zero
next_number [] = (0, [])
next_number (p ∷ ps) = (parse_or_zero p, ps)

pub record Version : Type 0 where
  pub major : ℕ
  pub minor : ℕ
  pub patch : ℕ

unfoldable pub parse_version : Text → Version
unfolding trim_start_v before_suffix split_dots next_number
parse_version v =
    let a = next_number (split_dots (before_suffix (trim_start_v (trim v)))) in
    let b = next_number a.1 in
    let c = next_number b.1 in record { major = a.0; minor = b.0; patch = c.0 }

-- `<=` on the triples.
abbrev pub tuple_le : Version → Version → Bool
tuple_le a b =
    ltb a.major b.major
    || ((a.major == b.major)
        && (ltb a.minor b.minor || ((a.minor == b.minor) && leb a.patch b.patch)))

unfoldable pub version_le : Text → Text → Bool
unfolding parse_version
version_le a b = tuple_le (parse_version a) (parse_version b)

abbrev pub guard : Bool → UpdateError → Result (Unit {0})
guard true e = ok tt
guard false e = err e

abbrev pub of_length : ℕ → Bytes → Option Bytes
of_length n b = if length b == n then some b else none

module _ (pf : Platform) where
  open pf use {
    Key, hex_decode, key_from_bytes, verify_strict, sha256_hex, to_lowercase, host, running,
  }

  unfoldable pub parse_public_key : Text → Result Key
  parse_public_key s = do
    bytes ← ok_or (hex_decode (trim s)) misconfigured
    arr ← ok_or (of_length 32 bytes) misconfigured
    ok_or (key_from_bytes arr) misconfigured

  unfoldable pub parse_signature : Text → Result Bytes
  parse_signature s = do
    bytes ← ok_or (hex_decode (trim s)) invalid_package
    ok_or (of_length 64 bytes) invalid_package

  -- The first part of `verify_package`: who signed the manifest.
  unfoldable pub verify_signature : UpdateConfig → Package → Result (Unit {0})
  unfolding parse_public_key parse_signature
  verify_signature cfg pkg = do
    pubkey_hex ← ok_or cfg.public_key misconfigured
    verifying_key ← parse_public_key pubkey_hex
    signature ← parse_signature pkg.signature_hex
    guard (verify_strict verifying_key pkg.manifest_bytes signature) bad_signature

  abbrev pub target_ok : UpdateConfig → Text → Bool
  target_ok cfg target =
      text_eq target host || cfg.allow_target_mismatch || text_eq target (codes "any")

  unfoldable pub verify_package : UpdateConfig → Package → Result (Unit {0})
  unfolding verify_signature version_le
  verify_package cfg pkg = do
    verify_signature cfg pkg
    guard (text_eq (sha256_hex pkg.binary) (to_lowercase (trim pkg.manifest.sha256)))
        checksum_mismatch
    guard (text_eq pkg.manifest.name (codes "scribe")) invalid_package
    guard (target_ok cfg pkg.manifest.target) target_mismatch
    guard (cfg.allow_downgrade || not (version_le pkg.manifest.version running)) downgrade
