-- ===== src/Update/Package.antt =====
-- crates/scribe-update/src/package.rs and the `Manifest` of manifest.rs. The gzip and tar layers are
-- the crates': an archive is the list of what the tar reader yields, each entry its path and body or
-- the error of reading it. Bytes and code points are numbers.
use scribe_local.Common.{ℕ, Bool, ◌||◌, List, [], ◌∷◌, Option, none, some, ◌==◌, if◌then◌else◌}
use scribe_local.Common.Text.{Text, codes, text_eq, trim}
use scribe_local.Update.Errors.{Result, ok, err, ◌>>=◌, ok_or, invalid_package}

abbrev pub Bytes : Type 0
Bytes = List ℕ

pub record Manifest : Type 0 where
  pub name : Text
  pub version : Text
  pub target : Text
  pub sha256 : Text
  pub created_at : Text
  pub notes : Text

pub record Package : Type 0 where
  pub manifest_bytes : Bytes
  pub manifest : Manifest
  pub signature_hex : Text
  pub binary : Bytes

-- What is found so far while the archive is read.
pub record Found : Type 0 where
  pub manifest_bytes : Option Bytes
  pub signature_hex : Option Text
  pub binary : Option Bytes

abbrev is_separator : ℕ → Bool
is_separator c = (c == b'/') || (c == b'\\')

-- `rsplit(['/', '\\']).next()`: `best` is what follows the last separator so far.
unfoldable pub after_last : Text → Text → Text
after_last best [] = best
after_last best (c ∷ s) = after_last (if is_separator c then s else best) s

unfoldable pub base_name : Text → Text
unfolding after_last
base_name path = after_last path path

abbrev pub manifest_entry : Text
manifest_entry = codes "manifest.json"

abbrev pub sig_entry : Text
sig_entry = codes "manifest.sig"

abbrev pub binary_entry : Text
binary_entry = codes "scribe"

-- The readers of the crates: `from_bytes` parses JSON with serde, `from_utf8_lossy` decodes bytes,
-- and `as_bytes` encodes a text as UTF-8.
module _ (from_bytes : Bytes → Option Manifest) (from_utf8_lossy : Bytes → Text)
    (as_bytes : Text → Bytes) where
  unfoldable pub store_entry : Text → Bytes → Found → Found
  store_entry name buf f =
      if text_eq name manifest_entry
      then record f { manifest_bytes = some buf }
      else if text_eq name sig_entry
      then record f { signature_hex = some (trim (from_utf8_lossy buf)) }
      else if text_eq name binary_entry
      then record f { binary = some buf }
      else if text_eq name (codes "scribe.exe")
      then record f { binary = some buf }
      else f

  unfoldable pub read_entries : List (Result (Text × Bytes)) → Found → Result Found
  unfolding store_entry base_name
  read_entries [] f = ok f
  read_entries (err e ∷ entries) f = err e
  read_entries (ok (path, buf) ∷ entries) f =
      read_entries entries (store_entry (base_name path) buf f)

  unfoldable pub finish : Found → Result Package
  finish f = do
    manifest_bytes ← ok_or f.manifest_bytes invalid_package
    signature_hex ← ok_or f.signature_hex invalid_package
    binary ← ok_or f.binary invalid_package
    manifest ← ok_or (from_bytes manifest_bytes) invalid_package
    ok (record {
      manifest_bytes = manifest_bytes;
      manifest = manifest;
      signature_hex = signature_hex;
      binary = binary;
    })

  -- `Package::from_reader` from the entries of the archive.
  unfoldable pub from_reader : List (Result (Text × Bytes)) → Result Package
  unfolding read_entries finish
  from_reader entries = do
    f ← read_entries entries (record { manifest_bytes = none; signature_hex = none; binary = none })
    finish f

  -- The entries that `Package::write` appends.
  unfoldable pub write : Bytes → Text → Bytes → List (Result (Text × Bytes))
  write manifest_bytes signature_hex binary =
      ok (manifest_entry, manifest_bytes)
      ∷ ok (sig_entry, as_bytes signature_hex)
      ∷ ok (binary_entry, binary)
      ∷ []
