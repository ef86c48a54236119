-- ===== src/Update/Archives.antt =====
-- Reading back an archive that was written.
use scribe_local.Common.{◌≡◌, refl, false, List, [], ◌∷◌, ◌++◌, Option, some, All, arith}
use scribe_local.Common.Text.{Text, codes, text_eq, trim}
use scribe_local.Update.Errors.{Result, ok, err}
use scribe_local.Update.Package.{
  Bytes, Manifest, Found, base_name, after_last, manifest_entry, sig_entry, binary_entry,
  store_entry, read_entries, finish, from_reader, write,
}

-- An entry that the reader has no use for.
abbrev pub IsExtra : Result (Text × Bytes) → Type 0
IsExtra (err e) = ⊥
IsExtra (ok (path, buf)) =
    (text_eq (base_name path) manifest_entry ≡ false)
    × (text_eq (base_name path) sig_entry ≡ false)
    × (text_eq (base_name path) binary_entry ≡ false)
    × (text_eq (base_name path) (codes "scribe.exe") ≡ false)

module _ (from_bytes : Bytes → Option Manifest) (from_utf8_lossy : Bytes → Text)
    (as_bytes : Text → Bytes) where
  read_entries-extra :
      (extra more : List (Result (Text × Bytes))) (f : Found)
      → All IsExtra extra
      → read_entries from_bytes from_utf8_lossy as_bytes (extra ++ more) f
        ≡ read_entries from_bytes from_utf8_lossy as_bytes more f
  unfolding read_entries store_entry
  read_entries-extra [] more f h = refl
  read_entries-extra (ok (path, buf) ∷ extra) more f (h, hs) =
      ground (arith, read_entries-extra extra more f hs)
  read_entries-extra (err e ∷ extra) more f (h, hs) = absurd h

  -- A package that is written is read back as it was, with its signature trimmed, whatever other
  -- files stand before it in the archive, if its manifest parses and its signature is text that the
  -- lossy decoder leaves as it is.
  pub from_reader-write :
      (manifest_bytes : Bytes) (signature_hex : Text) (binary : Bytes) (manifest : Manifest)
      (extra : List (Result (Text × Bytes)))
      → All IsExtra extra
      → from_utf8_lossy (as_bytes signature_hex) ≡ signature_hex
      → from_bytes manifest_bytes ≡ some manifest
      → from_reader from_bytes from_utf8_lossy as_bytes
          (extra ++ write from_bytes from_utf8_lossy as_bytes manifest_bytes signature_hex binary)
        ≡ ok (record {
          manifest_bytes = manifest_bytes;
          manifest = manifest;
          signature_hex = trim signature_hex;
          binary = binary;
        })
  unfolding from_reader write read_entries store_entry base_name after_last finish
  from_reader-write m s b man extra h decoded parsed =
      rw (read_entries-extra extra _ _ h) (rw (decoded, parsed) refl)
