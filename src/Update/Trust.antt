-- ===== src/Update/Trust.antt =====
-- What `verify_package` has checked when it accepts a package.
use scribe_local.Common.{
  ℕ, ◌<◌, ◌≡◌, refl, Bool, true, false, ◌||◌, not, some, ◌⊎◌, inl, inr, length, Bool-cases, arith,
}
use scribe_local.Common.Text.{Text, codes, text_eq, text_eq_sound, trim}
use scribe_local.Update.Errors.{
  ok, ok_or, ok_or-ok, >>=-ok, UpdateError, misconfigured, invalid_package, checksum_mismatch,
  target_mismatch,
}
use scribe_local.Update.Package.{Bytes, Package}
use scribe_local.Update.Verify.{
  UpdateConfig, Platform, Version, parse_version, version_le, tuple_le, of_length, guard, target_ok,
  parse_public_key, parse_signature, verify_signature, verify_package,
}

-- The order of release: by major, then minor, then patch.
abbrev pub IsNewer : Version → Version → Type 0
IsNewer a b =
    (b.major < a.major)
    ⊎ ((a.major ≡ b.major) × ((b.minor < a.minor) ⊎ ((a.minor ≡ b.minor) × (b.patch < a.patch))))

module _ (pf : Platform) where
  open pf use {
    Key, hex_decode, key_from_bytes, verify_strict, sha256_hex, to_lowercase, host, running,
  }

  -- The manifest is signed with the configured key, the binary is the one it names, and it is for
  -- this program, this host and a later version, where the configuration asks for these.
  pub record IsTrusted (cfg : UpdateConfig) (pkg : Package) : Type 0 where
    pub public_key : Text
    pub key_bytes : Bytes
    pub key : Key
    pub signature : Bytes
    pub configured : cfg.public_key ≡ some public_key
    pub key_decoded : hex_decode (trim public_key) ≡ some key_bytes
    pub key_length : length key_bytes ≡ 32
    pub key_valid : key_from_bytes key_bytes ≡ some key
    pub signature_decoded : hex_decode (trim pkg.signature_hex) ≡ some signature
    pub signature_length : length signature ≡ 64
    pub signed : verify_strict key pkg.manifest_bytes signature ≡ true
    pub same_binary : sha256_hex pkg.binary ≡ to_lowercase (trim pkg.manifest.sha256)
    pub for_program : pkg.manifest.name ≡ codes "scribe"
    pub for_host :
        (pkg.manifest.target ≡ host)
        ⊎ ((cfg.allow_target_mismatch ≡ true) ⊎ (pkg.manifest.target ≡ codes "any"))
    pub is_update :
        (cfg.allow_downgrade ≡ true)
        ⊎ IsNewer (parse_version pkg.manifest.version) (parse_version running)

  guard-ok : (b : Bool) (e : UpdateError) {u : Unit {0}} → guard b e ≡ ok u → b ≡ true
  guard-ok true e h = refl
  guard-ok false e h = cc

  of_length-some :
      (n : ℕ) (b : Bytes) {c : Bytes} → of_length n b ≡ some c → (b ≡ c) × (length b ≡ n)
  of_length-some n b h = ground arith

  -- What a key in the configuration has to be.
  record IsKey (text : Text) (key : Key) : Type 0 where
    raw : Bytes
    decoded : hex_decode (trim text) ≡ some raw
    sized : length raw ≡ 32
    valid : key_from_bytes raw ≡ some key

  parse_public_key-ok :
      (text : Text) {key : Key} → parse_public_key pf text ≡ ok key → IsKey text key
  unfolding parse_public_key
  parse_public_key-ok text h =
      let a = >>=-ok (ok_or (hex_decode (trim text)) misconfigured) _ h in
      let b = >>=-ok (ok_or (of_length 32 a.0) misconfigured) _ a.2 in
      let sized = of_length-some 32 a.0 (ok_or-ok _ _ b.1) in
      record {
        raw = a.0;
        decoded = ok_or-ok _ _ a.1;
        sized = sized.1;
        valid = rw sized.0 (ok_or-ok _ _ b.2);
      }

  parse_signature-ok :
      (text : Text) {sig : Bytes}
      → parse_signature pf text ≡ ok sig
      → (hex_decode (trim text) ≡ some sig) × (length sig ≡ 64)
  unfolding parse_signature
  parse_signature-ok text h =
      let a = >>=-ok (ok_or (hex_decode (trim text)) invalid_package) _ h in
      let sized = of_length-some 64 a.0 (ok_or-ok _ _ a.2) in
      (rw (← sized.0) (ok_or-ok _ _ a.1), rw (← sized.0) sized.1)

  target_ok-cases :
      (cfg : UpdateConfig) (target : Text)
      → target_ok pf cfg target ≡ true
      → (target ≡ host) ⊎ ((cfg.allow_target_mismatch ≡ true) ⊎ (target ≡ codes "any"))
  target_ok-cases cfg target h = elim (Bool-cases (text_eq target host)) [
    | inl e ↦ inl (text_eq_sound _ _ e)
    | inr other ↦ elim (Bool-cases cfg.allow_target_mismatch) [
      | inl e ↦ inr (inl e)
      | inr other' ↦ inr (inr (text_eq_sound _ _ (ground arith)))
    ]
  ]

  newer : (a b : Version) → tuple_le a b ≡ false → IsNewer a b
  newer a b h = ground arith

  is_update-cases :
      (cfg : UpdateConfig) (v : Text)
      → (cfg.allow_downgrade || not (version_le v running)) ≡ true
      → (cfg.allow_downgrade ≡ true) ⊎ IsNewer (parse_version v) (parse_version running)
  unfolding version_le
  is_update-cases cfg v h = elim (Bool-cases cfg.allow_downgrade) [
    | inl e ↦ inl e
    | inr other ↦ inr (newer (parse_version v) (parse_version running) (ground arith))
  ]

  -- A package that `verify_package` accepts is trusted.
  pub verify_package-IsTrusted :
      (cfg : UpdateConfig) (pkg : Package) → verify_package pf cfg pkg ≡ ok tt → IsTrusted cfg pkg
  unfolding verify_package verify_signature
  verify_package-IsTrusted cfg pkg h =
      let a = >>=-ok (verify_signature pf cfg pkg) _ h in
      let hex = >>=-ok (ok_or cfg.public_key misconfigured) _ a.1 in
      let key = >>=-ok (parse_public_key pf hex.0) _ hex.2 in
      let sig = >>=-ok (parse_signature pf pkg.signature_hex) _ key.2 in
      let is_key = parse_public_key-ok hex.0 key.1 in
      let is_sig = parse_signature-ok pkg.signature_hex sig.1 in
      let sum = >>=-ok (guard _ checksum_mismatch) _ a.2 in
      let name = >>=-ok (guard _ invalid_package) _ sum.2 in
      let target = >>=-ok (guard (target_ok pf cfg pkg.manifest.target) target_mismatch) _ name.2 in
      record {
        public_key = hex.0;
        key_bytes = is_key.raw;
        key = key.0;
        signature = sig.0;
        configured = ok_or-ok _ _ hex.1;
        key_decoded = is_key.decoded;
        key_length = is_key.sized;
        key_valid = is_key.valid;
        signature_decoded = is_sig.0;
        signature_length = is_sig.1;
        signed = guard-ok _ _ sig.2;
        same_binary = text_eq_sound _ _ (guard-ok _ _ sum.1);
        for_program = text_eq_sound _ _ (guard-ok _ _ name.1);
        for_host = target_ok-cases cfg pkg.manifest.target (guard-ok _ _ target.1);
        is_update = is_update-cases cfg pkg.manifest.version (guard-ok _ _ target.2);
      }
