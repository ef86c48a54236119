-- ===== src/Examples/UpdateRuns.antt =====
-- Runs of the self-update, with a toy signature scheme: a signature holds the key's first byte, and
-- the hash of a binary is its text.
use scribe_local.Common.{
  ℕ, ◌≡◌, refl, true, false, [], ◌∷◌, Option, none, some, inl, ◌==◌, replicate,
}
use scribe_local.Common.Text.{Text, codes, trim}
use scribe_local.Update.Errors.{Result, ok, err, io}
use scribe_local.Update.Package.{base_name, Bytes, Manifest, Package, from_reader, write}
use scribe_local.Update.Archives.{IsExtra, from_reader-write}
use scribe_local.Update.Verify.{Platform, UpdateConfig, verify_package}
use scribe_local.Update.Trust.{IsTrusted}
use scribe_local.Update.Files.{FilePath, Files, File, same_path, exists}
use scribe_local.Update.Apply.{
  ApplyOptions, Grants, Commands, RollbackGrants, UpdateOutcome, apply_package, rollback,
  resolve_binary_path,
}
use scribe_local.Update.Installs.{
  IsInstalled, backup_of, apply_package-IsInstalled, apply_package-keeps, rollback-apply_package,
}

abbrev first_or_zero : Bytes → ℕ
first_or_zero [] = 0
first_or_zero (b ∷ bs) = b

-- A text of one character stands for 32 or 64 such bytes.
abbrev repeated : Text → Option Bytes
repeated [] = none
repeated (c ∷ []) = some (replicate 32 c)
repeated (c ∷ d ∷ s) = some (replicate 64 c)

abbrev toy : Platform
toy = record {
  Key = ℕ;
  hex_decode = repeated;
  key_from_bytes = λ bs. some (first_or_zero bs);
  verify_strict = λ k m s. first_or_zero s == k;
  sha256_hex = λ b. b;
  to_lowercase = λ s. s;
  host = codes "x";
  running = codes "1.2.9";
}

abbrev toy_config : UpdateConfig
toy_config = record {
  public_key = some (codes "k");
  allow_downgrade = false;
  allow_target_mismatch = false;
}

abbrev release : Manifest
release = record {
  name = codes "scribe";
  version = codes "v1.10.0-rc1";
  target = codes "any";
  sha256 = codes " abc ";
  created_at = [];
  notes = [];
}

abbrev toy_package : Text → Package
toy_package signature = record {
  manifest_bytes = codes "{}";
  manifest = release;
  signature_hex = signature;
  binary = codes "abc";
}

abbrev working : Commands
working = record {
  check_version = λ f. some true;
  migrate = λ f url. some true;
  version_text = λ f. codes "1.2.9";
}

abbrev all_granted : Grants
all_granted = record {
  create_dir = true;
  write = true;
  partial = none;
  chmod = true;
  clear = true;
  back_up = true;
  install = true;
  restore = true;
  clean_up = true;
}

abbrev server : FilePath
server = record { parent = codes "/opt"; file_name = some (codes "scribe") }

abbrev old_binary : File
old_binary = record { content = codes "old"; executable = true }

abbrev disk : Files
disk q = elim (same_path server q) [ true ↦ some old_binary | false ↦ none ]

abbrev options : ApplyOptions
options = record { db_url = some (codes "db"); run_sanity_check = true; run_migrations = true }

abbrev toy_run : Grants → Files × Result UpdateOutcome
toy_run g =
    apply_package toy working g toy_config (some server) none (toy_package (codes "kk")) options
      disk

abbrev toy_outcome : UpdateOutcome
toy_outcome = record {
  from_version = codes "1.2.9";
  to_version = codes "v1.10.0-rc1";
  target = codes "any";
  binary_path = server;
  backup_path = backup_of server;
}

toy_run-ok : (toy_run all_granted).1 ≡ ok toy_outcome
unfolding apply_package verify_package trim same_path
toy_run-ok = refl

apply_package-IsInstalled_example :
    IsTrusted toy toy_config (toy_package (codes "kk"))
    × ((p : FilePath) × (resolve_binary_path (some server) none ≡ ok p)
        × IsInstalled p (toy_package (codes "kk")) disk (toy_run all_granted).0)
apply_package-IsInstalled_example =
    apply_package-IsInstalled toy working all_granted toy_config (some server) none
      (toy_package (codes "kk")) options disk toy_run-ok

abbrev stuck : Grants
stuck = record all_granted { install = false }

toy_run-err : (toy_run stuck).1 ≡ err io
unfolding apply_package verify_package trim same_path
toy_run-err = refl

server_there : exists server disk ≡ true
unfolding same_path
server_there = refl

apply_package-keeps_example : (toy_run stuck).0 server ≡ disk server
apply_package-keeps_example =
    apply_package-keeps toy working stuck toy_config (some server) none (toy_package (codes "kk"))
      options disk server refl refl (inl server_there) toy_run-err

abbrev back_granted : RollbackGrants
back_granted = record { clear = false; set_aside = true; restore = true; keep = true }

rollback-apply_package_example :
    let undone = rollback working back_granted (some server) none (toy_run all_granted).0 in
    (undone.0 server ≡ disk server)
    × (undone.0 (backup_of server) ≡ some (record { content = codes "abc"; executable = true }))
    × (undone.1 ≡ ok (codes "1.2.9"))
rollback-apply_package_example =
    rollback-apply_package toy working all_granted toy_config (some server) none
      (toy_package (codes "kk")) options disk server back_granted refl refl refl refl server_there
      toy_run-ok

-- The crates' readers, on ASCII: a manifest's bytes are its version.
abbrev toy_manifest : Bytes → Option Manifest
toy_manifest b = some (record release { version = b })

IsExtra-readme : IsExtra (ok (codes "x/README", codes "hello"))
unfolding base_name
IsExtra-readme = (refl, refl, refl, refl)

from_reader-write_example :
    from_reader toy_manifest
      (λ b. b)
      (λ s. s)
      (ok (codes "x/README", codes "hello")
        ∷ write toy_manifest (λ b. b) (λ s. s) (codes "2.0") (codes "ab ") (codes "elf"))
    ≡ ok (record {
      manifest_bytes = codes "2.0";
      manifest = record release { version = codes "2.0" };
      signature_hex = trim (codes "ab ");
      binary = codes "elf";
    })
from_reader-write_example =
    from_reader-write toy_manifest (λ b. b) (λ s. s) (codes "2.0") (codes "ab ") (codes "elf")
      (record release { version = codes "2.0" }) (ok (codes "x/README", codes "hello") ∷ [])
      (IsExtra-readme, tt) refl refl
