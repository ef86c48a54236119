-- ===== src/Update/Installs.antt =====
-- What an update, and a rollback after it, leave on disk.
use scribe_local.Common.{
  ◌≡◌, refl, sym, ap, subst, ◌∙◌, true, false, Option, none, some, ◌⊎◌, if◌then◌else◌,
}
use scribe_local.Common.Text.{codes}
use scribe_local.Update.Errors.{UpdateError, Result, ok, err, ◌>>◌, >>=-ok}
use scribe_local.Update.Package.{Package}
use scribe_local.Update.Verify.{UpdateConfig, Platform, verify_package}
use scribe_local.Update.Trust.{IsTrusted, verify_package-IsTrusted}
use scribe_local.Update.Files.{FilePath, Files, exists, sibling, same_path}
use scribe_local.Update.Apply.{
  ApplyOptions, UpdateOutcome, Grants, Commands, RollbackGrants, resolve_binary_path, install,
  with_binary, apply_package, rollback,
}
use scribe_local.Update.Swaps.{
  AreApart, siblings-AreApart, install-ok, install-err, swap_back-swaps,
}

abbrev pub staged_of : FilePath → FilePath
staged_of p = sibling p (codes "new")

abbrev pub backup_of : FilePath → FilePath
backup_of p = sibling p (codes "old")

-- The files after an update: the new binary is in place and may be run, the one that it replaces is
-- the backup, nothing is left staged, and every other path is as it was.
pub record IsInstalled (binary : FilePath) (pkg : Package) (before after : Files) : Type 0 where
  pub installed : after binary ≡ some (record { content = pkg.binary; executable = true })
  pub backed_up :
      after (backup_of binary)
      ≡ (if exists binary before then before binary else before (backup_of binary))
  pub unstaged : after (staged_of binary) ≡ none
  pub untouched :
      (q : FilePath)
      → same_path binary q ≡ false
      → same_path (staged_of binary) q ≡ false
      → same_path (backup_of binary) q ≡ false
      → after q ≡ before q

module _ (p : FilePath) where
  apart : AreApart p (staged_of p) (backup_of p)
  apart = siblings-AreApart p (codes "new") (codes "old") refl refl

  pending_apart : AreApart p (sibling p (codes "rollback-tmp")) (backup_of p)
  pending_apart = siblings-AreApart p (codes "rollback-tmp") (codes "old") refl refl

with_binary-ok :
    (fs : Files) (r : Result FilePath) (f : FilePath → Files × Result UpdateOutcome)
    {o : UpdateOutcome}
    → (with_binary fs r f).1 ≡ ok o
    → (p : FilePath) × (r ≡ ok p) × (with_binary fs r f ≡ f p)
with_binary-ok fs (ok p) f h = (p, refl, refl)
with_binary-ok fs (err e) f h = absurd (cc)

with_binary-err :
    (fs : Files) (r : Result FilePath) (f : FilePath → Files × Result UpdateOutcome) (p : FilePath)
    {e : UpdateError}
    → ((q : FilePath) (e' : UpdateError) → r ≡ ok q → (f q).1 ≡ err e' → (f q).0 p ≡ fs p)
    → (with_binary fs r f).1 ≡ err e
    → (with_binary fs r f).0 p ≡ fs p
with_binary-err fs (ok q) f p {e} k h = k q e refl h
with_binary-err fs (err e) f p k h = refl

module _ (pf : Platform) (cmd : Commands) (g : Grants) (cfg : UpdateConfig)
    (configured exe : Option FilePath) (pkg : Package) (opts : ApplyOptions) (fs : Files) where
  abbrev resolved : Result FilePath
  resolved = do verify_package pf cfg pkg; resolve_binary_path configured exe

  abbrev outcome_at : FilePath → UpdateOutcome
  outcome_at p = record {
    from_version = pf.running;
    to_version = pkg.manifest.version;
    target = pkg.manifest.target;
    binary_path = p;
    backup_path = backup_of p;
  }

  abbrev installed_at : FilePath → Files × Result UpdateOutcome
  installed_at p = install cmd g opts pkg p (staged_of p) (backup_of p) (outcome_at p) fs

  -- An update that succeeds has installed a trusted package: the new binary is in place and may be
  -- run, the one that it replaces is the backup, nothing is left staged, and every other path is as
  -- it was.
  pub apply_package-IsInstalled :
      {o : UpdateOutcome}
      → (apply_package pf cmd g cfg configured exe pkg opts fs).1 ≡ ok o
      → IsTrusted pf cfg pkg
        × ((p : FilePath) × (resolve_binary_path configured exe ≡ ok p)
            × IsInstalled p pkg fs (apply_package pf cmd g cfg configured exe pkg opts fs).0)
  unfolding apply_package
  apply_package-IsInstalled h =
      let at = with_binary-ok fs resolved installed_at h in
      let v = >>=-ok (verify_package pf cfg pkg) _ at.1 in
      let p = at.0 in
      let k =
        install-ok p (staged_of p) (backup_of p) (apart p) cmd g opts pkg (outcome_at p) fs
          (sym (ap (λ (r : Files × Result UpdateOutcome). r.1) at.2) ∙ h) in
      (
        verify_package-IsTrusted pf cfg pkg v.1,
        (
          p,
          v.2,
          subst (λ (r : Files × Result UpdateOutcome). IsInstalled p pkg fs r.0) (sym at.2)
              (record {
                installed = k.at_binary;
                backed_up = k.at_backup;
                unstaged = k.at_staged;
                untouched = k.elsewhere;
              }),
        ),
      )

  -- An update that fails leaves the binary's path as it was, if a binary stood there or no backup
  -- did, and if the system grants that the old one is put back.
  pub apply_package-keeps :
      (p : FilePath) {e : UpdateError}
      → g.restore ≡ true
      → resolve_binary_path configured exe ≡ ok p
      → (exists p fs ≡ true) ⊎ (exists (backup_of p) fs ≡ false)
      → (apply_package pf cmd g cfg configured exe pkg opts fs).1 ≡ err e
      → (apply_package pf cmd g cfg configured exe pkg opts fs).0 p ≡ fs p
  unfolding apply_package
  apply_package-keeps p r at there h = with_binary-err fs resolved installed_at p keep h
    where
      keep :
          (q : FilePath) (e' : UpdateError)
          → resolved ≡ ok q
          → (installed_at q).1 ≡ err e'
          → (installed_at q).0 p ≡ fs p
      keep q e' rq =
          let v = >>=-ok (verify_package pf cfg pkg) _ rq in
          let same : p ≡ q = cc (at, v.2) in
          subst (λ (x : FilePath). (installed_at x).1 ≡ err e' → (installed_at x).0 p ≡ fs p) same
            (install-err p (staged_of p) (backup_of p) (apart p) cmd g opts pkg (outcome_at p) fs r
              there)

  -- A rollback undoes an update: where a binary stood, and the renames are granted, it stands there
  -- again, the new binary is the backup, and the version of the old one is the answer.
  pub rollback-apply_package :
      (p : FilePath) {o : UpdateOutcome} (rg : RollbackGrants)
      → rg.set_aside ≡ true
      → rg.restore ≡ true
      → rg.keep ≡ true
      → resolve_binary_path configured exe ≡ ok p
      → exists p fs ≡ true
      → (apply_package pf cmd g cfg configured exe pkg opts fs).1 ≡ ok o
      → let undone =
          rollback cmd rg configured exe
            (apply_package pf cmd g cfg configured exe pkg opts fs).0 in
        (undone.0 p ≡ fs p)
        × (undone.0 (backup_of p) ≡ some (record { content = pkg.binary; executable = true }))
        × (undone.1 ≡ ok (cmd.version_text (fs p)))
  unfolding rollback
  rollback-apply_package p rg ga gr gk at there h =
      let i = apply_package-IsInstalled h in
      let same : i.1.0 ≡ p = cc (at, i.1.1) in
      let moved = apply_package pf cmd g cfg configured exe pkg opts fs in
      let k = subst (λ (x : FilePath). IsInstalled x pkg fs moved.0) same i.1.2 in
      let kept : moved.0 (backup_of p) ≡ fs p = k.backed_up ∙ rw there refl in
      let w =
        swap_back-swaps cmd rg p (sibling p (codes "rollback-tmp")) (backup_of p) moved.0
          (pending_apart p) ga gr gk (rw k.installed refl) (rw kept there) in
      rw at (w.0 ∙ kept, w.1 ∙ k.installed, w.2 ∙ ap (λ f. ok (cmd.version_text f)) kept)
