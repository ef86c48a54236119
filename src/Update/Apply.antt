-- ===== src/Update/Apply.antt =====
-- `apply_package` and `rollback` of crates/scribe-update/src/apply.rs.
use scribe_local.Common.{Bool, true, false, not, [], ◌∷◌, Option, none, some, if◌then◌else◌}
use scribe_local.Common.Text.{Text, codes}
use scribe_local.Update.Errors.{
  UpdateError, sanity_check, migration, no_backup, io, other, Result, ok, err, ◌>>◌, ok_or,
}
use scribe_local.Update.Package.{Package}
use scribe_local.Update.Verify.{UpdateConfig, Platform, verify_package}
use scribe_local.Update.Files.{
  FilePath, File, Files, Call, exists, remove_file, rename, write_file, set_executable, sibling,
}

pub record ApplyOptions : Type 0 where
  pub db_url : Option Text
  pub run_sanity_check : Bool
  pub run_migrations : Bool

pub record UpdateOutcome : Type 0 where
  pub from_version : Text
  pub to_version : Text
  pub target : Text
  pub binary_path : FilePath
  pub backup_path : FilePath

-- Which of the calls the system grants, in their order. A failed write leaves `partial` behind.
pub record Grants : Type 0 where
  pub create_dir : Bool
  pub write : Bool
  pub partial : Option File
  pub chmod : Bool
  pub clear : Bool
  pub back_up : Bool
  pub install : Bool
  pub restore : Bool
  pub clean_up : Bool

-- What running a binary comes to: `none` if it cannot be spawned, else whether it succeeds. A binary
-- that runs is taken to leave the files of the update alone.
pub record Commands : Type 0 where
  pub check_version : Option File → Option Bool
  pub migrate : Option File → Text → Option Bool
  pub version_text : Option File → Text

abbrev pub succeeded : Option Bool → UpdateError → Result (Unit {0})
succeeded none e = err e
succeeded (some true) e = ok tt
succeeded (some false) e = err e

-- `binary_path` of the configuration, else the running program's own path, if that is known.
abbrev pub resolve_binary_path : Option FilePath → Option FilePath → Result FilePath
resolve_binary_path (some p) exe = ok p
resolve_binary_path none exe = ok_or exe other

module _ (cmd : Commands) where
  unfoldable pub sanity : ApplyOptions → Option File → Result (Unit {0})
  sanity opts staged =
      if opts.run_sanity_check then succeeded (cmd.check_version staged) sanity_check else ok tt

  abbrev migrate_url : Option Text → Option File → Result (Unit {0})
  migrate_url none staged = ok tt
  migrate_url (some []) staged = ok tt
  migrate_url (some (c ∷ url)) staged = succeeded (cmd.migrate staged (c ∷ url)) migration

  unfoldable pub migrate_with : ApplyOptions → Option File → Result (Unit {0})
  migrate_with opts staged = if opts.run_migrations then migrate_url opts.db_url staged else ok tt

-- Moving the old binary away, where there is one.
unfoldable pub back_up : Grants → FilePath → FilePath → Files → Call
back_up g binary backup fs =
    if exists binary fs
    then rename g.back_up binary backup (remove_file g.clear backup fs).0
    else (fs, true)

-- Moving the staged binary in; where that fails, what stands at the backup is put back.
unfoldable pub move_in : Grants → FilePath → FilePath → FilePath → Files → Files × Result (Unit {0})
move_in g binary staged backup fs =
    let moved = rename g.install staged binary fs in
    if moved.1 then (moved.0, ok tt) else (
      if exists backup moved.0 then (rename g.restore backup binary moved.0).0 else moved.0,
      err io,
    )

unfoldable pub swap : Grants → FilePath → FilePath → FilePath → Files → Files × Result (Unit {0})
unfolding back_up move_in
swap g binary staged backup fs =
    let kept = back_up g binary backup fs in
    if kept.1 then move_in g binary staged backup kept.0 else (kept.0, err io)

abbrev pub attempt :
    Result (Unit {0}) → Files → Files × Result (Unit {0}) → Files × Result (Unit {0})
attempt (ok u) fs rest = rest
attempt (err e) fs rest = (fs, err e)

-- The closure of `apply_package`.
unfoldable pub check_and_swap :
    Commands
    → Grants
    → ApplyOptions
    → FilePath
    → FilePath
    → FilePath
    → Files
    → Files × Result (Unit {0})
unfolding sanity migrate_with swap
check_and_swap cmd g opts binary staged backup fs =
    attempt (do sanity cmd opts (fs staged); migrate_with cmd opts (fs staged)) fs
      (swap g binary staged backup fs)

abbrev pub clean_up :
    Grants → FilePath → UpdateOutcome → Files × Result (Unit {0}) → Files × Result UpdateOutcome
clean_up g staged outcome (fs, ok u) = (fs, ok outcome)
clean_up g staged outcome (fs, err e) = ((remove_file g.clean_up staged fs).0, err e)

-- The binary, staged beside the old one.
unfoldable pub stage : Grants → Package → FilePath → Files → Call
stage g pkg staged fs =
    let written = write_file g.write g.partial staged pkg.binary fs in
    if not g.create_dir
    then (fs, false)
    else if not written.1
    then written
    else set_executable g.chmod staged written.0

abbrev pub after_stage :
    Call → (Files → Files × Result UpdateOutcome) → Files × Result UpdateOutcome
after_stage (fs, true) f = f fs
after_stage (fs, false) f = (fs, err io)

-- From the staging of the binary on.
unfoldable pub install :
    Commands
    → Grants
    → ApplyOptions
    → Package
    → FilePath
    → FilePath
    → FilePath
    → UpdateOutcome
    → Files
    → Files × Result UpdateOutcome
unfolding stage check_and_swap
install cmd g opts pkg binary staged backup outcome fs =
    after_stage (stage g pkg staged fs)
      λ marked. clean_up g staged outcome (check_and_swap cmd g opts binary staged backup marked)

abbrev pub with_binary :
    Files
    → Result FilePath
    → (FilePath → Files × Result UpdateOutcome)
    → Files × Result UpdateOutcome
with_binary fs (ok p) f = f p
with_binary fs (err e) f = (fs, err e)

unfoldable pub apply_package :
    Platform
    → Commands
    → Grants
    → UpdateConfig
    → Option FilePath
    → Option FilePath
    → Package
    → ApplyOptions
    → Files
    → Files × Result UpdateOutcome
unfolding sibling install
apply_package pf cmd g cfg configured exe pkg opts fs =
    with_binary fs (do verify_package pf cfg pkg; resolve_binary_path configured exe)
      (λ binary.
        install cmd g opts pkg binary (sibling binary (codes "new")) (sibling binary (codes "old"))
          (record {
            from_version = pf.running;
            to_version = pkg.manifest.version;
            target = pkg.manifest.target;
            binary_path = binary;
            backup_path = sibling binary (codes "old");
          })
          fs)

-- The calls of `rollback` that the system grants.
pub record RollbackGrants : Type 0 where
  pub clear : Bool
  pub set_aside : Bool
  pub restore : Bool
  pub keep : Bool

abbrev pub set_aside : RollbackGrants → FilePath → FilePath → Files → Call
set_aside g binary pending fs =
    if exists binary fs then rename g.set_aside binary pending fs else (fs, true)

abbrev pub keep_pending : RollbackGrants → FilePath → FilePath → Files → Files
keep_pending g pending backup fs =
    if exists pending fs then (rename g.keep pending backup fs).0 else fs

unfoldable pub swap_back :
    Commands → RollbackGrants → FilePath → FilePath → FilePath → Files → Files × Result Text
swap_back cmd g binary backup pending fs =
    let cleared = remove_file g.clear pending fs in
    let aside = set_aside g binary pending cleared.0 in
    let restored = rename g.restore backup binary aside.0 in
    let kept = keep_pending g pending backup restored.0 in
    if not (exists backup fs)
    then (fs, err no_backup)
    else if not aside.1
    then (aside.0, err io)
    else if not restored.1
    then (restored.0, err io)
    else (kept, ok (cmd.version_text (kept binary)))

abbrev pub with_path :
    Files → Result FilePath → (FilePath → Files × Result Text) → Files × Result Text
with_path fs (ok p) f = f p
with_path fs (err e) f = (fs, err e)

unfoldable pub rollback :
    Commands → RollbackGrants → Option FilePath → Option FilePath → Files → Files × Result Text
unfolding sibling swap_back
rollback cmd g configured exe fs = with_path fs (resolve_binary_path configured exe) (λ binary.
    swap_back cmd g binary (sibling binary (codes "old")) (sibling binary (codes "rollback-tmp"))
      fs)
