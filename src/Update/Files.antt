-- ===== src/Update/Files.antt =====
-- The file system, as far as crates/scribe-update/src/apply.rs works on it: what stands at each path.
-- Whether the system grants a call is an argument of it.
use scribe_local.Common.{
  ℕ, ◌≡◌, refl, ◌∙◌, Bool, true, false, ◌&&◌, [], ◌∷◌, ◌++◌, Option, none, some, if◌then◌else◌,
  arith,
}
use scribe_local.Common.Text.{Text, codes, text_eq, text_eq_refl}
use scribe_local.Update.Package.{Bytes}

-- The last component of a path is none where it is the root or ends in `..`.
pub record FilePath : Type 0 where
  pub parent : Text
  pub file_name : Option Text

pub record File : Type 0 where
  pub content : Bytes
  pub executable : Bool

abbrev same_name : Option Text → Option Text → Bool
same_name none none = true
same_name (some a) (some b) = text_eq a b
same_name _ _ = false

unfoldable pub same_path : FilePath → FilePath → Bool
same_path p q = text_eq p.parent q.parent && same_name p.file_name q.file_name

abbrev pub Files : Type 0
Files = FilePath → Option File

abbrev pub exists_at : Option File → Bool
exists_at none = false
exists_at (some f) = true

-- `Path::exists`
abbrev pub exists : FilePath → Files → Bool
exists p fs = exists_at (fs p)

abbrev pub put : FilePath → Option File → Files → Files
put p f fs q = if same_path p q then f else fs q

-- A call's result: the files after it, and whether it succeeded.
abbrev pub Call : Type 0
Call = Files × Bool

abbrev pub remove_file : Bool → FilePath → Files → Call
remove_file granted p fs = if granted && exists p fs then (put p none fs, true) else (fs, false)

-- `std::fs::rename`, which replaces what stands at the target.
abbrev pub rename : Bool → FilePath → FilePath → Files → Call
rename granted from target fs =
    if granted && exists from fs
    then (put from none (put target (fs from) fs), true)
    else (fs, false)

abbrev is_executable_at : Option File → Bool
is_executable_at none = false
is_executable_at (some f) = f.executable

-- `std::fs::write`, which keeps the permissions of a file that exists. A call that fails leaves
-- `partial` behind.
abbrev pub write_file : Bool → Option File → FilePath → Bytes → Files → Call
write_file granted partial p content fs =
    if granted
    then (
      put p (some (record { content = content; executable = is_executable_at (fs p) })) fs,
      true,
    )
    else (put p partial fs, false)

abbrev make_executable : Option File → Option File
make_executable none = none
make_executable (some f) = some (record f { executable = true })

-- `set_executable`, on unix.
abbrev pub set_executable : Bool → FilePath → Files → Call
set_executable granted p fs =
    if granted && exists p fs then (put p (make_executable (fs p)) fs, true) else (fs, false)

abbrev name_or_scribe : Option Text → Text
name_or_scribe none = codes "scribe"
name_or_scribe (some n) = n

unfoldable pub sibling : FilePath → Text → FilePath
sibling p ext = record p { file_name = some (name_or_scribe p.file_name ++ b'.' ∷ ext) }

pub same_path_refl : (p : FilePath) → same_path p p ≡ true
unfolding same_path
same_path_refl p = rw (text_eq_refl p.parent) (same_name_refl p.file_name)
  where
    same_name_refl : (n : Option Text) → same_name n n ≡ true
    same_name_refl none = refl
    same_name_refl (some n) = text_eq_refl n

text_eq-append : (n s t : Text) → text_eq (n ++ s) (n ++ t) ≡ text_eq s t
text_eq-append [] s t = refl
text_eq-append (c ∷ n) s t = ground (arith, text_eq-append n s t)

text_eq-longer : (n s : Text) (c : ℕ) → text_eq n (n ++ c ∷ s) ≡ false
text_eq-longer [] s c = refl
text_eq-longer (d ∷ n) s c = ground (arith, text_eq-longer n s c)

text_eq-shorter : (n s : Text) (c : ℕ) → text_eq (n ++ c ∷ s) n ≡ false
text_eq-shorter [] s c = refl
text_eq-shorter (d ∷ n) s c = ground (arith, text_eq-shorter n s c)

-- A sibling is another path than the one it is made from.
pub same_path-sibling :
    (p : FilePath) (ext : Text)
    → (same_path p (sibling p ext) ≡ false) × (same_path (sibling p ext) p ≡ false)
unfolding same_path sibling
same_path-sibling p ext = rw (text_eq_refl p.parent) (names p.file_name)
  where
    names :
        (n : Option Text)
        → (same_name n (some (name_or_scribe n ++ b'.' ∷ ext)) ≡ false)
          × (same_name (some (name_or_scribe n ++ b'.' ∷ ext)) n ≡ false)
    names none = (refl, refl)
    names (some n) = (text_eq-longer n ext b'.', text_eq-shorter n ext b'.')

-- Siblings with different extensions are different paths.
pub same_path-siblings :
    (p : FilePath) (a b : Text) → same_path (sibling p a) (sibling p b) ≡ text_eq a b
unfolding same_path sibling
same_path-siblings p a b =
    rw (text_eq_refl p.parent)
      (text_eq-append (name_or_scribe p.file_name) (b'.' ∷ a) (b'.' ∷ b) ∙ ground arith)
