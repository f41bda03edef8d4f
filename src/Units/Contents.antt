-- ===== src/Units/Contents.antt =====
-- What the steps of Units/Files.antt and Units/Manager.antt leave in the files of the directory.
use machine_deck.Base.{
  if◌then◌else◌, nat_eq, string_eq, ◌==◌, ok, ◌≡◌, refl, false, Option, none, some, [], ◌∷◌, ◌++◌,
  arith,
}
use machine_deck.Text.{Text, codes, text_beq, text_beq_iff, text_eq, starts_with}
use machine_deck.Text.Encoding.{Bytes}
use machine_deck.Units.Files.{
  Metadata, Disk, Surroundings, Files, file_at, put_file, remove_file, temporary_name, written_file,
  atomic_replace,
}
use machine_deck.Units.Manager.{restore, verify_staged}

unfoldable pub content_of : Option (Metadata × Bytes) → Option Bytes
content_of none = none
content_of (some (_, content)) = some content

-- `mkstemp` gives a name that no file has.
abbrev pub Fresh : Surroundings → Type 0
Fresh around =
    (prefix suffix : Text) (files : Files)
    → file_at files (temporary_name around prefix suffix files) ≡ none

-- The later files are the earlier ones, but for the content of one.
abbrev pub Written : Files → Files → Text → Option Bytes → Type 0
Written files files' target content =
    (n : Text)
    → content_of (file_at files' n)
      ≡ (if n == target then content else content_of (file_at files n))

-- A name that does not begin like those of the temporary files.
abbrev pub IsVisible : Text → Type 0
IsVisible name = starts_with (b'.' ∷ []) name ≡ false

file_at-remove_file :
    (name : Text) (files : Files) (n : Text)
    → file_at (remove_file name files) n ≡ (if n == name then none else file_at files n)
unfolding file_at remove_file
file_at-remove_file name [] n = ground arith
file_at-remove_file name ((k, file) ∷ files) n = ground (
  arith,
  file_at-remove_file name files n,
  text_beq_iff k name,
  text_beq_iff n k,
  text_beq_iff n name,
)

temporary-other :
    (around : Surroundings) (prefix suffix target : Text) (files : Files)
    → IsVisible target
    → text_beq target (temporary_name around (b'.' ∷ prefix) suffix files) ≡ false
unfolding temporary_name starts_with
temporary-other around prefix suffix [] files v = refl
temporary-other around prefix suffix (c ∷ target) files v = ground arith

replaced-Written :
    (files : Files) (temporary target : Text) (file : Metadata × Bytes)
    → file_at files temporary ≡ none
    → text_beq target temporary ≡ false
    → Written files
        (remove_file temporary
          (remove_file temporary (put_file target file (put_file temporary file files))))
        target
        (some file.1)
unfolding content_of file_at
replaced-Written files temporary target file fresh other n =
    let put : Files = put_file target file (put_file temporary file files) in
    ground (
      arith,
      file_at-remove_file temporary (remove_file temporary put) n,
      file_at-remove_file temporary put n,
      text_beq_iff n temporary,
      text_beq_iff n target,
      text_beq_iff target temporary,
    )

pub atomic_replace-Written :
    (around : Surroundings) (target : Text) (content : Bytes) (disk : Disk)
    → Fresh around
    → IsVisible target
    → ((atomic_replace around target content disk).0 ≡ ok tt)
      × Written disk.files (atomic_replace around target content disk).1.files target (some content)
unfolding atomic_replace
atomic_replace-Written around target content disk fresh visible = (
  refl,
  replaced-Written disk.files
      (temporary_name around (b'.' ∷ (target ++ b'.' ∷ [])) (codes ".tmp") disk.files) target
      (written_file around content) (fresh (b'.' ∷ (target ++ b'.' ∷ [])) (codes ".tmp") disk.files)
      (temporary-other around (target ++ b'.' ∷ []) (codes ".tmp") target disk.files visible),
)

pub restore-Written :
    (around : Surroundings) (target : Text) (previous : Option Bytes) (disk : Disk)
    → Fresh around
    → IsVisible target
    → ((restore around target previous disk).0 ≡ ok tt)
      × Written disk.files (restore around target previous disk).1.files target previous
unfolding restore content_of
restore-Written around target none disk fresh visible =
    (refl, λ n. ground (arith, file_at-remove_file target disk.files n))
restore-Written around target (some content) disk fresh visible =
    atomic_replace-Written around target content disk fresh visible

staged-removed :
    (files : Files) (temporary : Text) (file : Metadata × Bytes)
    → file_at files temporary ≡ none
    → (n : Text)
    → file_at (remove_file temporary (put_file temporary file files)) n ≡ file_at files n
unfolding file_at
staged-removed files temporary file absent n = ground (
  arith,
  absent,
  file_at-remove_file temporary (put_file temporary file files) n,
  text_beq_iff n temporary,
)

-- The staged file is gone after the check, and the others are as they were.
pub verify_staged-files :
    (around : Surroundings) (stem : Text) (content : Bytes) (disk : Disk)
    → Fresh around
    → (n : Text) → file_at (verify_staged around stem content disk).1.files n ≡ file_at disk.files n
unfolding verify_staged
verify_staged-files around stem content disk fresh =
    staged-removed disk.files
      (temporary_name around (b'.' ∷ (stem ++ b'.' ∷ [])) (codes ".service") disk.files)
      (written_file around content)
      (fresh (b'.' ∷ (stem ++ b'.' ∷ [])) (codes ".service") disk.files)

-- Two writes of one file are the second of them.
pub Written-trans :
    (files files' files'' : Files) (target : Text) (content content' : Option Bytes)
    → Written files files' target content
    → Written files' files'' target content'
    → Written files files'' target content'
Written-trans files files' files'' target content content' h k n = ground (arith, h n, k n)

-- Writing what a file holds changes nothing.
pub Written-same :
    (files files' : Files) (target : Text)
    → Written files files' target (content_of (file_at files target))
    → (n : Text) → content_of (file_at files' n) ≡ content_of (file_at files n)
Written-same files files' target h n = ground (arith, h n, text_beq_iff n target)
