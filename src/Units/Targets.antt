-- ===== src/Units/Targets.antt =====
-- The target of an application, and what is read of it.

use machine_deck.Base.{
  length, Outcome, ok, raised, continue-keeps, continue-eq-ok, ℕ, ◌≡◌, refl, sym, ◌∙◌, Bool, Option,
  none, some, arith,
}
use machine_deck.Text.{Text, starts_with}
use machine_deck.Text.Encoding.{Bytes}
use machine_deck.Units.{UnitError, unit_name_for}
use machine_deck.Units.Files.{
  FileKind, symlink, directory, regular, other_kind, Metadata, Disk, Surroundings, unit_result,
  file_at, make_directory, checked_directory, trusted_directory, checked_target, target_path,
  read_regular,
}
use machine_deck.Units.Reading.{read_or_too_large, read_regular-total}
use machine_deck.Units.Contents.{content_of, IsVisible}

trusted_directory-files :
    (around : Surroundings) (create : Bool) (disk : Disk)
    → (trusted_directory around create disk).1.files ≡ disk.files
unfolding trusted_directory make_directory checked_directory
trusted_directory-files around create disk = ground arith

pub target_path-files :
    (around : Surroundings) (application_id : Text) (create : Bool) (disk : Disk)
    → (target_path around application_id create disk).1.files ≡ disk.files
unfolding target_path
target_path-files around application_id create disk =
    let base = trusted_directory around create disk in
    let kept = trusted_directory-files around create disk in
    continue-keeps (λ d. d.files ≡ disk.files) base.0 _ base.1 kept
      (λ _ _.
        continue-keeps (λ d. d.files ≡ disk.files) (unit_result (unit_name_for application_id)) _
          base.1 kept
          (λ target _.
            continue-keeps (λ d. d.files ≡ disk.files)
              (checked_target around (file_at base.1.files target)) _ base.1 kept (λ _ _. kept)))

unit_result-eq : {A : Type 0} (r : Outcome UnitError A) {a : A} → unit_result r ≡ ok a → r ≡ ok a
unit_result-eq (ok b) h = ground arith
unit_result-eq (raised e) h = ground arith

pub target_path-unit_name_for :
    (around : Surroundings) (application_id : Text) (create : Bool) (disk : Disk) {target : Text}
    → (target_path around application_id create disk).0 ≡ ok target
    → unit_name_for application_id ≡ ok target
unfolding target_path
target_path-unit_name_for around application_id create disk h =
    let base = trusted_directory around create disk in
    let (_, _, h1) = continue-eq-ok base.0 _ base.1 h in
    let (name, e, h2) = continue-eq-ok (unit_result (unit_name_for application_id)) _ base.1 h1 in
    let (_, _, h3) =
      continue-eq-ok (checked_target around (file_at base.1.files name)) _ base.1 h2 in
    unit_result-eq (unit_name_for application_id) (rw e h3)

pub unit_name_for-IsVisible :
    (application_id : Text) {name : Text} → unit_name_for application_id ≡ ok name → IsVisible name
unfolding unit_name_for starts_with
unit_name_for-IsVisible application_id h = ground arith

sized-content_of :
    (content : Bytes) {read : Option Bytes}
    → read_or_too_large (length content) content ≡ ok read
    → some content ≡ read
sized-content_of content h = ground arith

of_kind-content_of :
    (kind : FileKind) (uid mode : ℕ) (content : Bytes) {read : Option Bytes}
    → read_regular (some (record { kind = kind; uid = uid; mode = mode }, content)) ≡ ok read
    → some content ≡ read
unfolding read_regular
of_kind-content_of symlink uid mode content h = ground arith
of_kind-content_of directory uid mode content h = ground arith
of_kind-content_of other_kind uid mode content h = ground arith
of_kind-content_of regular uid mode content h =
    sized-content_of content (
      sym (read_regular-total (record { kind = regular; uid = uid; mode = mode }) content refl) ∙ h)

pub read_regular-content_of :
    (found : Option (Metadata × Bytes)) {read : Option Bytes}
    → read_regular found ≡ ok read
    → content_of found ≡ read
unfolding content_of read_regular
read_regular-content_of none h = ground arith
read_regular-content_of (some (found, content)) h =
    of_kind-content_of found.kind found.uid found.mode content h
