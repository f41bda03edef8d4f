-- ===== src/Units/Files.antt =====
-- The directory of the user units: `_trusted_directory`, `target_path`, `_read_regular` and
-- `_atomic_replace` of backend/app/systemd/user_units.py. What is not a UnitError is the
-- FileExistsError of `mkdir`; a disk that is full or fails is not modelled, nor is another process
-- that changes the directory between two steps.
use machine_deck.Base.{
  ltb, if◌then◌else◌, nat_eq, string_eq, ◌==◌, length, take, drop, Outcome, ok, raised, Exec, pure,
  raise, lift, gets, modify, ◌>>=◌, ◌>>◌, ℕ, zero, suc, ◌+◌, ◌/◌, ◌%◌, Bool, true, false, not, ◌&&◌,
  ◌||◌, Option, none, some, List, [], ◌∷◌, ◌++◌,
}
use machine_deck.Text.{Text, codes, text_eq}
use machine_deck.Text.Encoding.{Bytes}
use machine_deck.Units.{
  UnitError, directory_missing, directory_not_real, directory_not_owned, directory_writable,
  target_not_regular, target_unsafe, cannot_read, existing_too_large, max_unit_bytes, unit_name_for,
}

pub data FileKind : Type 0 where
  symlink directory regular other_kind : FileKind

-- `os.stat_result`, as far as it is read: the permission bits are those of `st_mode`.
pub record Metadata : Type 0 where
  pub kind : FileKind
  pub uid : ℕ
  pub mode : ℕ

abbrev pub Files : Type 0
Files = List (Text × (Metadata × Bytes))

-- The directory, the files in it by their names, and the commands that were run, newest first.
pub record Disk : Type 0 where
  pub unit_dir : Option Metadata
  pub files : Files
  pub runs : List (List Text)

pub record CommandOutcome : Type 0 where
  pub succeeded : Bool
  pub message : Text

-- What the manager takes from its surroundings: the user, the path of the directory, what a link in
-- its place leads to, the middle part of a name that `mkstemp` makes, and what a
-- command answers after the commands before it.
pub record Surroundings : Type 0 where
  pub euid : ℕ
  pub directory_path : Text
  pub link_leads_to : Option FileKind
  pub unique_part : Text → Text → Files → Text
  pub runner : List Text → List (List Text) → CommandOutcome

pub data ManagerError : Type 0 where
  unit_error : UnitError → ManagerError
  file_exists : ManagerError

abbrev pub Managing : Type 0 → Type 0
Managing A = Exec Disk ManagerError A

-- `raise UnitError(...)`
abbrev pub unit_failure : {A : Type 0} → UnitError → Managing A
unit_failure e = raise (unit_error e)

abbrev pub unit_result : {A : Type 0} → Outcome UnitError A → Outcome ManagerError A
unit_result (ok a) = ok a
unit_result (raised e) = raised (unit_error e)

-- `file_at files name` is `none` where that raises FileNotFoundError.
unfoldable pub file_at : Files → Text → Option (Metadata × Bytes)
file_at [] name = none
file_at ((n, file) ∷ files) name = if name == n then some file else file_at files name

abbrev pub put_file : Text → Metadata × Bytes → Files → Files
put_file name file files = (name, file) ∷ files

unfoldable pub remove_file : Text → Files → Files
remove_file name [] = []
remove_file name ((n, file) ∷ files) =
    let rest = remove_file name files in if n == name then rest else (n, file) ∷ rest

-- `st_mode & 0o022`
abbrev pub writable_by_others : ℕ → Bool
writable_by_others mode = mode / 2 % 2 == 1 || mode / 16 % 2 == 1

abbrev pub is_directory : FileKind → Bool
is_directory directory = true
is_directory _ = false

abbrev pub leads_to_directory : Option FileKind → Bool
leads_to_directory none = false
leads_to_directory (some kind) = is_directory kind

abbrev pub is_regular : FileKind → Bool
is_regular regular = true
is_regular _ = false

abbrev pub is_symlink : FileKind → Bool
is_symlink symlink = true
is_symlink _ = false

-- `self.unit_dir.mkdir(mode=0o755, parents=True, exist_ok=True)`
unfoldable pub make_directory : Surroundings → Managing (Unit {0})
make_directory around disk = elim disk.unit_dir [
  | none ↦ (
    ok tt,
    record disk { unit_dir = some (record { kind = directory; uid = around.euid; mode = 493 }) },
  )
  | some found ↦
      if is_directory found.kind
        || (is_symlink found.kind && leads_to_directory around.link_leads_to)
      then (ok tt, disk)
      else (raised file_exists, disk)
]

unfoldable pub checked_directory : Surroundings → Option Metadata → Outcome ManagerError (Unit {0})
checked_directory around none = raised (unit_error directory_missing)
checked_directory around (some found) =
    if is_symlink found.kind || not (is_directory found.kind)
    then raised (unit_error directory_not_real)
    else if not (found.uid == around.euid)
    then raised (unit_error directory_not_owned)
    else if writable_by_others found.mode
    then raised (unit_error directory_writable)
    else ok tt

unfoldable pub trusted_directory : Surroundings → Bool → Managing (Unit {0})
unfolding make_directory checked_directory
trusted_directory around create = do
  if create then make_directory around else pure tt
  found ← gets (λ disk. disk.unit_dir)
  lift (checked_directory around found)

unfoldable pub checked_target :
    Surroundings → Option (Metadata × Bytes) → Outcome ManagerError (Unit {0})
checked_target around none = ok tt
checked_target around (some (found, _)) =
    if is_symlink found.kind || not (is_regular found.kind)
    then raised (unit_error target_not_regular)
    else if not (found.uid == around.euid) || writable_by_others found.mode
    then raised (unit_error target_unsafe)
    else ok tt

-- The target is its name in the directory.
unfoldable pub target_path : Surroundings → Text → Bool → Managing Text
unfolding trusted_directory checked_target unit_name_for file_at
target_path around application_id create_directory = do
  trusted_directory around create_directory
  target ← lift (unit_result (unit_name_for application_id))
  found ← gets (λ disk. file_at disk.files target)
  lift (checked_target around found)
  pure target

-- The loop that reads a file, with the chunks read so far and their length. The first number bounds
-- its turns.
unfoldable pub read_chunks : ℕ → Bytes → List Bytes → ℕ → Outcome UnitError (List Bytes)
read_chunks zero content chunks total = raised cannot_read
read_chunks (suc turns) content chunks total =
    let chunk = take 8192 content in
    let rest =
      read_chunks turns (drop 8192 content) (chunks ++ chunk ∷ []) (total + length chunk) in
    if length chunk == 0
    then ok chunks
    else if ltb max_unit_bytes (total + length chunk)
    then raised existing_too_large
    else rest

-- `b"".join(chunks)`
unfoldable pub join_bytes : List Bytes → Bytes
join_bytes [] = []
join_bytes (chunk ∷ chunks) = chunk ++ join_bytes chunks

unfoldable pub joined : Outcome UnitError (List Bytes) → Outcome ManagerError (Option Bytes)
unfolding join_bytes
joined (ok chunks) = ok (some (join_bytes chunks))
joined (raised e) = raised (unit_error e)

-- `_read_regular`; a file that is not there is `none`.
unfoldable pub read_regular : Option (Metadata × Bytes) → Outcome ManagerError (Option Bytes)
unfolding read_chunks joined
read_regular none = ok none
read_regular (some (found, content)) =
    if is_symlink found.kind
    then raised (unit_error cannot_read)
    else if not (is_regular found.kind)
    then raised (unit_error target_not_regular)
    else joined (read_chunks (length content + 1) content [] 0)

-- `tempfile.mkstemp(prefix=..., suffix=...)`
unfoldable pub temporary_name : Surroundings → Text → Text → Files → Text
temporary_name around prefix suffix files =
    prefix ++ (around.unique_part prefix suffix files ++ suffix)

-- a file that the manager writes, of mode 0o644
abbrev pub written_file : Surroundings → Bytes → Metadata × Bytes
written_file around content = (record { kind = regular; uid = around.euid; mode = 420 }, content)

abbrev pub with_files : (Files → Files) → Disk → Disk
with_files f disk = record disk { files = f disk.files }

-- The content goes to a temporary file, which then takes the place of the target.
unfoldable pub atomic_replace : Surroundings → Text → Bytes → Managing (Unit {0})
unfolding temporary_name remove_file
atomic_replace around target content = do
  temporary ←
      gets (λ disk. temporary_name around (b'.' ∷ (target ++ b'.' ∷ [])) (codes ".tmp") disk.files)
  modify (with_files (put_file temporary (written_file around content)))
  modify (
      with_files
        (λ files. remove_file temporary (put_file target (written_file around content) files)))
  modify (with_files (remove_file temporary))
