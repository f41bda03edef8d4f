-- ===== src/Units/Manager.antt =====
-- `UserUnitManager` and `UnitInstallReceipt` of backend/app/systemd/user_units.py.
use machine_deck.Base.{
  if◌then◌else◌, is_some, Outcome, ok, raised, pure, lift, gets, modify, ◌>>=◌, ◌>>◌, String, Bool,
  true, false, not, ◌||◌, Option, none, some, List, [], ◌∷◌, ◌++◌, map,
}
use machine_deck.Text.{Text, codes, text_beq}
use machine_deck.Text.Encoding.{Bytes, encode}
use machine_deck.Manifest.{process, compose, ApplicationManifest}
use machine_deck.Host.{Host}
use machine_deck.Units.{UnitError, verification_failed, reload_failed, unit_name_for}
use machine_deck.Units.Rendering.{render_user_unit}
use machine_deck.Units.Files.{
  ManagerError, Metadata, Disk, CommandOutcome, Surroundings, Managing, unit_failure, unit_result,
  file_at, put_file, remove_file, is_symlink, target_path, read_regular, temporary_name,
  written_file, with_files, atomic_replace,
}

pub data UnitConsistency : Type 0 where
  match missing mismatch unsafe not_a_process : UnitConsistency

pub record Receipt : Type 0 where
  pub target : Text
  pub previous_content : Option Bytes
  pub changed : Bool
  pub rolled_back : Bool

unfoldable pub run : Surroundings → List Text → Managing CommandOutcome
run around command disk =
    (ok (around.runner command disk.runs), record disk { runs = command ∷ disk.runs })

abbrev pub daemon_reload : List Text
daemon_reload = map codes ("systemctl" ∷ "--user" ∷ "daemon-reload" ∷ [])

abbrev pub verify_command : Text → List Text
verify_command path = map codes ("systemd-analyze" ∷ "--user" ∷ "verify" ∷ []) ++ path ∷ []

-- `message or "..."`
abbrev pub or_message : Text → String → Text
or_message [] default = codes default
or_message (c ∷ message) default = c ∷ message

unfoldable pub restore : Surroundings → Text → Option Bytes → Managing (Unit {0})
unfolding atomic_replace remove_file
restore around target none = modify (with_files (remove_file target))
restore around target (some content) = atomic_replace around target content

-- `rollback`, with the receipt as it leaves it
unfoldable pub rollback_unit : Surroundings → Receipt → Managing Receipt
unfolding restore run
rollback_unit around receipt =
    if not receipt.changed || receipt.rolled_back then pure receipt else do
      restore around receipt.target receipt.previous_content
      _ ← run around daemon_reload
      pure (record receipt { rolled_back = true })

-- the bytes of the unit, checked by `systemd-analyze` in a file of their own, which is removed
unfoldable pub verify_staged : Surroundings → Text → Bytes → Managing CommandOutcome
unfolding temporary_name run remove_file
verify_staged around stem content = do
  staged ←
      gets
        (λ disk. temporary_name around (b'.' ∷ (stem ++ b'.' ∷ [])) (codes ".service") disk.files)
  modify (with_files (put_file staged (written_file around content)))
  verified ← run around (verify_command (around.directory_path ++ b'/' ∷ staged))
  modify (with_files (remove_file staged))
  pure verified

-- what follows the check: the target is replaced, and put back if systemd does not reload
unfoldable pub activate : Surroundings → Text → Option Bytes → Bytes → Managing Receipt
unfolding atomic_replace run rollback_unit
activate around target previous content = do
  atomic_replace around target content
  let receipt : Receipt = record {
    target = target;
    previous_content = previous;
    changed = true;
    rolled_back = false;
  }
  reloaded ← run around daemon_reload
  if reloaded.succeeded
      then pure receipt
      else rollback_unit around receipt
        >> unit_failure
            (reload_failed (or_message reloaded.message "systemd user daemon-reload failed"))

abbrev pub stem_of : Text → Text
stem_of application_id = codes "machinedeck-" ++ application_id

-- `previous == new_content`
abbrev pub is_content : Option Bytes → Bytes → Bool
is_content none content = false
is_content (some previous) content = text_beq previous content

-- `install` once the target has been read
unfoldable pub install_content :
    Surroundings → Text → Text → Option Bytes → Bytes → Managing Receipt
unfolding verify_staged activate
install_content around application_id target previous content =
    if is_content previous content
    then pure (record {
      target = target;
      previous_content = previous;
      changed = false;
      rolled_back = false;
    })
    else do
      verified ← verify_staged around (stem_of application_id) content
      if verified.succeeded
          then activate around target previous content
          else unit_failure (
              verification_failed
                (or_message verified.message "systemd-analyze rejected the rendered unit"))

unfoldable pub install : Host → Surroundings → ApplicationManifest → Managing Receipt
unfolding render_user_unit target_path file_at read_regular encode install_content
install host around manifest = do
  rendered ← lift (unit_result (render_user_unit host manifest))
  target ← target_path around (codes manifest.id) true
  found ← gets (λ disk. file_at disk.files target)
  previous ← lift (read_regular found)
  install_content around (codes manifest.id) target previous (encode rendered)

abbrev compared : Outcome ManagerError (Option Bytes) → Bytes → UnitConsistency
compared (ok (some content)) expected = if text_beq content expected then match else mismatch
compared (ok none) expected = missing
compared (raised _) expected = unsafe

abbrev looked_up : Surroundings → Outcome ManagerError Text → Bytes → Disk → UnitConsistency
looked_up around (ok target) expected disk =
    compared (read_regular (file_at disk.files target)) expected
looked_up around (raised _) expected disk = unsafe

-- whether the directory, or what a link in its place leads to, exists
abbrev is_there : Surroundings → Option Metadata → Bool
is_there around none = false
is_there around (some found) = not (is_symlink found.kind) || is_some around.link_leads_to

-- The status of `consistency`. A unit name that is not safe is raised, since `unit_name_for` is
-- called before the `try`.
unfoldable pub consistency :
    Host → Surroundings → ApplicationManifest → Disk → Outcome UnitError UnitConsistency
unfolding unit_name_for render_user_unit target_path read_regular encode file_at
consistency host around manifest disk = elim manifest.runtime [
  | compose _ _ _ ↦ ok not_a_process
  | process _ _ ↦ elim (unit_name_for (codes manifest.id)) [
    | raised e ↦ raised e
    | ok name ↦ elim (render_user_unit host manifest) [
      | raised e ↦ ok unsafe
      | ok rendered ↦ ok (
          if is_there around disk.unit_dir
          then looked_up around (target_path around (codes manifest.id) false disk).0
              (encode rendered) disk
          else missing)
    ]
  ]
]
