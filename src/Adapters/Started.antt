-- ===== src/Adapters/Started.antt =====
-- What a start or a restart of a unit leaves in the directory.
use mathlib.Core.Path.{subst⁻¹}
use machine_deck.Base.{
  if◌then◌else◌, nat_eq, string_eq, is_some, Outcome, ok, raised, pure, continue, ◌>>=◌, ◌>>◌, Ends,
  continue-Ends, String, ◌≡◌, refl, ◌⊎◌, inl, inr, Bool, true, false, not, ◌&&◌, none, some, List,
  ◌∷◌,
}
use machine_deck.Text.{Text, codes, text_eq}
use machine_deck.Text.Encoding.{encode}
use machine_deck.Manifest.{ApplicationManifest}
use machine_deck.Host.{Host}
use machine_deck.Status.{status_eq}
use machine_deck.Units.{unit_name_for}
use machine_deck.Units.Rendering.{render_user_unit}
use machine_deck.Units.Files.{
  ManagerError, unit_error, file_exists, Disk, Surroundings, Managing, file_at,
}
use machine_deck.Units.Manager.{Receipt, install, is_content}
use machine_deck.Units.Contents.{content_of, Fresh, Written}
use machine_deck.Units.Targets.{unit_name_for-IsVisible}
use machine_deck.Units.Installed.{receipt_of}
use machine_deck.Units.Install.{Installed, install-Installed}
use machine_deck.Units.Undone.{SameContents, undone-SameContents}
use machine_deck.Adapters.{Shell, CommandResult, ObservedState, run_command, with_shell}
use machine_deck.Adapters.Systemd.{
  Values, unit_state, unit_of, show_command, action_command, shell_run, unit_status, is_up,
  confirmed_result, acted, restart_previous, settle, after_install, install_and_action,
}

-- The last command was `systemctl show`, and by its answer the unit is up.
abbrev pub IsConfirmed : Shell → Text → Disk → Type 0
IsConfirmed shell unit disk =
    (runs : List (List Text)) × (disk.runs ≡ show_command unit ∷ runs)
    × (is_up (unit_state unit (run_command shell none (show_command unit) runs)).status ≡ true)

-- The unit is the rendered one, no other file has changed, and the unit is up.
abbrev pub IsStarted : Host → Shell → ApplicationManifest → Disk → Disk → Type 0
IsStarted host shell manifest before disk =
    (rendered target : Text) × (render_user_unit host manifest ≡ ok rendered)
    × (unit_name_for (codes manifest.id) ≡ ok target)
    × Written before.files disk.files target (some (encode rendered))
    × IsConfirmed shell (unit_of manifest) disk

abbrev pub Answers : Host → Shell → ApplicationManifest → Disk → CommandResult → Disk → Type 0
Answers host shell manifest before result disk =
    ((result.succeeded ≡ true) × IsStarted host shell manifest before disk)
    ⊎ ((result.succeeded ≡ false) × SameContents before.files disk.files)

-- an action, with its confirmation
abbrev Acted : Shell → Text → Disk → CommandResult → Disk → Type 0
Acted shell unit before result disk =
    (disk.files ≡ before.files)
    × ((result.succeeded ≡ false) ⊎ ((result.succeeded ≡ true) × IsConfirmed shell unit disk))

confirmed-Acted :
    (shell : Shell) (unit : Text) (action : String) (result : CommandResult) (before disk : Disk)
    (confirmed : ObservedState Values) (b : Bool)
    → disk.files ≡ before.files
    → result.succeeded ≡ true
    → is_up confirmed.status ≡ b
    → (b ≡ true → IsConfirmed shell unit disk)
    → Acted shell unit before (confirmed_result action result confirmed) disk
unfolding confirmed_result
confirmed-Acted shell unit action result before disk confirmed true same s up k =
    rw up (same, inr (s, k refl))
confirmed-Acted shell unit action result before disk confirmed false same s up k =
    rw up (same, inl refl)

module _ (shell : Shell) (unit : Text) (action : String) (J : Disk → Type 0) (before : Disk) where
  branch-Acted :
      (result : CommandResult) (disk : Disk) (b : Bool)
      → disk.files ≡ before.files
      → result.succeeded ≡ b
      → Ends J (Acted shell unit before) (
          (if b
              then unit_status shell unit
                >>= (λ confirmed. pure (confirmed_result action result confirmed))
              else pure result)
            disk)
  unfolding unit_status shell_run
  branch-Acted result disk false same s = (same, inl s)
  branch-Acted result disk true same s =
      confirmed-Acted shell unit action result before
        (record disk { runs = show_command unit ∷ disk.runs })
        (unit_state unit (run_command shell none (show_command unit) disk.runs)) _ same s refl
        (λ up. (disk.runs, refl, up))

  acted-Acted : Ends J (Acted shell unit before) (acted shell unit action before)
  unfolding acted shell_run
  acted-Acted =
      branch-Acted (run_command shell none (action_command action unit) before.runs)
        (record before { runs = action_command action unit ∷ before.runs }) _ refl refl

module _ (J : Disk → Type 0) (Q : CommandResult → Disk → Type 0) (result : CommandResult)
    (rest : Managing CommandResult) (disk : Disk) where
  succeeded-Ends :
      result.succeeded ≡ true
      → Q result disk
      → Ends J Q ((if result.succeeded then pure result else rest) disk)
  succeeded-Ends s h = subst⁻¹ (λ b. Ends J Q ((if b then pure result else rest) disk)) s h

  failed-Ends :
      result.succeeded ≡ false
      → Ends J Q (rest disk)
      → Ends J Q ((if result.succeeded then pure result else rest) disk)
  failed-Ends s h = subst⁻¹ (λ b. Ends J Q ((if b then pure result else rest) disk)) s h

module _ (host : Host) (around : Surroundings) (shell : Shell) (manifest : ApplicationManifest)
    (is_restart : Bool) (before : Disk) where
  abbrev Unchanged : Disk → Type 0
  Unchanged disk = SameContents before.files disk.files

  restarted-Answers :
      (b : Bool) (result : CommandResult) (disk : Disk)
      → result.succeeded ≡ false
      → Unchanged disk
      → Ends Unchanged
          (Answers host shell manifest before)
          ((restart_previous shell (unit_of manifest) b >> pure result) disk)
  unfolding restart_previous shell_run
  restarted-Answers false result disk s h = inr (s, h)
  restarted-Answers true result disk s h = inr (s, h)

  undone-Answers :
      (undone : Outcome ManagerError Receipt) (result : CommandResult) (disk : Disk)
      → result.succeeded ≡ false
      → Unchanged disk
      → Ends Unchanged (Answers host shell manifest before) (
          continue undone
            (λ receipt.
              restart_previous shell
                (unit_of manifest)
                (is_restart && (receipt.changed && is_some receipt.previous_content))
              >> pure result)
            disk)
  undone-Answers (ok receipt) result disk s h = restarted-Answers _ result disk s h
  undone-Answers (raised e) result disk s h = h

  settle-Answers :
      (rendered target : Text) (result : CommandResult) (disk installed : Disk)
      → Fresh around
      → render_user_unit host manifest ≡ ok rendered
      → unit_name_for (codes manifest.id) ≡ ok target
      → Written before.files installed.files target (some (encode rendered))
      → Acted shell (unit_of manifest) installed result disk
      → Ends Unchanged (Answers host shell manifest before) (
          settle around shell
            (unit_of manifest)
            is_restart
            (receipt_of target
              (content_of (file_at before.files target))
              (not (is_content (content_of (file_at before.files target)) (encode rendered))))
            result
            disk)
  unfolding settle with_shell
  settle-Answers rendered target result disk installed fresh r u w (same, inr (s, up)) =
      succeeded-Ends Unchanged (Answers host shell manifest before) result _ disk s
        (inl (s, (rendered, target, r, u, rw same w, up)))
  settle-Answers rendered target result disk installed fresh r u w (same, inl s) =
      failed-Ends Unchanged (Answers host shell manifest before) result _ disk s (
        undone-Answers _ result _ s (
          undone-SameContents (with_shell shell around) before disk target (encode rendered) _ fresh
            (unit_name_for-IsVisible (codes manifest.id) u) refl (rw same w)))

  after_install-Answers :
      (installed : Outcome ManagerError Receipt) (disk : Disk)
      → Fresh around
      → Installed host manifest before (installed, disk)
      → Ends Unchanged
          (Answers host shell manifest before)
          (after_install around shell (unit_of manifest) is_restart installed disk)
  unfolding after_install
  after_install-Answers (raised (unit_error e)) disk fresh h = inr (refl, h)
  after_install-Answers (raised file_exists) disk fresh h = h
  after_install-Answers (ok receipt) disk fresh (rendered, target, r, u, e, w) = rw e (
      continue-Ends Unchanged (Acted shell (unit_of manifest) disk)
        (Answers host shell manifest before)
        (acted shell (unit_of manifest) (if is_restart then "restart" else "start") disk) _
        (acted-Acted shell (unit_of manifest) _ Unchanged disk)
        (λ result disk' a. settle-Answers rendered target result disk' disk fresh r u w a))

-- A start or a restart of an application's unit succeeds or leaves no trace. If its answer is a
-- success, the target named after the application holds the rendered unit, the other files have the
-- content they had, and the last answer of systemd was that the unit is active or activating. If
-- the answer is a failure, or an error is raised, every file has the content that it had before,
-- also where the new unit was installed and then did not come up.
pub install_and_action-Answers :
    (host : Host) (around : Surroundings) (shell : Shell) (manifest : ApplicationManifest)
    (is_restart : Bool) (disk : Disk)
    → Fresh around
    → Ends
        (λ disk'. SameContents disk.files disk'.files)
        (Answers host shell manifest disk)
        (install_and_action host around shell manifest is_restart disk)
unfolding install_and_action with_shell
install_and_action-Answers host around shell manifest is_restart disk fresh =
    let installed = install host (with_shell shell around) manifest disk in
    after_install-Answers host around shell manifest is_restart disk installed.0 installed.1 fresh
      (install-Installed host (with_shell shell around) manifest disk fresh)
