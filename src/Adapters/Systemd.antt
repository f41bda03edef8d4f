-- ===== src/Adapters/Systemd.antt =====
-- `UserSystemdAdapter` of backend/app/adapters/runtime.py.
use machine_deck.Base.{
  if◌then◌else◌, nat_eq, string_eq, ◌==◌, is_some, Outcome, ok, raised, pure, raise, ◌>>=◌, ◌>>◌, ℕ,
  String, Bool, true, false, ◌&&◌, Option, none, some, List, [], ◌∷◌, ◌++◌, map,
}
use machine_deck.Text.{Text, codes, text_eq, partition}
use machine_deck.Text.Encoding.{splitlines}
use machine_deck.Manifest.{ApplicationManifest}
use machine_deck.Host.{Host}
use machine_deck.Status.{
  ApplicationStatus, stopped, starting, running, stopping, failed, unknown, status_eq,
}
use machine_deck.Lifecycle.{status_value}
use machine_deck.Logs.Adapters.{decimal}
use machine_deck.Units.Files.{ManagerError, unit_error, file_exists, Surroundings, Managing}
use machine_deck.Units.Manager.{Receipt, install, rollback_unit}
use machine_deck.Adapters.{
  unit_install_failed, unit_start_failed, Shell, CommandResult, ObservedState, run_command,
  with_shell, or_text,
}

-- A dictionary of texts, the latest entry first.
abbrev pub Values : Type 0
Values = List (Text × Text)

abbrev add_value : Text × Option Text → Values → Values
add_value (key, none) values = values
add_value (key, some value) values = (key, value) ∷ values

-- `key, separator, value = line.partition("=")`
unfoldable pub read_values : Values → List Text → Values
unfolding partition
read_values values [] = values
read_values values (line ∷ lines) = read_values (add_value (partition b'=' line) values) lines

unfoldable pub value_of : Text → Values → Option Text
value_of key [] = none
value_of key ((k, value) ∷ values) = if k == key then some value else value_of key values

unfoldable pub status_of : Option Text → ApplicationStatus
status_of none = unknown
status_of (some active) =
    if active == codes "active"
    then running
    else if active == codes "deactivating"
    then stopping
    else if active == codes "activating"
    then starting
    else if active == codes "inactive"
    then stopped
    else if active == codes "failed"
    then failed
    else unknown

-- what `status` makes of the answer of `systemctl show`
unfoldable pub unit_state : Text → CommandResult → ObservedState Values
unfolding splitlines read_values value_of status_of
unit_state unit result =
    let values : Values = read_values [] (splitlines result.message) in
    if result.succeeded
    then record {
      status = status_of (value_of (codes "ActiveState") values);
      runtime_identifier = unit;
      metadata = values;
      error_message = none;
    }
    else record {
      status = unknown;
      runtime_identifier = unit;
      metadata = [];
      error_message = some (or_text result.message "Unable to read systemd state");
    }

-- `self.unit`
abbrev pub unit_of : ApplicationManifest → Text
unit_of manifest = codes "machinedeck-" ++ codes manifest.id ++ codes ".service"

abbrev pub show_command : Text → List Text
show_command unit =
    map codes ("systemctl" ∷ "--user" ∷ "show" ∷ [])
    ++ unit ∷ map codes ("--property=ActiveState,SubState,MainPID" ∷ "--no-pager" ∷ [])

abbrev pub action_command : String → Text → List Text
action_command action unit = map codes ("systemctl" ∷ "--user" ∷ action ∷ []) ++ unit ∷ []

-- a command, and what it answers
unfoldable pub shell_run : Shell → List Text → Managing CommandResult
unfolding run_command
shell_run shell command disk =
    (ok (run_command shell none command disk.runs), record disk { runs = command ∷ disk.runs })

-- `status`
unfoldable pub unit_status : Shell → Text → Managing (ObservedState Values)
unfolding shell_run unit_state
unit_status shell unit = do
  result ← shell_run shell (show_command unit)
  pure (unit_state unit result)

-- `confirmed.status in {RUNNING, STARTING}`
abbrev pub is_up : ApplicationStatus → Bool
is_up running = true
is_up starting = true
is_up _ = false

-- `confirmed.error_message or "..."`
abbrev entered_message : String → ObservedState Values → Text
entered_message action confirmed = elim confirmed.error_message [
  | some (c ∷ message) ↦ c ∷ message
  | _ ↦
      codes "Unit entered "
      ++ codes (status_value confirmed.status)
      ++ codes " after "
      ++ codes action
]

unfoldable pub confirmed_result : String → CommandResult → ObservedState Values → CommandResult
confirmed_result action result confirmed = if is_up confirmed.status then result else record {
  succeeded = false;
  message = entered_message action confirmed;
  exit_code = result.exit_code;
  error_code = some unit_start_failed;
}

-- the action and, if it succeeds, its confirmation
unfoldable pub acted : Shell → Text → String → Managing CommandResult
unfolding shell_run unit_status confirmed_result
acted shell unit action = do
  result ← shell_run shell (action_command action unit)
  if result.succeeded
      then (do confirmed ← unit_status shell unit; pure (confirmed_result action result confirmed))
      else pure result

-- `if action == "restart" and receipt.changed and receipt.previous_content is not None: ...`
unfoldable pub restart_previous : Shell → Text → Bool → Managing (Unit {0})
unfolding shell_run
restart_previous shell unit false = pure tt
restart_previous shell unit true = shell_run shell (action_command "restart" unit) >> pure tt

-- what follows the action
unfoldable pub settle :
    Surroundings → Shell → Text → Bool → Receipt → CommandResult → Managing CommandResult
unfolding rollback_unit with_shell restart_previous
settle around shell unit is_restart receipt result = if result.succeeded then pure result else do
  undone ← rollback_unit (with_shell shell around) receipt
  restart_previous shell unit (is_restart && (undone.changed && is_some undone.previous_content))
  pure result

-- what follows the installation, with `except UnitError`
unfoldable pub after_install :
    Surroundings → Shell → Text → Bool → Outcome ManagerError Receipt → Managing CommandResult
unfolding acted settle
after_install around shell unit is_restart (raised (unit_error e)) = pure (record {
  succeeded = false;
  message = shell.message_of e;
  exit_code = none;
  error_code = some unit_install_failed;
})
after_install around shell unit is_restart (raised file_exists) = raise file_exists
after_install around shell unit is_restart (ok receipt) = do
  result ← acted shell unit (if is_restart then "restart" else "start")
  settle around shell unit is_restart receipt result

-- `_install_and_action`, for a start or a restart
unfoldable pub install_and_action :
    Host → Surroundings → Shell → ApplicationManifest → Bool → Managing CommandResult
unfolding install after_install with_shell
install_and_action host around shell manifest is_restart disk =
    let (installed, disk') = install host (with_shell shell around) manifest disk in
    after_install around shell (unit_of manifest) is_restart installed disk'

unfoldable pub start_unit :
    Host → Surroundings → Shell → ApplicationManifest → Managing CommandResult
unfolding install_and_action
start_unit host around shell manifest = install_and_action host around shell manifest false

unfoldable pub restart_unit :
    Host → Surroundings → Shell → ApplicationManifest → Managing CommandResult
unfolding install_and_action
restart_unit host around shell manifest = install_and_action host around shell manifest true

unfoldable pub stop_unit : Shell → ApplicationManifest → Managing CommandResult
unfolding shell_run
stop_unit shell manifest = shell_run shell (action_command "stop" (unit_of manifest))

abbrev logs_command : Text → ℕ → List Text
logs_command unit lines =
    map codes ("journalctl" ∷ "--user-unit" ∷ [])
    ++ unit ∷ (map codes ("--no-pager" ∷ "--lines" ∷ []) ++ decimal lines ∷ [])

-- `logs`, which raises a RuntimeError with a message
unfoldable pub unit_logs : Shell → Text → ℕ → List (List Text) → Outcome Text (List Text)
unfolding run_command splitlines
unit_logs shell unit lines runs =
    let result = run_command shell none (logs_command unit lines) runs in
    if result.succeeded
    then ok (splitlines result.message)
    else raised (or_text result.message "Unable to read journal logs")
