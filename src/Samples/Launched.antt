-- ===== src/Samples/Launched.antt =====
-- The theorems on adapters: a unit that does not come up, and a project of two containers.
use machine_deck.Base.{
  if◌then◌else◌, nat_eq, string_eq, ◌==◌, ok, Ends, String, ◌≡◌, refl, ◌↔◌, true, false, Option,
  none, some, List, [], ◌∷◌,
}
use machine_deck.Text.{Text, codes, text_eq, strip}
use machine_deck.Text.Encoding.{splitlines}
use machine_deck.Manifest.Paths.{within_roots}
use machine_deck.Units.Undone.{SameContents}
use machine_deck.Adapters.{exited, ProcessEnd, ended, unit_start_failed, Shell, CommandResult}
use machine_deck.Adapters.Systemd.{install_and_action}
use machine_deck.Adapters.Started.{Answers, install_and_action-Answers}
use machine_deck.Adapters.Compose.{Payload, entries, ComposeAdapter, project_state}
use machine_deck.Adapters.Health.{Runs, is_running, project_state-iff-Runs}
use machine_deck.Samples.{demo_host}
use machine_deck.Samples.Rendered.{quoted_manifest}
use machine_deck.Samples.Installations.{sample_surroundings, sample-Fresh, all_succeed, sample_disk}

-- `systemctl show` tells that the unit has failed; every other command says nothing
abbrev failing_process : Option (List String) → List Text → List (List Text) → ProcessEnd
failing_process cwd (program ∷ (user ∷ (command ∷ arguments))) runs =
    if command == codes "show"
    then ended (codes "ActiveState=failed\nMainPID=0\n") [] (exited 0)
    else ended [] [] (exited 0)
failing_process cwd command runs = ended [] [] (exited 0)

abbrev failing_shell : Shell
failing_shell = record {
  process_of = failing_process;
  decode_replace = λ bytes. bytes;
  message_of = λ _. codes "unit error";
}

install_and_action-Answers_example :
    Ends
      (λ disk'. SameContents sample_disk.files disk'.files)
      (Answers demo_host failing_shell quoted_manifest sample_disk)
      (install_and_action demo_host
        (sample_surroundings all_succeed)
        failing_shell
        quoted_manifest
        true
        sample_disk)
install_and_action-Answers_example =
    install_and_action-Answers demo_host (sample_surroundings all_succeed) failing_shell
      quoted_manifest true sample_disk (sample-Fresh all_succeed)

-- the restart is refused, and the old unit is in place and restarted
failed_restart :
    (install_and_action demo_host
      (sample_surroundings all_succeed)
      failing_shell
      quoted_manifest
      true
      sample_disk).0
    ≡ ok (record {
      succeeded = false;
      message = codes "Unit entered FAILED after restart";
      exit_code = some (exited 0);
      error_code = some unit_start_failed;
    })
unfolding install_and_action within_roots splitlines strip
failed_restart = refl

abbrev two_containers : Text → Option Payload
two_containers text =
    if text == codes "[...]"
    then some (
        entries (
          some (record { state = codes "Running"; health = []; exit_code = 0 })
          ∷ some (record { state = codes "running"; health = codes "healthy"; exit_code = 0 })
          ∷ []))
    else none

abbrev sample_project : ComposeAdapter
sample_project = record {
  working_directory = "srv" ∷ "demo" ∷ [];
  compose_file = codes "compose.yaml";
  project_name = none;
  loads = two_containers;
}

abbrev sample_answer : CommandResult
sample_answer = record {
  succeeded = true;
  message = codes "[...]";
  exit_code = some (exited 0);
  error_code = none;
}

project_state-iff-Runs_example :
    (is_running (project_state sample_project sample_answer) ≡ true)
    ↔ Runs sample_project sample_answer
project_state-iff-Runs_example = project_state-iff-Runs sample_project sample_answer

-- with its two containers the project is running
running_project : is_running (project_state sample_project sample_answer) ≡ true
unfolding project_state
running_project = refl

-- a command that fails is not, whatever it tells
failed_project :
    is_running (project_state sample_project (record sample_answer { succeeded = false })) ≡ false
unfolding project_state
failed_project = refl
