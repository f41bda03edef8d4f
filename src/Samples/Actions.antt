-- ===== src/Samples/Actions.antt =====
-- The theorems on the actions, on the sample application.
use machine_deck.Manifest.Paths.{within_roots, validate_manifest_paths}
use machine_deck.Ports.{transport_eq, transport_protocol, addresses_conflict}
use machine_deck.Ports.Conflicts.{managed_observations, attribute, declared_conflicts, conflicts}
use machine_deck.Base.{
  nat_eq, string_eq, contains, ok, raised, Returns, ◌≡◌, refl, ◌↔◌, true, some, [], ◌∷◌,
}
use machine_deck.Status.{
  ApplicationStatus, stopped, starting, stopping, invalid_transition, status_eq,
}
use machine_deck.Database.{ApplicationInstanceRecord}
use machine_deck.Database.Rows.{newer, newest_from, latest_instance}
use machine_deck.World.{start_call, status_call}
use machine_deck.Lifecycle.{
  start, restart, port_conflict, lifecycle_error, application, state_record, transition,
  apply_runtime_state, new_execution, finish_execution, call_adapter,
}
use machine_deck.Lifecycle.Perform.{
  action_of, status_guard, settle_conflicts, port_gate, prepare, prepare_or_fail, confirm, drive,
  execute, admit, perform, run_action,
}
use machine_deck.Lifecycle.Perform.Refusals.{run_action-refused_no_calls}
use machine_deck.Lifecycle.Perform.Ledger.{Accounted, run_action-Accounted}
use machine_deck.Lifecycle.Perform.Confirmation.{IsTruthful, run_action-IsTruthful}
use machine_deck.Lifecycle.Perform.Transitions.{
  sources, prepare-iff-sources, prepare-refused_unchanged,
}
use machine_deck.Samples.{instance_row, demo_world, foreign_listener, demo_service}

-- The port of the application is taken.
port_taken :
    (run_action (demo_service (foreign_listener ∷ [])) "demo" "start" demo_world).0
    ≡ raised (lifecycle_error port_conflict)
unfolding run_action action_of perform admit application validate_manifest_paths within_roots
    state_record latest_instance new_execution execute port_gate conflicts managed_observations
    declared_conflicts attribute transport_protocol addresses_conflict newer newest_from confirm
    drive prepare prepare_or_fail transition apply_runtime_state call_adapter finish_execution
    settle_conflicts status_guard
port_taken = refl

run_action-refused_no_calls_example :
    (run_action (demo_service (foreign_listener ∷ [])) "demo" "start" demo_world).1.calls ≡ []
run_action-refused_no_calls_example =
    run_action-refused_no_calls (demo_service (foreign_listener ∷ [])) "demo" "start" port_conflict
      demo_world port_taken

run_action-Accounted_example :
    Accounted demo_world (run_action (demo_service []) "demo" "start" demo_world)
run_action-Accounted_example = run_action-Accounted (demo_service []) "demo" "start" demo_world tt

run_action-IsTruthful_example :
    Returns
      (λ response u. IsTruthful response "demo" u)
      (run_action (demo_service []) "demo" "start" demo_world)
run_action-IsTruthful_example = run_action-IsTruthful (demo_service []) "demo" "start" demo_world

-- a start that succeeds: one call to start, one for the confirmation
started :
    (run_action (demo_service []) "demo" "start" demo_world).1.calls ≡ start_call ∷ status_call ∷ []
unfolding run_action action_of perform admit application validate_manifest_paths within_roots
    state_record latest_instance new_execution execute port_gate conflicts managed_observations
    declared_conflicts attribute transport_protocol addresses_conflict newer newest_from confirm
    drive prepare prepare_or_fail transition apply_runtime_state call_adapter finish_execution
    settle_conflicts status_guard
started = refl

-- A start from STOPPED passes through CHECKING to STARTING.
abbrev stopped_row : ApplicationInstanceRecord
stopped_row = instance_row stopped 0 5

abbrev failed_row : ApplicationInstanceRecord
failed_row = instance_row ApplicationStatus.failed 0 5

prepare-iff-sources_example :
    ((state' : ApplicationInstanceRecord) × ((prepare start stopped_row demo_world).0 ≡ ok state')
      × (state'.status ≡ starting))
    ↔ (contains (sources start) stopped ≡ true)
prepare-iff-sources_example = prepare-iff-sources start stopped_row demo_world

restart_run :
    (prepare restart failed_row demo_world).0
    ≡ raised (invalid_transition ApplicationStatus.failed starting)
unfolding prepare transition
restart_run = refl

prepare-refused_unchanged_example : (prepare restart failed_row demo_world).1 ≡ demo_world
prepare-refused_unchanged_example =
    prepare-refused_unchanged restart failed_row demo_world restart_run

latest_run :
    latest_instance "demo" (stopped_row ∷ instance_row stopping 1 9 ∷ [])
    ≡ some (instance_row stopping 1 9)
unfolding latest_instance
latest_run = refl
