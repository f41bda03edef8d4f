-- ===== src/Lifecycle/Perform.antt =====
-- `action` of backend/app/orchestration/lifecycle_service.py: start, stop and restart. The lock of
-- the application is held throughout, so that the steps of one action on it are not interleaved
-- with those of another.
pub mod Refusals
pub mod Written
pub mod Confirmation
pub mod Transitions
pub mod Closed
pub mod Untouched
pub mod Ledger
use machine_deck.Base.{
  Equality, ltb, leb, if◌then◌else◌, ltb→lt, leb→le, Bool-cases, Option-cases, ◌==◌, nat_beq_iff,
  nat_eq, string_eq, option_beq, option_beq_iff, is_none, is_some, or_else, length, take, drop, any,
  all, filter, find?, All, length-append, length-take, length-drop, take-append-drop, All-append,
  All-filter, length-filter, find?-some, contains, Outcome, ok, raised, Exec, pure, raise, lift,
  gets, raise_if, continue, ◌>>=◌, ◌>>◌, handle_errors, continue-keeps, continue-eq-ok,
  continue-raised, ℕ, zero, suc, ◌+◌, ◌-◌, ◌*◌, ◌/◌, ◌%◌, ◌^◌, ◌≤◌, ◌<◌, min, String, ◌≡◌, refl,
  sym, ap, ◌∙◌, ◌≢◌, ◌↔◌, ◌⊎◌, inl, inr, Bool, true, false, not, ◌&&◌, ◌||◌, Option, none, some,
  List, [], ◌∷◌, ◌++◌, map, arith, eq_iff, eq_refl,
}
use machine_deck.Json.{
  Value, json_null, boolean, number, string, sequence, mapping, Items, no_items, one_item, Fields,
  no_fields, field, get, put, merge, optional_str, items, get-put,
}
use machine_deck.Status.{
  ApplicationStatus, stopped, queued, checking, starting, running, unhealthy, stopping, failed,
  unknown, disabled, ExecutionStatus, InvalidStateTransition, invalid_transition, ordinal,
  status_beq_iff, status_eq, allowed_transitions, require_transition,
}
use machine_deck.Manifest.{
  Protocol, http, https, tcp, udp, Runtime, process, compose, PortDefinition, ApplicationManifest,
  FilePath, is_web, working_dir, runtime_type,
}
use machine_deck.Database.{
  ApplicationRecord, AuditEventRecord, ApplicationInstanceRecord, ExecutionRecord,
  AdministratorRecord, AuthSessionRecord, LoginFailureRecord, Database,
}
use machine_deck.World.{
  Call, start_call, stop_call, restart_call, status_call, logs_call, World, utc_now, uuid4, commit,
  change, call_made, rollback, with_applications, with_instances, with_executions,
  with_audit_events, add_audit_event,
}
use machine_deck.Ports.{
  Transport, Source, process_source, compose_source, system_source, DiscoveryError, port_discovery,
  value_error, os_error, other_error, ObservedPort, PortConflict, Discovery, transport_beq,
  transport_beq_iff, transport_eq, transport_protocol, parsed_conflict, addresses_conflict,
}
use machine_deck.Ports.Conflicts.{
  owned_by, append_observations, managed_observations, same_pid, owns, attribute, system_ports,
  clashes, conflict_of, port_conflicts, declared_conflicts, conflicts,
}
use machine_deck.Lifecycle.{
  Action, start, stop, restart, LifecycleCode, app_not_found, config_invalid, app_disabled,
  app_already_running, app_not_running, port_discovery_unavailable, port_conflict,
  state_transition_invalid, action_invalid, log_read_failed, Failure, lifecycle_error,
  validation_error, discovery_failed, adapter_raised, AdapterResult, RuntimeState, RuntimeAdapter,
  LifecycleService, Ending, status_value, transition_message, instance_key, execution_key,
  application_key, application, new_instance, state_record, stamp, write_instance, transition,
  apply_runtime_state, new_execution, audit_details, finished, finish_execution, answered,
  call_adapter, logs,
}

-- `LifecycleActionResponse`
pub record ActionResponse : Type 0 where
  pub application_id : String
  pub execution_id : ℕ
  pub action : Action
  pub status : ApplicationStatus
  pub succeeded : Bool
  pub error_code : Option String
  pub message : String

-- `action not in {"start", "stop", "restart"}` is `none`
unfoldable pub action_of : String → Option Action
action_of name =
    if name == "start"
    then some start
    else if name == "stop"
    then some stop
    else if name == "restart"
    then some restart
    else none

abbrev pub action_name : Action → String
action_name start = "start"
action_name stop = "stop"
action_name restart = "restart"

-- the two guards on the present status
unfoldable pub status_guard : Action → ApplicationStatus → Outcome Failure Unit
status_guard start current =
    if contains (ApplicationStatus.running ∷ starting ∷ checking ∷ []) current
    then raised (lifecycle_error app_already_running)
    else ok tt
status_guard _ current =
    if contains (stopped ∷ disabled ∷ []) current
    then raised (lifecycle_error app_not_running)
    else ok tt

abbrev optional_num : Option ℕ → Value
optional_num none = json_null
optional_num (some n) = number n

-- `conflict.model_dump(mode="json")`
pub conflict_value : PortConflict → Value
conflict_value conflict = mapping (
    field "protocol"
      (string (elim conflict.protocol [ Transport.tcp ↦ "tcp" | Transport.udp ↦ "udp" ]))
      (field "bind_address" (string conflict.bind_address) (
        field "port" (number conflict.port) (
          field "pid" (optional_num conflict.pid) (
            field "process_name" (optional_str conflict.process_name) (
              field "application_id" (optional_str conflict.application_id) (
                field "managed_by_machinedeck" (boolean conflict.managed_by_machinedeck)
                  no_fields)))))))

abbrev failed_with : String → String → Fields → Ending
failed_with code message details = record {
  succeeded = false;
  exit_code = none;
  error_code = some code;
  error_message = some message;
  details = details;
}

-- what becomes of the result of the conflict scan
unfoldable pub settle_conflicts :
    LifecycleService
    → ExecutionRecord
    → Outcome DiscoveryError (List PortConflict)
    → Exec World Failure Unit
settle_conflicts service execution (ok []) = pure tt
settle_conflicts service execution (ok (c ∷ cs)) = do
  finish_execution service execution (
      failed_with "PORT_CONFLICT" "One or more declared ports are already in use"
        (field "conflicts" (sequence (items (map conflict_value (c ∷ cs)))) no_fields))
  raise (lifecycle_error port_conflict)
settle_conflicts service execution (raised (DiscoveryError.port_discovery message)) = do
  finish_execution service execution (failed_with "PORT_DISCOVERY_UNAVAILABLE" message no_fields)
  raise (lifecycle_error port_discovery_unavailable)
settle_conflicts service execution (raised e) = raise (discovery_failed e)

unfoldable pub port_gate :
    LifecycleService → Action → ApplicationManifest → ExecutionRecord → Exec World Failure Unit
unfolding settle_conflicts
port_gate service stop manifest execution w = pure tt w
port_gate service _ manifest execution w =
    settle_conflicts service execution
      (conflicts service.host service.discovery w.db.applications manifest) w

-- the transitions before the adapter is called
unfoldable pub prepare :
    Action → ApplicationInstanceRecord → Exec World InvalidStateTransition ApplicationInstanceRecord
prepare start state = do
  state' ← transition state checking none true
  transition state' starting none true
prepare stop state = transition state stopping none true
prepare restart state = transition state starting none true

unfoldable pub settle_transition :
    LifecycleService
    → ExecutionRecord
    → Outcome InvalidStateTransition ApplicationInstanceRecord
    → Exec World Failure ApplicationInstanceRecord
settle_transition service execution (ok state) = pure state
settle_transition service execution (raised e) = do
  finish_execution service execution
      (failed_with "STATE_TRANSITION_INVALID" (transition_message e) no_fields)
  raise (lifecycle_error state_transition_invalid)

-- `try` the transitions, with `except InvalidStateTransitionError`
unfoldable pub prepare_or_fail :
    LifecycleService
    → Action
    → ApplicationInstanceRecord
    → ExecutionRecord
    → Exec World Failure ApplicationInstanceRecord
unfolding settle_transition
prepare_or_fail service action state execution w =
    let (r, w') = prepare action state w in settle_transition service execution r w'

abbrev call_of : Action → Call
call_of start = start_call
call_of stop = stop_call
call_of restart = restart_call

-- `_transition(..., enforce=False)`, which does not raise
abbrev unenforced : InvalidStateTransition → Failure
unenforced e = lifecycle_error state_transition_invalid

-- `if not result.succeeded`
unfoldable pub report_failure :
    LifecycleService
    → String
    → Action
    → ApplicationInstanceRecord
    → ExecutionRecord
    → AdapterResult
    → Exec World Failure ActionResponse
report_failure service application_id action state execution result = do
  handle_errors unenforced (transition state ApplicationStatus.failed (some result.message) false)
  finish_execution service execution (record {
    succeeded = false;
    exit_code = result.exit_code;
    error_code = result.error_code;
    error_message = some result.message;
    details = no_fields;
  })
  pure (record {
    application_id = application_id;
    execution_id = execution.id;
    action = action;
    status = ApplicationStatus.failed;
    succeeded = false;
    error_code = result.error_code;
    message = result.message;
  })

-- the states that confirm an action
unfoldable pub expected : Action → List ApplicationStatus
expected stop = stopped ∷ []
expected _ = starting ∷ ApplicationStatus.running ∷ unhealthy ∷ []

-- `result.message or runtime_state.error_message or ""`
unfoldable pub confirmation_message : AdapterResult → RuntimeState → String
confirmation_message result runtime_state =
    if result.message == "" then or_else runtime_state.error_message "" else result.message

unfoldable pub confirm :
    LifecycleService
    → String
    → Action
    → RuntimeAdapter
    → ApplicationInstanceRecord
    → ExecutionRecord
    → AdapterResult
    → Exec World Failure ActionResponse
unfolding expected confirmation_message
confirm service application_id action adapter state execution result = do
  runtime_state ← call_adapter status_call adapter.status
  response ← apply_runtime_state state runtime_state
  let succeeded = contains (expected action) response.status
  let code : Option String = if succeeded then none else some "STATE_CONFIRMATION_FAILED"
  let message = confirmation_message result runtime_state
  finish_execution service execution (record {
    succeeded = succeeded;
    exit_code = result.exit_code;
    error_code = code;
    error_message = if succeeded then none else some message;
    details = no_fields;
  })
  pure (record {
    application_id = application_id;
    execution_id = execution.id;
    action = action;
    status = response.status;
    succeeded = succeeded;
    error_code = code;
    message = message;
  })

-- from the adapter's call to the response
unfoldable pub drive :
    LifecycleService
    → String
    → Action
    → ApplicationManifest
    → ApplicationInstanceRecord
    → ExecutionRecord
    → Exec World Failure ActionResponse
drive service application_id action manifest state execution = do
  let adapter = service.adapter_factory manifest
  result ← call_adapter (call_of action) (adapter.act action)
  if result.succeeded
      then confirm service application_id action adapter state execution result
      else report_failure service application_id action state execution result

-- what follows the creation of the execution
unfoldable pub execute :
    LifecycleService
    → String
    → Action
    → ApplicationManifest
    → ApplicationInstanceRecord
    → ExecutionRecord
    → Exec World Failure ActionResponse
execute service application_id action manifest state execution = do
  port_gate service action manifest execution
  state' ← prepare_or_fail service action state execution
  drive service application_id action manifest state' execution

-- the checks before the execution is created, and the row of the state
unfoldable pub admit :
    LifecycleService
    → String
    → Action
    → Exec World Failure (ApplicationManifest × ApplicationInstanceRecord)
unfolding status_guard
admit service application_id action = do
  (row, manifest) ← application service application_id
  raise_if (not row.enabled) (lifecycle_error app_disabled)
  state ← state_record application_id
  lift (status_guard action state.status)
  pure (manifest, state)

unfoldable pub perform : LifecycleService → String → Action → Exec World Failure ActionResponse
perform service application_id action = do
  (manifest, state) ← admit service application_id action
  execution ← new_execution service application_id (action_name action)
  execute service application_id action manifest state execution

unfoldable pub run_parsed :
    LifecycleService → String → Option Action → Exec World Failure ActionResponse
run_parsed service application_id none = raise (lifecycle_error action_invalid)
run_parsed service application_id (some action) = perform service application_id action

-- `action`, from the text of the action
unfoldable pub run_action : LifecycleService → String → String → Exec World Failure ActionResponse
unfolding run_parsed
run_action service application_id name = run_parsed service application_id (action_of name)
