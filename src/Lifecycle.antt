-- ===== src/Lifecycle.antt =====
-- The lifecycle of an application: `LifecycleService` of
-- backend/app/orchestration/lifecycle_service.py. This file has its data, the steps that change a
-- row, and the status of an application; the action is in Lifecycle/Perform.antt.
pub mod Perform
pub use machine_deck.Database.Newest.{instance_key}
use Prim.Native.String.{◌++◌ as ◌<>◌}
use machine_deck.Base.{
  Equality, ltb, leb, if◌then◌else◌, ltb→lt, leb→le, Bool-cases, Option-cases, ◌==◌, nat_beq_iff,
  nat_eq, string_eq, option_beq, option_beq_iff, is_none, is_some, or_else, length, take, drop, any,
  all, filter, find?, All, length-append, length-take, length-drop, take-append-drop, All-append,
  All-filter, length-filter, find?-some, contains, Outcome, ok, raised, is_ok, Exec, pure, raise,
  lift, gets, raise_if, continue, ◌>>=◌, ◌>>◌, handle_errors, continue-keeps, continue-raised,
  continue-eq-ok, Returns, continue-Returns, ℕ, zero, suc, ◌+◌, ◌-◌, ◌*◌, ◌/◌, ◌%◌, ◌^◌, ◌≤◌, ◌<◌,
  min, String, ◌≡◌, refl, sym, ap, ◌∙◌, ◌≢◌, ◌↔◌, ◌⊎◌, inl, inr, Bool, true, false, not, ◌&&◌, ◌||◌,
  Option, none, some, List, [], ◌∷◌, ◌++◌, map, arith, eq_iff, eq_refl,
}
use machine_deck.Json.{
  Value, json_null, boolean, number, string, sequence, mapping, Items, no_items, one_item, Fields,
  no_fields, field, get, put, merge, optional_str, items, get-put,
}
use machine_deck.Status.{
  ApplicationStatus, stopped, queued, checking, starting, running, unhealthy, stopping, failed,
  unknown, disabled, ExecutionStatus, InvalidStateTransition, invalid_transition, ordinal,
  status_beq_iff, status_eq, allowed_transitions, require_transition,
}
use machine_deck.Manifest.{
  Protocol, http, https, tcp, udp, Runtime, process, compose, PortDefinition, ApplicationManifest,
  FilePath, is_web, working_dir, runtime_type,
}
use machine_deck.Manifest.Paths.{
  IssueCode, privileged_port_not_allowed, path_not_allowed, working_dir_not_found,
  executable_not_found, file_not_found, secrets_not_classified, IssueField, port_host_port,
  runtime_working_dir, runtime_command, runtime_compose_file, environment_field, ValidationIssue,
  ValidationResponse, is_relative_to, within_roots, privileged_issues, working_dir_issues,
  runtime_issues, is_empty, validate_manifest_paths,
}
use machine_deck.Host.{IpAddress, v4, v6, Settings, Host, is_v4, ip_beq, ip_beq_iff}
use machine_deck.Database.{
  ApplicationRecord, AuditEventRecord, ApplicationInstanceRecord, ExecutionRecord,
  AdministratorRecord, AuthSessionRecord, LoginFailureRecord, Database,
}
use machine_deck.Database.Rows.{
  get_row, update_row, delete_row, get_row-update_row, get_row-append, get_row-delete_row, newer,
  newest_from, latest_instance,
}
use machine_deck.Database.Newest.{
  instance_key, latest_instance-row, NotNewer, latest_instance-NotNewer,
}
use machine_deck.World.{
  Call, start_call, stop_call, restart_call, status_call, logs_call, World, utc_now, uuid4, commit,
  change, call_made, rollback, with_applications, with_instances, with_executions,
  with_audit_events, add_audit_event,
}
use machine_deck.Ports.{
  Transport, Source, process_source, compose_source, system_source, DiscoveryError, port_discovery,
  value_error, os_error, other_error, ObservedPort, PortConflict, Discovery, transport_beq,
  transport_beq_iff, transport_eq, transport_protocol, parsed_conflict, addresses_conflict,
}

pub data Action : Type 0 where
  start stop restart : Action

-- `AdapterResult` and `RuntimeState` of backend/app/adapters/runtime.py
pub record AdapterResult : Type 0 where
  pub succeeded : Bool
  pub message : String
  pub exit_code : Option ℕ
  pub error_code : Option String

pub record RuntimeState : Type 0 where
  pub status : ApplicationStatus
  pub runtime_identifier : String
  pub metadata : Fields
  pub error_message : Option String

-- The adapter that `adapter_factory` returns. What it answers may depend on the calls that it has
-- received before, and it may raise.
pub record RuntimeAdapter : Type 0 where
  pub act : Action → List Call → Outcome String AdapterResult
  pub status : List Call → Outcome String RuntimeState
  pub logs : ℕ → List Call → Outcome String (List String)

pub record LifecycleService : Type 0 where
  pub host : Host
  pub discovery : Discovery
  pub adapter_factory : ApplicationManifest → RuntimeAdapter
  pub actor : String
  pub request : Option (String × String)

pub data LifecycleCode : Type 0 where
  app_not_found config_invalid app_disabled app_already_running app_not_running
        port_discovery_unavailable port_conflict state_transition_invalid action_invalid
        log_read_failed :
      LifecycleCode

-- `LifecycleError`, or an exception that the service does not handle: an invalid row in the
-- registry, a failure of the port discovery, or one of the adapter.
pub data Failure : Type 0 where
  lifecycle_error : LifecycleCode → Failure
  validation_error : Failure
  discovery_failed : DiscoveryError → Failure
  adapter_raised : String → Failure

abbrev pub status_value : ApplicationStatus → String
status_value stopped = "STOPPED"
status_value queued = "QUEUED"
status_value checking = "CHECKING"
status_value starting = "STARTING"
status_value ApplicationStatus.running = "RUNNING"
status_value unhealthy = "UNHEALTHY"
status_value stopping = "STOPPING"
status_value ApplicationStatus.failed = "FAILED"
status_value unknown = "UNKNOWN"
status_value disabled = "DISABLED"

-- `str(exc)` of `InvalidStateTransitionError`
abbrev pub transition_message : InvalidStateTransition → String
transition_message (invalid_transition current target) =
    ◌<>◌ "Invalid state transition: "
      (◌<>◌ (status_value current) (◌<>◌ " -> " (status_value target)))

abbrev pub execution_key : ExecutionRecord → ℕ
execution_key row = row.id

abbrev pub application_key : ApplicationRecord → String
application_key row = row.id

-- `_application`
unfoldable pub application :
    LifecycleService → String → Exec World Failure (ApplicationRecord × ApplicationManifest)
application service application_id w =
    elim (get_row application_key application_id w.db.applications) [
      | none ↦ (raised (lifecycle_error app_not_found), w)
      | some row ↦ elim (service.host.load_manifest row.config_yaml) [
        | none ↦ (raised validation_error, w)
        | some manifest ↦ (
          if (validate_manifest_paths service.host manifest).valid
              then ok (row, manifest)
              else raised (lifecycle_error config_invalid),
          w,
        )
      ]
    ]

-- the row of an application that was never started
unfoldable pub new_instance : String → ℕ → ℕ → ApplicationInstanceRecord
new_instance application_id id now = record {
  id = id;
  application_id = application_id;
  status = stopped;
  runtime_identifier = none;
  started_at = none;
  stopped_at = none;
  exit_code = none;
  error_message = none;
  metadata_json = no_fields;
  created_at = now;
  updated_at = now;
}

-- `_state_record`: a new row is flushed, and not committed yet.
unfoldable pub state_record : String → Exec World Failure ApplicationInstanceRecord
unfolding new_instance
state_record application_id w = elim (latest_instance application_id w.db.instances) [
  | some state ↦ (ok state, w)
  | none ↦
      (do
        id ← uuid4
        now ← utc_now
        let state = new_instance application_id id now
        change (λ db. with_instances (db.instances ++ state ∷ []) db)
        pure state)
        w
]

-- the instants that a new status sets: `state.started_at or utc_now()`
unfoldable pub stamp :
    {E : Type 0}
    → ApplicationStatus
    → ApplicationInstanceRecord
    → Exec World E ApplicationInstanceRecord
stamp ApplicationStatus.running state = do
  now ← utc_now
  pure (record state { started_at = some (or_else state.started_at now); stopped_at = none })
stamp stopped state = do now ← utc_now; pure (record state { stopped_at = some now })
stamp _ state = pure state

-- The row is written, with the `onupdate` of `updated_at`, and committed.
unfoldable pub write_instance :
    {E : Type 0} → ApplicationInstanceRecord → Exec World E ApplicationInstanceRecord
write_instance state = do
  now ← utc_now
  let written = record state { updated_at = now }
  change (λ db. with_instances (update_row instance_key state.id (λ _. written) db.instances) db)
  commit
  pure written

-- `_transition`
unfoldable pub transition :
    ApplicationInstanceRecord
    → ApplicationStatus
    → Option String
    → Bool
    → Exec World InvalidStateTransition ApplicationInstanceRecord
unfolding require_transition stamp write_instance
transition state target error_message enforce = do
  lift (if enforce then require_transition state.status target else ok tt)
  stamped ← stamp target (record state { status = target; error_message = error_message })
  write_instance stamped

-- `_apply_runtime_state`
unfoldable pub apply_runtime_state :
    ApplicationInstanceRecord → RuntimeState → Exec World Failure ApplicationInstanceRecord
unfolding stamp write_instance
apply_runtime_state state runtime_state = do
  stamped ← stamp runtime_state.status (record state {
    status = runtime_state.status;
    runtime_identifier = some runtime_state.runtime_identifier;
    metadata_json = runtime_state.metadata;
    error_message = runtime_state.error_message;
  })
  write_instance stamped

-- `_new_execution`
unfoldable pub new_execution :
    LifecycleService → String → String → Exec World Failure ExecutionRecord
new_execution service application_id action = do
  id ← uuid4
  started ← utc_now
  requested ← utc_now
  let execution : ExecutionRecord = record {
    id = id;
    application_id = application_id;
    action = action;
    status = ExecutionStatus.running;
    requested_by = service.actor;
    requested_at = requested;
    started_at = some started;
    finished_at = none;
    exit_code = none;
    error_code = none;
    error_message = none;
  }
  change (λ db. with_executions (db.executions ++ execution ∷ []) db)
  commit
  pure execution

-- How an execution ends: the keyword arguments of `_finish_execution`.
pub record Ending : Type 0 where
  pub succeeded : Bool
  pub exit_code : Option ℕ
  pub error_code : Option String
  pub error_message : Option String
  pub details : Fields

unfoldable pub audit_details : LifecycleService → ExecutionRecord → Ending → Fields
audit_details service execution ending =
    let fields =
      merge
        (field "execution_id" (number execution.id) (
          field "error_code" (optional_str ending.error_code)
            (field "error_message" (optional_str ending.error_message) no_fields)))
        ending.details in
    elim service.request [
      | none ↦ fields
      | some (method, path) ↦
          put "request"
            (mapping (field "method" (string method) (field "path" (string path) no_fields))) fields
    ]

unfoldable pub finished : ExecutionRecord → Ending → ℕ → ExecutionRecord
finished execution ending now = record execution {
  status = if ending.succeeded then ExecutionStatus.succeeded else ExecutionStatus.failed;
  finished_at = some now;
  exit_code = ending.exit_code;
  error_code = ending.error_code;
  error_message = ending.error_message;
}

-- `_finish_execution`
unfoldable pub finish_execution :
    LifecycleService → ExecutionRecord → Ending → Exec World Failure Unit
unfolding finished add_audit_event
finish_execution service execution ending = do
  now ← utc_now
  change (λ db.
      with_executions
        (update_row execution_key execution.id (λ _. finished execution ending now) db.executions)
        db)
  add_audit_event service.actor (◌<>◌ "application." execution.action) "application"
      execution.application_id (if ending.succeeded then "success" else "failure")
      (audit_details service execution ending)
  commit

-- an exception of the adapter passes through
unfoldable pub answered : {A : Type 0} → Outcome String A → Exec World Failure A
answered (ok a) = pure a
answered (raised e) = raise (adapter_raised e)

-- a call of the adapter, which is recorded
unfoldable pub call_adapter :
    {A : Type 0} → Call → (List Call → Outcome String A) → Exec World Failure A
unfolding answered
call_adapter call answer w = answered (answer w.calls) (record w { calls = w.calls ++ call ∷ [] })

-- `status`
unfoldable pub status : LifecycleService → String → Exec World Failure ApplicationInstanceRecord
unfolding application state_record apply_runtime_state call_adapter
status service application_id = do
  (row, manifest) ← application service application_id
  state ← state_record application_id
  if row.enabled
      then (do
        runtime_state ← call_adapter status_call (service.adapter_factory manifest).status
        apply_runtime_state state runtime_state)
      else (write_instance (record state { status = disabled }))

-- `RuntimeError` from `adapter.logs`
abbrev log_failure : Failure → Failure
log_failure (adapter_raised _) = lifecycle_error log_read_failed
log_failure other = other

-- `logs`: the lines, with the source that they come from.
unfoldable pub logs : LifecycleService → String → ℕ → Exec World Failure (String × List String)
unfolding application call_adapter
logs service application_id lines = do
  raise_if (not (leb 1 lines && leb lines 5000)) (lifecycle_error config_invalid)
  (row, manifest) ← application service application_id
  output ←
      handle_errors log_failure
        (call_adapter logs_call ((service.adapter_factory manifest).logs lines))
  pure (elim manifest.runtime [ process _ _ ↦ "journal" | compose _ _ _ ↦ "docker" ], output)
