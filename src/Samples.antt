-- ===== src/Samples.antt =====
-- A small host with one application, on which the theorems are applied.
pub mod Actions
pub mod Observed
pub mod Registered
pub mod Logged
pub mod SignedIn
pub mod Hops
pub mod Rendered
pub mod Installations
pub mod Streams
pub mod Deployed
pub mod Launched
pub mod Configured
use machine_deck.Base.{
  Equality, ltb, leb, if◌then◌else◌, ltb→lt, leb→le, Bool-cases, Option-cases, ◌==◌, nat_beq_iff,
  nat_eq, string_eq, option_beq, option_beq_iff, is_none, is_some, or_else, length, take, drop, any,
  all, filter, find?, All, length-append, length-take, length-drop, take-append-drop, All-append,
  All-filter, length-filter, find?-some, contains, Outcome, ok, raised, is_ok, Exec, pure, raise,
  lift, gets, modify, raise_if, continue, ◌>>=◌, ◌>>◌, handle_errors, continue-keeps,
  continue-raised, continue-eq-ok, Returns, continue-Returns, ℕ, zero, suc, ◌+◌, ◌-◌, ◌*◌, ◌/◌, ◌%◌,
  ◌^◌, ◌≤◌, ◌<◌, min, String, ◌≡◌, refl, sym, ap, ◌∙◌, ◌≢◌, ◌↔◌, ◌⊎◌, inl, inr, Bool, true, false,
  not, ◌&&◌, ◌||◌, Option, none, some, List, [], ◌∷◌, ◌++◌, map, arith, eq_iff, eq_refl,
}
use machine_deck.Json.{
  Value, json_null, boolean, number, string, sequence, mapping, Items, no_items, one_item, Fields,
  no_fields, field, get, put, merge, optional_str, items, get-put,
}
use machine_deck.Status.{
  ApplicationStatus, stopped, queued, checking, starting, running, unhealthy, stopping, failed,
  unknown, disabled, ExecutionStatus, succeeded, InvalidStateTransition, invalid_transition,
  ordinal, status_beq_iff, status_eq, allowed_transitions, require_transition,
}
use machine_deck.Manifest.{
  Protocol, http, https, tcp, udp, Runtime, process, compose, PortDefinition, ApplicationManifest,
  FilePath, is_web, working_dir, runtime_type,
}
use machine_deck.Host.{IpAddress, v4, v6, Settings, Host, is_v4, ip_beq, ip_beq_iff}
use machine_deck.Database.{
  ApplicationRecord, AuditEventRecord, ApplicationInstanceRecord, ExecutionRecord,
  AdministratorRecord, AuthSessionRecord, LoginFailureRecord, Database,
}
use machine_deck.World.{
  Call, start_call, stop_call, restart_call, status_call, logs_call, World, utc_now, uuid4, commit,
  change, call_made, rollback, with_applications, with_instances, with_executions,
  with_audit_events, add_audit_event,
}
use machine_deck.Ports.{
  Transport, Source, process_source, compose_source, system_source, DiscoveryError, port_discovery,
  value_error, os_error, other_error, ObservedPort, PortConflict, Discovery, transport_beq,
  transport_beq_iff, transport_eq, transport_protocol, parsed_conflict, addresses_conflict,
}
use machine_deck.Lifecycle.{
  Action, start, stop, restart, LifecycleCode, app_not_found, config_invalid, app_disabled,
  app_already_running, app_not_running, port_discovery_unavailable, port_conflict,
  state_transition_invalid, action_invalid, log_read_failed, Failure, lifecycle_error,
  validation_error, discovery_failed, adapter_raised, AdapterResult, RuntimeState, RuntimeAdapter,
  LifecycleService, Ending, status_value, transition_message, execution_key, application_key,
  application, new_instance, state_record, stamp, write_instance, transition, apply_runtime_state,
  new_execution, audit_details, finished, finish_execution, answered, call_adapter, status, logs,
  instance_key,
}

abbrev pub web_port : PortDefinition
web_port = record {
  id = "web";
  name = "Web";
  protocol = http;
  host_port = 8080;
  bind_address = "127.0.0.1";
  path = some "/";
  primary = true;
  open_in_browser = true;
  health_path = none;
}

abbrev pub demo_manifest : ApplicationManifest
demo_manifest = record {
  id = "demo";
  name = "Demo";
  description = "";
  enabled = true;
  runtime = process ("srv" ∷ "demo" ∷ []) ("/srv/demo/run" ∷ []);
  environment = [];
  ports = web_port ∷ [];
  tags = [];
}

abbrev pub demo_settings : Settings
demo_settings = record { allowed_roots = ("srv" ∷ []) ∷ []; allow_privileged_ports = false }

abbrev read_address : String → Option IpAddress
read_address text =
    if text == "::"
    then some (v6 0)
    else if text == "0.0.0.0"
    then some (v4 0)
    else if text == "127.0.0.1"
    then some (v4 2130706433)
    else none

abbrev pub demo_host : Host
demo_host = record {
  settings = demo_settings;
  ip_address = read_address;
  resolve = λ text. if text == "/srv/demo/run" then "srv" ∷ "demo" ∷ "run" ∷ [] else text ∷ [];
  is_dir = λ _. true;
  is_file = λ _. true;
  load_manifest = λ text. if text == "demo" then some demo_manifest else none;
  dump_manifest = λ _. "demo";
}

abbrev pub demo_row : ApplicationRecord
demo_row = record {
  id = "demo";
  name = "Demo";
  description = "";
  runtime_type = "process";
  config_yaml = "demo";
  enabled = true;
  created_at = 0;
  updated_at = 0;
}

abbrev pub instance_row : ApplicationStatus → ℕ → ℕ → ApplicationInstanceRecord
instance_row status id created = record {
  id = id;
  application_id = "demo";
  status = status;
  runtime_identifier = none;
  started_at = none;
  stopped_at = none;
  exit_code = none;
  error_message = none;
  metadata_json = no_fields;
  created_at = created;
  updated_at = created;
}

abbrev demo_database : Database
demo_database = record {
  applications = demo_row ∷ [];
  instances = [];
  executions = [];
  audit_events = [];
  administrators = [];
  auth_sessions = [];
  login_failures = [];
}

abbrev pub demo_world : World
demo_world = record {
  db = demo_database;
  saved = demo_database;
  clock = λ k. 100 + k;
  readings = 0;
  issued = 0;
  calls = [];
}

abbrev pub foreign_listener : ObservedPort
foreign_listener = record {
  bind_address = "0.0.0.0";
  host_port = 8080;
  protocol = Transport.tcp;
  pid = some 77;
  process_name = some "other";
  source = system_source;
  service = none;
  container_id = none;
  container_port = none;
  application_id = none;
}

abbrev obedient_adapter : RuntimeAdapter
obedient_adapter = record {
  act =
      λ _ _. ok (record { succeeded = true; message = ""; exit_code = some 0; error_code = none });
  status = λ _. ok (record {
    status = ApplicationStatus.running;
    runtime_identifier = "unit";
    metadata = no_fields;
    error_message = none;
  });
  logs = λ _ _. ok [];
}

-- a service on a host on which the scan finds the listeners
abbrev pub demo_service : List ObservedPort → LifecycleService
demo_service listeners = record {
  host = demo_host;
  discovery = record { scan = ok listeners; discover = λ _. ok [] };
  adapter_factory = λ _. obedient_adapter;
  actor = "admin";
  request = none;
}
