-- ===== src/Ports/Conflicts.antt =====
-- Which declared ports are taken: `_managed_observations`, `system_ports` and `conflicts` of
-- backend/app/orchestration/ports.py.
pub mod Complete
use machine_deck.Base.{
  Equality, ltb, leb, if◌then◌else◌, ltb→lt, leb→le, Bool-cases, Option-cases, ◌==◌, nat_beq_iff,
  nat_eq, string_eq, option_beq, option_beq_iff, is_none, is_some, or_else, length, take, drop, any,
  all, filter, find?, All, length-append, length-take, length-drop, take-append-drop, All-append,
  All-filter, length-filter, find?-some, contains, Outcome, ok, raised, is_ok, Exec, pure, raise,
  lift, gets, raise_if, continue, ◌>>=◌, ◌>>◌, handle_errors, continue-keeps, continue-raised,
  continue-eq-ok, Returns, continue-Returns, ℕ, zero, suc, ◌+◌, ◌-◌, ◌*◌, ◌/◌, ◌%◌, ◌^◌, ◌≤◌, ◌<◌,
  min, String, ◌≡◌, refl, sym, ap, ◌∙◌, ◌≢◌, ◌↔◌, ◌⊎◌, inl, inr, Bool, true, false, not, ◌&&◌, ◌||◌,
  Option, none, some, List, [], ◌∷◌, ◌++◌, map, arith, eq_iff, eq_refl,
}
use machine_deck.Manifest.{
  Protocol, http, https, tcp, udp, Runtime, process, compose, PortDefinition, ApplicationManifest,
  FilePath, is_web, working_dir, runtime_type,
}
use machine_deck.Host.{IpAddress, v4, v6, Settings, Host, is_v4, ip_beq, ip_beq_iff}
use machine_deck.Database.{
  ApplicationRecord, AuditEventRecord, ApplicationInstanceRecord, ExecutionRecord,
  AdministratorRecord, AuthSessionRecord, LoginFailureRecord, Database,
}
use machine_deck.Ports.{
  Transport, Source, process_source, compose_source, system_source, DiscoveryError, port_discovery,
  value_error, os_error, other_error, ObservedPort, PortConflict, Discovery, transport_beq,
  transport_beq_iff, transport_eq, transport_protocol, parsed_conflict, addresses_conflict,
}

unfoldable pub owned_by : String → ObservedPort → ObservedPort
owned_by application_id item = record item { application_id = some application_id }

-- what one round of the loop adds, or the exception that leaves the loop
unfoldable pub record_observations :
    Host → Discovery → ApplicationRecord → Outcome DiscoveryError (List ObservedPort)
unfolding owned_by
record_observations host discovery row = elim (host.load_manifest row.config_yaml) [
  | none ↦ ok []
  | some manifest ↦ elim (discovery.discover manifest) [
    | ok items ↦ ok (map (owned_by row.id) items)
    | raised DiscoveryError.other_error ↦ raised other_error
    | raised _ ↦ ok []
  ]
]

unfoldable pub append_observations :
    Outcome DiscoveryError (List ObservedPort)
    → Outcome DiscoveryError (List ObservedPort)
    → Outcome DiscoveryError (List ObservedPort)
append_observations (raised e) rest = raised e
append_observations (ok items) (raised e) = raised e
append_observations (ok items) (ok rest) = ok (items ++ rest)

unfoldable pub managed_observations :
    Host → Discovery → List ApplicationRecord → Outcome DiscoveryError (List ObservedPort)
unfolding record_observations append_observations
managed_observations host discovery [] = ok []
managed_observations host discovery (row ∷ rows) =
    append_observations (record_observations host discovery row)
      (managed_observations host discovery rows)

-- `listener.pid is not None and item.pid is not None and listener.pid == item.pid`
unfoldable pub same_pid : Option ℕ → Option ℕ → Bool
same_pid (some a) (some b) = a == b
same_pid _ _ = false

unfoldable pub owns : Host → ObservedPort → ObservedPort → Bool
unfolding same_pid
owns host listener item =
    same_pid listener.pid item.pid
    || (listener.protocol == item.protocol
        && (listener.host_port == item.host_port
            && addresses_conflict host listener.bind_address item.bind_address))

unfoldable pub attribute : Host → List ObservedPort → ObservedPort → ObservedPort
unfolding owns
attribute host managed listener = elim (find? (owns host listener) managed) [
  | none ↦ listener
  | some owner ↦ record listener { application_id = owner.application_id }
]

unfoldable pub system_ports :
    Host → Discovery → List ApplicationRecord → Outcome DiscoveryError (List ObservedPort)
system_ports host discovery rows = elim discovery.scan [
  | raised e ↦ raised e
  | ok listeners ↦ elim (managed_observations host discovery rows) [
    | raised e ↦ raised e
    | ok managed ↦ ok (map (attribute host managed) listeners)
  ]
]

-- the three `continue` tests of the inner loop, all passed
unfoldable pub clashes : Host → String → PortDefinition → ObservedPort → Bool
clashes host application_id declared listener =
    listener.protocol == transport_protocol declared.protocol
    && (listener.host_port == declared.host_port
        && (addresses_conflict host declared.bind_address listener.bind_address
            && not (option_beq listener.application_id (some application_id))))

unfoldable pub conflict_of : PortDefinition → ObservedPort → PortConflict
conflict_of declared listener = record {
  protocol = transport_protocol declared.protocol;
  bind_address = listener.bind_address;
  port = listener.host_port;
  pid = listener.pid;
  process_name = listener.process_name;
  application_id = listener.application_id;
  managed_by_machinedeck = is_some listener.application_id;
}

-- the inner loop, for one declared port
unfoldable pub port_conflicts :
    Host → String → PortDefinition → List ObservedPort → List PortConflict
unfolding clashes conflict_of
port_conflicts host application_id declared listeners =
    map (conflict_of declared) (filter (clashes host application_id declared) listeners)

unfoldable pub declared_conflicts :
    Host → String → List PortDefinition → List ObservedPort → List PortConflict
unfolding port_conflicts
declared_conflicts host application_id [] listeners = []
declared_conflicts host application_id (declared ∷ ports) listeners =
    port_conflicts host application_id declared listeners
    ++ declared_conflicts host application_id ports listeners

-- With no declared port the host is not scanned.
unfoldable pub conflicts :
    Host
    → Discovery
    → List ApplicationRecord
    → ApplicationManifest
    → Outcome DiscoveryError (List PortConflict)
unfolding system_ports
conflicts host discovery rows manifest = elim manifest.ports [
  | [] ↦ ok []
  | _ ↦ elim (system_ports host discovery rows) [
    | raised e ↦ raised e
    | ok listeners ↦ ok (declared_conflicts host manifest.id manifest.ports listeners)
  ]
]
