-- ===== src/Ports.antt =====
-- The ports of the managed applications: backend/app/orchestration/ports.py, with the models of
-- backend/app/schemas/ports.py. What `psutil` and the Docker clients report comes as an argument.
pub mod Addresses
pub mod Conflicts
pub mod Views
pub mod Service
use machine_deck.Base.{
  Equality, ltb, leb, if◌then◌else◌, ltb→lt, leb→le, Bool-cases, Option-cases, ◌==◌, nat_beq_iff,
  nat_eq, string_eq, option_beq, option_beq_iff, is_none, is_some, or_else, length, take, drop, any,
  all, filter, find?, All, length-append, length-take, length-drop, take-append-drop, All-append,
  All-filter, length-filter, find?-some, contains, Outcome, ok, raised, Exec, pure, raise, lift,
  gets, raise_if, continue, ◌>>=◌, ◌>>◌, ℕ, zero, suc, ◌+◌, ◌-◌, ◌*◌, ◌/◌, ◌%◌, ◌^◌, ◌≤◌, ◌<◌, min,
  String, ◌≡◌, refl, sym, ap, ◌∙◌, ◌≢◌, ◌↔◌, ◌⊎◌, inl, inr, Bool, true, false, not, ◌&&◌, ◌||◌,
  Option, none, some, List, [], ◌∷◌, ◌++◌, map, arith, eq_iff, eq_refl,
}
use machine_deck.Manifest.{
  Protocol, http, https, Runtime, process, compose, PortDefinition, ApplicationManifest, FilePath,
  is_web, working_dir, runtime_type,
}
use machine_deck.Host.{IpAddress, v4, v6, Settings, Host, is_v4, ip_beq, ip_beq_iff}

pub data Transport : Type 0 where
  tcp udp : Transport

abbrev pub transport_beq : Transport → Transport → Bool
transport_beq tcp tcp = true
transport_beq udp udp = true
transport_beq _ _ = false

pub transport_beq_iff : (a b : Transport) → (transport_beq a b ≡ true) ↔ (a ≡ b)
transport_beq_iff a b = ground arith

instance abbrev pub transport_eq : Equality Transport
transport_eq = record { same = transport_beq; same_iff = transport_beq_iff }

pub data Source : Type 0 where
  process_source compose_source system_source : Source

pub record ObservedPort : Type 0 where
  pub bind_address : String
  pub host_port : ℕ
  pub protocol : Transport
  pub pid : Option ℕ
  pub process_name : Option String
  pub source : Source
  pub service : Option String
  pub container_id : Option String
  pub container_port : Option ℕ
  pub application_id : Option String

pub record PortConflict : Type 0 where
  pub protocol : Transport
  pub bind_address : String
  pub port : ℕ
  pub pid : Option ℕ
  pub process_name : Option String
  pub application_id : Option String
  pub managed_by_machinedeck : Bool

-- How `RuntimePortDiscovery.discover` may fail: by the exceptions that `_managed_observations`
-- passes over, the first of them with its message, or by another one.
pub data DiscoveryError : Type 0 where
  port_discovery : String → DiscoveryError
  value_error os_error other_error : DiscoveryError

-- What the host reports: the listeners of `scan_host_listeners`, and the ports of one application
-- that `discovery.discover` finds.
pub record Discovery : Type 0 where
  pub scan : Outcome DiscoveryError (List ObservedPort)
  pub discover : ApplicationManifest → Outcome DiscoveryError (List ObservedPort)

unfoldable pub transport_protocol : Protocol → Transport
transport_protocol Protocol.http = tcp
transport_protocol Protocol.https = tcp
transport_protocol Protocol.tcp = tcp
transport_protocol Protocol.udp = udp

-- the wildcard tests, once both texts are addresses
unfoldable pub parsed_conflict : String → String → IpAddress → IpAddress → Bool
parsed_conflict first second first_ip second_ip =
    if ip_beq first_ip second_ip
    then true
    else if first == "::" || second == "::"
    then true
    else if first == "0.0.0.0" && is_v4 second_ip
    then true
    else if second == "0.0.0.0" && is_v4 first_ip
    then true
    else false

-- `ValueError` from either reading compares the texts.
unfoldable pub addresses_conflict : Host → String → String → Bool
unfolding parsed_conflict
addresses_conflict host first second = elim (host.ip_address first) [
  | none ↦ first == second
  | some first_ip ↦ elim (host.ip_address second) [
    | none ↦ first == second
    | some second_ip ↦ parsed_conflict first second first_ip second_ip
  ]
]
