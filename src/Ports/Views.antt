-- ===== src/Ports/Views.antt =====
-- `ports` and `endpoints` of backend/app/orchestration/ports.py: what was declared beside what was
-- observed.
pub mod Account
use machine_deck.Base.{
  Equality, ltb, leb, if◌then◌else◌, ltb→lt, leb→le, Bool-cases, Option-cases, ◌==◌, nat_beq_iff,
  nat_eq, string_eq, option_beq, option_beq_iff, is_none, is_some, or_else, length, take, drop, any,
  all, filter, find?, All, length-append, length-take, length-drop, take-append-drop, All-append,
  All-filter, length-filter, find?-some, contains, Outcome, ok, raised, is_ok, Exec, pure, raise,
  lift, gets, modify, raise_if, continue, ◌>>=◌, ◌>>◌, handle_errors, continue-keeps,
  continue-raised, continue-eq-ok, Returns, continue-Returns, ℕ, zero, suc, ◌+◌, ◌-◌, ◌*◌, ◌/◌, ◌%◌,
  ◌^◌, ◌≤◌, ◌<◌, min, String, ◌≡◌, refl, sym, ap, ◌∙◌, ◌≢◌, ◌↔◌, ◌⊎◌, inl, inr, Bool, true, false,
  not, ◌&&◌, ◌||◌, Option, none, some, List, [], ◌∷◌, ◌++◌, map, arith, eq_iff, eq_refl,
}
use machine_deck.Manifest.{
  Protocol, http, https, tcp, udp, Runtime, process, compose, PortDefinition, ApplicationManifest,
  FilePath, is_web, working_dir, runtime_type,
}
use machine_deck.Status.{
  ApplicationStatus, stopped, queued, checking, starting, running, unhealthy, stopping, failed,
  unknown, disabled, ExecutionStatus, succeeded, InvalidStateTransition, invalid_transition,
  ordinal, status_beq_iff, status_eq, allowed_transitions, require_transition,
}
use machine_deck.Ports.{
  Transport, Source, process_source, compose_source, system_source, DiscoveryError, port_discovery,
  value_error, os_error, other_error, ObservedPort, PortConflict, Discovery, transport_beq,
  transport_beq_iff, transport_eq, transport_protocol, parsed_conflict, addresses_conflict,
}

pub data PortStatus : Type 0 where
  declared_status listening not_listening undeclared conflicted unknown_status : PortStatus

-- A view's id and name repeat its declaration or its observation, and are left out. A URL is the
-- text that `endpoint_url` forms of the declaration.
pub record PortView : Type 0 where
  pub declared : Option PortDefinition
  pub observed : Option ObservedPort
  pub status : PortStatus

unfoldable pub matches : PortDefinition → ObservedPort → Bool
matches declared item =
    item.protocol == transport_protocol declared.protocol
    && (item.host_port == declared.host_port && item.bind_address == declared.bind_address)

unfoldable pub keep_before :
    ObservedPort
    → Option (ObservedPort × List ObservedPort)
    → Option (ObservedPort × List ObservedPort)
keep_before x none = none
keep_before x (some (found, rest)) = some (found, x ∷ rest)

-- `next(...)` with `remaining.remove(match)`: the first item equal to the match is the match, since
-- an equal one before it would have been found first.
unfoldable pub take_match :
    (ObservedPort → Bool) → List ObservedPort → Option (ObservedPort × List ObservedPort)
unfolding keep_before
take_match p [] = none
take_match p (x ∷ xs) =
    let later = keep_before x (take_match p xs) in if p x then some (x, xs) else later

-- the `elif` ladder for a port that no observation matches
unfoldable pub unmatched_status :
    List PortConflict → Bool → Bool → ApplicationStatus → PortDefinition → PortStatus
unmatched_status found discovery_succeeded conflict_scan_succeeded state declared =
    if any
      (λ conflict.
        conflict.protocol == transport_protocol declared.protocol
        && conflict.port == declared.host_port)
      found
    then conflicted
    else if not discovery_succeeded || not conflict_scan_succeeded
    then unknown_status
    else if contains (running ∷ unhealthy ∷ []) state
    then not_listening
    else declared_status

-- the view of one declared port, and what its match leaves in `remaining`
unfoldable pub declared_view :
    (PortDefinition → PortStatus)
    → PortDefinition
    → Option (ObservedPort × List ObservedPort)
    → PortView
declared_view unmatched declared none = record {
  declared = some declared;
  observed = none;
  status = unmatched declared;
}
declared_view unmatched declared (some (found, _)) = record {
  declared = some declared;
  observed = some found;
  status = listening;
}

unfoldable pub left_over :
    List ObservedPort → Option (ObservedPort × List ObservedPort) → List ObservedPort
left_over remaining none = remaining
left_over remaining (some (_, rest)) = rest

-- the loop over `manifest.ports`: its views, and what is left in `remaining`
unfoldable pub declared_views :
    (PortDefinition → PortStatus)
    → List PortDefinition
    → List ObservedPort
    → List PortView × List ObservedPort
unfolding take_match declared_view left_over
declared_views unmatched [] remaining = ([], remaining)
declared_views unmatched (declared ∷ ports) remaining =
    let found = take_match (matches declared) remaining in
    let (views, left) = declared_views unmatched ports (left_over remaining found) in
    (declared_view unmatched declared found ∷ views, left)

unfoldable pub undeclared_view : ObservedPort → PortView
undeclared_view item = record { declared = none; observed = some item; status = undeclared }

-- `ports`, from the results of `_observed`, `_status` and `conflicts`: a `PortDiscoveryError` is
-- `none`.
unfoldable pub port_views :
    List PortDefinition
    → Option (List ObservedPort)
    → ApplicationStatus
    → Option (List PortConflict)
    → List PortView
unfolding declared_views unmatched_status undeclared_view
port_views ports observed state found =
    let (views, remaining) =
      declared_views (unmatched_status (or_else found []) (is_some observed) (is_some found) state)
        ports (or_else observed []) in
    views ++ map undeclared_view remaining

-- the test of the comprehension in `endpoints`
unfoldable pub is_endpoint : PortView → Bool
is_endpoint view = elim view.declared [
  | none ↦ false
  | some declared ↦ is_web declared.protocol && declared.open_in_browser
]

abbrev is_primary : PortView → Bool
is_primary view = elim view.declared [ none ↦ false | some declared ↦ declared.primary ]

unfoldable pub endpoints : List PortView → Option PortView × List PortView
unfolding is_endpoint
endpoints views = let found = filter is_endpoint views in (find? is_primary found, found)
