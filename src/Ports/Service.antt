-- ===== src/Ports/Service.antt =====
-- `ports` and `endpoints` of `PortService`, from the registry's row to the views, with their errors:
-- backend/app/orchestration/ports.py.

use machine_deck.Base.{
  if◌then◌else◌, nat_eq, string_eq, ◌==◌, Outcome, ok, raised, String, not, ◌||◌, Option, none,
  some, List,
}
use machine_deck.Status.{ApplicationStatus, unknown, status_eq}
use machine_deck.Manifest.{ApplicationManifest}
use machine_deck.Manifest.Paths.{validate_manifest_paths}
use machine_deck.Host.{Host}
use machine_deck.Database.{ApplicationRecord, Database}
use machine_deck.Database.Rows.{get_row, latest_instance}
use machine_deck.Ports.{DiscoveryError, ObservedPort, PortConflict, Discovery, transport_eq}
use machine_deck.Ports.Conflicts.{conflicts}
use machine_deck.Ports.Views.{PortView, port_views, endpoints}

-- `PortServiceError`, `ValidationError` of a row that is no manifest, and an exception of the scans
-- that the service does not handle.
pub data PortServiceError : Type 0 where
  app_not_found config_invalid scope_invalid validation_error : PortServiceError
  scan_raised : DiscoveryError → PortServiceError

abbrev row_key : ApplicationRecord → String
row_key row = row.id

-- `_manifest`
unfoldable pub port_manifest :
    Host → Database → String → Outcome PortServiceError ApplicationManifest
port_manifest host db application_id = elim (get_row row_key application_id db.applications) [
  | none ↦ raised app_not_found
  | some row ↦ elim (host.load_manifest row.config_yaml) [
    | none ↦ raised validation_error
    | some manifest ↦
        if (validate_manifest_paths host manifest).valid then ok manifest else raised config_invalid
  ]
]

-- `_status`
unfoldable pub port_status : Database → String → ApplicationStatus
port_status db application_id = elim (latest_instance application_id db.instances) [
  | none ↦ unknown
  | some state ↦ state.status
]

-- `except PortDiscoveryError`: what was found, or `none` where the scan failed with it
unfoldable pub attempted :
    {A : Type 0} → Outcome DiscoveryError A → Outcome PortServiceError (Option A)
attempted (ok found) = ok (some found)
attempted (raised (DiscoveryError.port_discovery message)) = ok none
attempted (raised e) = raised (scan_raised e)

-- from the two scans
unfoldable pub views_of :
    ApplicationManifest
    → ApplicationStatus
    → Outcome PortServiceError (Option (List ObservedPort))
    → Outcome PortServiceError (Option (List PortConflict))
    → Outcome PortServiceError (List PortView)
views_of manifest state (ok observed) (ok found) =
    ok (port_views manifest.ports observed state found)
views_of manifest state (raised e) found = raised e
views_of manifest state (ok observed) (raised e) = raised e

-- `ports`
unfoldable pub ports :
    Host → Discovery → Database → String → Outcome PortServiceError (List PortView)
unfolding port_manifest views_of attempted
ports host discovery db application_id = elim (port_manifest host db application_id) [
  | raised e ↦ raised e
  | ok manifest ↦
      views_of manifest (port_status db application_id) (attempted (discovery.discover manifest))
        (attempted (conflicts host discovery db.applications manifest))
]

-- `endpoints`: the primary one and all, for a scope
unfoldable pub endpoints_for :
    Host
    → Discovery
    → Database
    → String
    → String
    → Outcome PortServiceError (Option PortView × List PortView)
unfolding ports endpoints
endpoints_for host discovery db application_id scope =
    if not (scope == "local" || scope == "lan")
    then raised scope_invalid
    else elim (ports host discovery db application_id) [
      | raised e ↦ raised e
      | ok views ↦ ok (endpoints views)
    ]
