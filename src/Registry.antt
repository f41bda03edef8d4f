-- ===== src/Registry.antt =====
-- The registry of applications: backend/app/services/applications.py.
pub mod Rules
pub mod Ids
use machine_deck.Base.{
  if◌then◌else◌, ◌==◌, nat_eq, string_eq, is_some, filter, contains, ok, raised, Exec, gets,
  raise_if, ◌>>=◌, ◌>>◌, ℕ, String, Bool, false, not, Option, none, some, List, [], ◌∷◌, ◌++◌,
}
use machine_deck.Json.{string, mapping, Fields, no_fields, field, put}
use machine_deck.Status.{
  ApplicationStatus, stopped, checking, starting, unhealthy, stopping, disabled, status_eq,
}
use machine_deck.Manifest.{ApplicationManifest, runtime_type}
use machine_deck.Host.{Host}
use machine_deck.Database.{ApplicationRecord, ApplicationInstanceRecord, Database}
use machine_deck.Database.Rows.{get_row, update_row, delete_row, latest_instance}
use machine_deck.World.{
  World, utc_now, uuid4, commit, change, rollback, with_applications, with_instances,
  add_audit_event,
}
use machine_deck.Lifecycle.{application_key, new_instance}

-- What the service raises: the three errors of its own, `ValueError` for an id that does not match,
-- and `ValidationError` from a row that is read back.
pub data RegistryError : Type 0 where
  application_exists application_not_found application_running id_mismatch invalid_row :
      RegistryError

-- Who asks: the keyword arguments of the operations. `request` is `none` where either of
-- `request_method` and `request_path` is missing or empty.
pub record Requester : Type 0 where
  pub actor : String
  pub request : Option (String × String)

pub record ApplicationResponse : Type 0 where
  pub row : ApplicationRecord
  pub status : ApplicationStatus
  pub manifest : ApplicationManifest

-- `status in ACTIVE_STATUSES`
unfoldable pub is_active : ApplicationStatus → Bool
is_active s =
    contains (checking ∷ starting ∷ ApplicationStatus.running ∷ unhealthy ∷ stopping ∷ []) s

-- the test of `_reject_active_application`
unfoldable pub latest_is_active : String → Database → Bool
unfolding is_active
latest_is_active application_id db = elim (latest_instance application_id db.instances) [
  | none ↦ false
  | some state ↦ is_active state.status
]

unfoldable pub current_status : ApplicationRecord → Database → ApplicationStatus
current_status row db =
    if not row.enabled
    then disabled
    else elim (latest_instance row.id db.instances) [ none ↦ stopped | some state ↦ state.status ]

-- `_response`
unfoldable pub response_of : Host → ApplicationRecord → Exec World RegistryError ApplicationResponse
unfolding current_status
response_of host row w = elim (host.load_manifest row.config_yaml) [
  | none ↦ (raised invalid_row, w)
  | some manifest ↦
      (ok (record { row = row; status = current_status row w.db; manifest = manifest }), w)
]

-- `_audit`
unfoldable pub registry_details : Requester → Fields → Fields
registry_details who details = elim who.request [
  | none ↦ details
  | some (method, path) ↦
      put "request"
        (mapping (field "method" (string method) (field "path" (string path) no_fields))) details
]

unfoldable pub audit : Requester → String → String → Fields → Exec World RegistryError Unit
unfolding add_audit_event registry_details
audit who action target_id details =
    add_audit_event who.actor action "application" target_id "success"
      (registry_details who details)

abbrev pub change_details : ApplicationManifest → Fields
change_details manifest =
    field "runtime_type" (string (runtime_type manifest.runtime))
      (field "target_name" (string manifest.name) no_fields)

-- `session.get(ApplicationRecord, id)`, with the error of a missing row
unfoldable pub find_application : String → Exec World RegistryError ApplicationRecord
find_application application_id w =
    elim (get_row application_key application_id w.db.applications) [
      | none ↦ (raised application_not_found, w)
      | some row ↦ (ok row, w)
    ]

-- `get_application`
unfoldable pub get_application : Host → String → Exec World RegistryError ApplicationResponse
unfolding find_application response_of
get_application host application_id = do row ← find_application application_id; response_of host row

unfoldable pub new_application : Host → ApplicationManifest → ℕ → ℕ → ApplicationRecord
new_application host manifest created updated = record {
  id = manifest.id;
  name = manifest.name;
  description = manifest.description;
  runtime_type = runtime_type manifest.runtime;
  config_yaml = host.dump_manifest manifest;
  enabled = manifest.enabled;
  created_at = created;
  updated_at = updated;
}

unfoldable pub first_instance : ApplicationManifest → ℕ → ℕ → ApplicationInstanceRecord
unfolding new_instance
first_instance manifest id now = record (new_instance manifest.id id now) {
  status = if manifest.enabled then stopped else disabled;
}

-- The flush and its `IntegrityError`: another session has committed a row with the same id.
unfoldable pub flush_application : ApplicationRecord → Exec World RegistryError Unit
flush_application row w =
    if is_some (get_row application_key row.id w.saved.applications)
    then (raised application_exists, rollback w)
    else (ok tt, record w { db = with_applications (w.db.applications ++ row ∷ []) w.db })

-- `create_application`
unfoldable pub create_application :
    Host → Requester → ApplicationManifest → Exec World RegistryError ApplicationResponse
unfolding flush_application first_instance new_application audit response_of
create_application host who manifest = do
  taken ← gets (λ w. is_some (get_row application_key manifest.id w.db.applications))
  raise_if taken application_exists
  created ← utc_now
  updated ← utc_now
  let row = new_application host manifest created updated
  flush_application row
  id ← uuid4
  now ← utc_now
  change (λ db. with_instances (db.instances ++ first_instance manifest id now ∷ []) db)
  audit who "application.create" manifest.id (change_details manifest)
  commit
  response_of host row

unfoldable pub updated_row : Host → ApplicationManifest → ℕ → ApplicationRecord → ApplicationRecord
updated_row host manifest now row = record row {
  name = manifest.name;
  description = manifest.description;
  runtime_type = runtime_type manifest.runtime;
  config_yaml = host.dump_manifest manifest;
  enabled = manifest.enabled;
  updated_at = now;
}

-- `update_application`
unfoldable pub update_application :
    Host → Requester → String → ApplicationManifest → Exec World RegistryError ApplicationResponse
unfolding find_application latest_is_active updated_row audit response_of
update_application host who application_id manifest = do
  raise_if (not (application_id == manifest.id)) id_mismatch
  row ← find_application application_id
  active ← gets (λ w. latest_is_active application_id w.db)
  raise_if active application_running
  now ← utc_now
  let row' = updated_row host manifest now row
  change (λ db.
      with_applications (update_row application_key application_id (λ _. row') db.applications) db)
  audit who "application.update" application_id (change_details manifest)
  commit
  response_of host row'

-- the instances that a deleted application takes with it, by `ondelete="CASCADE"`
unfoldable pub without_application : String → Database → Database
without_application application_id db = record db {
  applications = delete_row application_key application_id db.applications;
  instances = filter (λ row. not (row.application_id == application_id)) db.instances;
}

-- `delete_application`
unfoldable pub delete_application : Requester → String → Exec World RegistryError Unit
unfolding find_application latest_is_active without_application audit
delete_application who application_id = do
  row ← find_application application_id
  active ← gets (λ w. latest_is_active application_id w.db)
  raise_if active application_running
  change (without_application application_id)
  audit who "application.delete" application_id (field "target_name" (string row.name) no_fields)
  commit
