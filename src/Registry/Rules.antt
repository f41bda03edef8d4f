-- ===== src/Registry/Rules.antt =====
-- One request to the registry and the next: backend/app/services/applications.py.
use machine_deck.Base.{
  ◌==◌, nat_eq, string_eq, filter, ok, raised, ◌+◌, String, ◌≡◌, refl, true, not, none, List, [],
  ◌∷◌, arith, eq_refl,
}
use machine_deck.Status.{status_eq}
use machine_deck.Manifest.{ApplicationManifest}
use machine_deck.Host.{Host}
use machine_deck.Database.{ApplicationInstanceRecord}
use machine_deck.Database.Rows.{get_row-append, get_row-delete_row, newest_from, latest_instance}
use machine_deck.World.{World}
use machine_deck.Lifecycle.{application_key}
use machine_deck.Registry.{
  application_not_found, Requester, ApplicationResponse, latest_is_active, get_application,
  new_application, create_application, update_application, delete_application,
}

-- What `create_application` returns is what `get_application` then returns.
pub create_application-get_application :
    (host : Host) (who : Requester) (manifest : ApplicationManifest) (w : World)
    {response : ApplicationResponse}
    → (create_application host who manifest w).0 ≡ ok response
    → (get_application host manifest.id (create_application host who manifest w).1).0 ≡ ok response
unfolding create_application get_application
create_application-get_application host who manifest w h = ground (
  arith,
  get_row-append application_key manifest.id w.db.applications
      (new_application host manifest (w.clock w.readings) (w.clock (w.readings + 1))),
  eq_refl manifest.id,
)

-- While the newest instance of an application is active, neither an update nor a deletion changes
-- anything.
pub active-unchanged :
    (host : Host) (who : Requester) (id : String) (manifest : ApplicationManifest) (w : World)
    → latest_is_active id w.db ≡ true
    → ((update_application host who id manifest w).1 ≡ w) × ((delete_application who id w).1 ≡ w)
unfolding update_application delete_application
active-unchanged host who id manifest w h = ground arith

newest_from-others :
    (id : String) (rows : List ApplicationInstanceRecord)
    → newest_from none id (filter (λ row. not (row.application_id == id)) rows) ≡ none
unfolding newest_from
newest_from-others id [] = refl
newest_from-others id (row ∷ rows) = ground (arith, newest_from-others id rows)

-- An application that was deleted is not found any more, and none of its instances is left.
pub delete_application-gone :
    (host : Host) (who : Requester) (id : String) (w : World)
    → (delete_application who id w).0 ≡ ok tt
    → ((get_application host id (delete_application who id w).1).0 ≡ raised application_not_found)
      × (latest_instance id (delete_application who id w).1.saved.instances ≡ none)
unfolding delete_application get_application latest_instance
delete_application-gone host who id w h = ground (
  arith,
  get_row-delete_row application_key id id w.db.applications,
  newest_from-others id w.db.instances,
  eq_refl id,
)
