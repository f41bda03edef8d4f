-- ===== src/Samples/Registered.antt =====
-- The theorems on the registry, on the sample application.
use machine_deck.Base.{nat_eq, string_eq, ok, raised, ◌≡◌, refl, true, none, some, [], ◌∷◌}
use machine_deck.Text.{text_eq}
use machine_deck.Status.{ApplicationStatus, stopped, status_eq}
use machine_deck.Database.{Database}
use machine_deck.Database.Rows.{latest_instance}
use machine_deck.World.{World}
use machine_deck.Registry.{
  application_not_found, Requester, ApplicationResponse, latest_is_active, get_application,
  create_application, update_application, delete_application,
}
use machine_deck.Registry.Rules.{
  create_application-get_application, active-unchanged, delete_application-gone,
}
use machine_deck.Registry.Ids.{
  create_call, delete_call, run_calls, IsConsistent, run_calls-IsConsistent,
}
use machine_deck.Samples.{demo_manifest, demo_host, demo_row, instance_row, demo_world}

abbrev owner : Requester
owner = record { actor = "admin"; request = some ("POST", "/api/v1/applications") }

abbrev empty_database : Database
empty_database = record demo_world.db { applications = [] }

abbrev empty_world : World
empty_world = record demo_world { db = empty_database; saved = empty_database }

abbrev created : ApplicationResponse
created = record {
  row = record demo_row { created_at = 100; updated_at = 101 };
  status = stopped;
  manifest = demo_manifest;
}

create_run : (create_application demo_host owner demo_manifest empty_world).0 ≡ ok created
unfolding create_application latest_instance
create_run = refl

create_application-get_application_example :
    (get_application demo_host "demo"
      (create_application demo_host owner demo_manifest empty_world).1).0
    ≡ ok created
create_application-get_application_example =
    create_application-get_application demo_host owner demo_manifest empty_world create_run

abbrev running_database : Database
running_database = record demo_world.db {
  instances = instance_row ApplicationStatus.running 0 5 ∷ [];
}

abbrev running_world : World
running_world = record demo_world { db = running_database; saved = running_database }

active_run : latest_is_active "demo" running_database ≡ true
unfolding latest_is_active latest_instance
active_run = refl

active-unchanged_example :
    ((update_application demo_host owner "demo" demo_manifest running_world).1 ≡ running_world)
    × ((delete_application owner "demo" running_world).1 ≡ running_world)
active-unchanged_example =
    active-unchanged demo_host owner "demo" demo_manifest running_world active_run

delete_run : (delete_application owner "demo" demo_world).0 ≡ ok tt
unfolding delete_application latest_instance
delete_run = refl

delete_application-gone_example :
    ((get_application demo_host "demo" (delete_application owner "demo" demo_world).1).0
      ≡ raised application_not_found)
    × (latest_instance "demo" (delete_application owner "demo" demo_world).1.saved.instances ≡ none)
delete_application-gone_example =
    delete_application-gone demo_host owner "demo" demo_world delete_run

run_calls-IsConsistent_example :
    IsConsistent
      (run_calls demo_host owner (create_call demo_manifest ∷ delete_call "demo" ∷ []) demo_world)
run_calls-IsConsistent_example =
    run_calls-IsConsistent demo_host owner (create_call demo_manifest ∷ delete_call "demo" ∷ [])
      demo_world ((refl, tt), refl)
