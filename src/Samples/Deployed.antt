-- ===== src/Samples/Deployed.antt =====
-- The theorems on deployment, on an upgrade that fails.
use machine_deck.Base.{raised, String, ◌≡◌, refl, Bool, true, false, some, [], ◌∷◌}
use machine_deck.Deployment.{
  DeployStep, install_backend, wait_for_health, step_failed, release_link, ServiceCommand, stop,
  disable_now, enable_now, start, Service, Site, Deployment, build_release, guarded_install, deploy,
}
use machine_deck.Deployment.Whole.{IsDone, deploy-IsDone}
use machine_deck.Deployment.Stopped.{begun, guarded_install-failed_build}

abbrev after_command : ServiceCommand → Service → Service
after_command stop service = record service { running = false }
after_command disable_now service = record { running = false; enabled = false }
after_command enable_now service = record { running = true; enabled = true }
after_command start service = record service { running = true }

abbrev old_site : Site
old_site = record {
  releases = ("1.0", false) ∷ [];
  current = release_link "1.0";
  unit = some "unit of 1.0";
  config = some "port: 8765";
  database = some "schema 1";
  backups = [];
  service = record { running = true; enabled = true };
}

abbrev fails_at_health : DeployStep → Bool
fails_at_health wait_for_health = true
fails_at_health _ = false

abbrev fails_at_backend : DeployStep → Bool
fails_at_backend install_backend = true
fails_at_backend _ = false

abbrev upgrade_to : String → (DeployStep → Bool) → Deployment
upgrade_to release fails = record {
  upgrade = true;
  should_start = true;
  wants_linger = false;
  linger_confirmed = false;
  port_available = false;
  release = release;
  fails = fails;
  rendered_config = "port: 8765";
  rendered_unit = λ _. "unit of current";
  migrated = λ _. some "schema 2";
  service_after = after_command;
}

deploy-IsDone_example :
    IsDone
      (upgrade_to "2.0" fails_at_health)
      old_site
      (deploy (upgrade_to "2.0" fails_at_health) old_site)
deploy-IsDone_example = deploy-IsDone (upgrade_to "2.0" fails_at_health) old_site

failed_backend :
    (build_release (upgrade_to "2.0" fails_at_backend) (begun old_site)).0
    ≡ raised (step_failed install_backend)
unfolding build_release
failed_backend = refl

guarded_install-failed_build_example :
    ((guarded_install (upgrade_to "2.0" fails_at_backend) (some "1.0") old_site).0
      ≡ raised (step_failed install_backend))
    × ((guarded_install (upgrade_to "2.0" fails_at_backend) (some "1.0") old_site).1.service
        ≡ record { running = false; enabled = true })
guarded_install-failed_build_example =
    guarded_install-failed_build (upgrade_to "2.0" fails_at_backend) "1.0" old_site failed_backend

-- the failing health check is reached, and everything is put back
failed_health :
    deploy (upgrade_to "2.0" fails_at_health) old_site
    ≡ (raised (step_failed wait_for_health), record old_site { backups = "schema 1" ∷ [] })
unfolding deploy
failed_health = refl
