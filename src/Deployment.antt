-- ===== src/Deployment.antt =====
-- The installation and the upgrade of MachineDeck itself: `deploy` of scripts/machinedeck_deploy.py,
-- with the pointer to the current release, the database, the configuration and the unit. A step
-- that may fail is given by whether it does; the texts of the configuration and of the unit, the
-- migration and the effect of a systemctl command on the service are parameters.
pub mod Undoing
pub mod Restored
pub mod Activation
pub mod Whole
pub mod Stopped
use machine_deck.Base.{
  Equality, ltb, leb, if◌then◌else◌, ltb→lt, leb→le, Bool-cases, Option-cases, nat_beq_iff, nat_eq,
  string_eq, ◌==◌, option_beq, option_beq_iff, is_none, is_some, or_else, length, take, drop, any,
  all, filter, find?, All, length-append, length-take, length-drop, take-append-drop, All-append,
  drop-append, drop-nil, drop-drop, All-filter, length-filter, find?-some, contains, Outcome, ok,
  raised, is_ok, Exec, pure, raise, lift, gets, modify, raise_if, continue, ◌>>=◌, ◌>>◌,
  handle_errors, continue-keeps, continue-raised, continue-eq-ok, Returns, continue-Returns, Ends,
  continue-Ends, ℕ, zero, suc, ◌+◌, ◌-◌, ◌*◌, ◌/◌, ◌%◌, ◌^◌, ◌≤◌, ◌<◌, min, String, ◌≡◌, refl, sym,
  ap, ◌∙◌, ◌≢◌, ◌↔◌, ◌⊎◌, inl, inr, Bool, true, false, not, ◌&&◌, ◌||◌, Option, none, some, List,
  [], ◌∷◌, ◌++◌, map, arith, eq_iff, eq_refl,
}

pub data DeployStep : Type 0 where
  check_linux reject_root validate_source prepare_paths validate_sqlite read_server show_environment
        make_release write_marker copy_source create_venv install_backend write_version
        write_verification_unit verify_unit write_config stop_service backup_database
        migrate_database chmod_database unlink_marker switch_current read_active_server write_unit
        daemon_reload confirm_linger enable_linger enable_service wait_for_health :
      DeployStep

pub data DeployError : Type 0 where
  step_failed : DeployStep → DeployError
  pointer_not_symlink pointer_outside not_installed port_in_use release_exists : DeployError

-- `paths.current`
pub data Pointer : Type 0 where
  absent not_a_symlink outside : Pointer
  release_link : String → Pointer

pub data ServiceCommand : Type 0 where
  stop disable_now enable_now start : ServiceCommand

pub record Service : Type 0 where
  pub running : Bool
  pub enabled : Bool

-- What is installed on the host: the releases, each with whether its marker `.installing` is there,
-- and the files outside of them.
pub record Site : Type 0 where
  pub releases : List (String × Bool)
  pub current : Pointer
  pub unit : Option String
  pub config : Option String
  pub database : Option String
  pub backups : List String
  pub service : Service

-- The arguments of `deploy`, what its steps make, and which of them fail. `release` is the name that
-- `_release_name` gives.
pub record Deployment : Type 0 where
  pub upgrade : Bool
  pub should_start : Bool
  pub wants_linger : Bool
  pub linger_confirmed : Bool
  pub port_available : Bool
  pub release : String
  pub fails : DeployStep → Bool
  pub rendered_config : String
  pub rendered_unit : Option String → String
  pub migrated : Option String → Option String
  pub service_after : ServiceCommand → Service → Service

-- The site, and the variables of `deploy` that its handler reads.
pub record Deploying : Type 0 where
  pub site : Site
  pub backup : Option String
  pub stopped_old_service : Bool
  pub switched : Bool

abbrev pub Deploy : Type 0 → Type 0
Deploy A = Exec Deploying DeployError A

-- a step that may raise and changes nothing of what is modelled
abbrev pub attempt : Deployment → DeployStep → Deploy (Unit {0})
attempt d step = raise_if (d.fails step) (step_failed step)

abbrev pub on_site : (Site → Site) → Deploying → Deploying
on_site f s = record s { site = f s.site }

abbrev pub without : String → List (String × Bool) → List (String × Bool)
without name [] = []
without name ((n, marker) ∷ releases) =
    let rest = without name releases in if n == name then rest else (n, marker) ∷ rest

abbrev set_release : String → Bool → Site → Site
set_release name marker site = record site {
  releases = (name, marker) ∷ without name site.releases;
}

abbrev run_service : Deployment → ServiceCommand → Site → Site
run_service d command site = record site { service = d.service_after command site.service }

-- `_current_target`
unfoldable pub current_target : Pointer → Outcome DeployError (Option String)
current_target absent = ok none
current_target not_a_symlink = raised pointer_not_symlink
current_target outside = raised pointer_outside
current_target (release_link name) = ok (some name)

-- the directory of the new release, built beside the old one
unfoldable pub build_release : Deployment → Deploy (Unit {0})
build_release d = do
  attempt d make_release
  modify (on_site (set_release d.release false))
  attempt d write_marker
  modify (on_site (set_release d.release true))
  attempt d copy_source
  attempt d create_venv
  attempt d install_backend
  attempt d write_version
  attempt d write_verification_unit
  attempt d verify_unit

-- `if not paths.config.exists(): ...`
unfoldable pub provide_if_missing : Deployment → Option String → Deploy (Unit {0})
provide_if_missing d (some _) = pure tt
provide_if_missing d none = do
  attempt d write_config
  modify (on_site (λ site. record site { config = some d.rendered_config }))

unfoldable pub provide_config : Deployment → Deploy (Unit {0})
unfolding provide_if_missing
provide_config d s = provide_if_missing d s.site.config s

unfoldable pub stop_if : Deployment → Bool → Deploy (Unit {0})
stop_if d false = pure tt
stop_if d true = do
  attempt d stop_service
  modify (λ s. record (on_site (run_service d stop) s) { stopped_old_service = true })

-- `if old_release is not None and _service_active(runner): ...`
unfoldable pub stop_old : Deployment → Option String → Deploy (Unit {0})
unfolding stop_if
stop_old d old s = stop_if d (is_some old && s.site.service.running) s

-- `_backup_database`, on what `database.exists()` finds
unfoldable pub back_up_content : Deployment → Option String → Deploy (Unit {0})
back_up_content d none = pure tt
back_up_content d (some content) = do
  attempt d backup_database
  modify (λ s. record (on_site (λ site. record site { backups = content ∷ site.backups }) s) {
    backup = some content;
  })

unfoldable pub back_up : Deployment → Deploy (Unit {0})
unfolding back_up_content
back_up d s = back_up_content d s.site.database s

-- The migration may leave the database changed where it fails.
unfoldable pub migrate : Deployment → Deploy (Unit {0})
migrate d = do
  modify (on_site (λ site. record site { database = d.migrated site.database }))
  attempt d migrate_database
  attempt d chmod_database

unfoldable pub switch : Deployment → Deploy (Unit {0})
switch d = do
  attempt d unlink_marker
  modify (on_site (set_release d.release false))
  attempt d switch_current
  modify (λ s. record (on_site (λ site. record site { current = release_link d.release }) s) {
    switched = true;
  })

abbrev linger : Deployment → Deploy (Unit {0})
linger d = do
  attempt d confirm_linger
  if d.linger_confirmed then attempt d enable_linger else pure tt

abbrev start_service : Deployment → Deploy (Unit {0})
start_service d = do
  modify (on_site (run_service d enable_now))
  attempt d enable_service
  attempt d wait_for_health

-- after the switch: the unit, and the service
unfoldable pub activate_release : Deployment → Deploy (Unit {0})
activate_release d = do
  attempt d read_active_server
  attempt d write_unit
  modify (on_site (λ site. record site { unit = some (d.rendered_unit site.config) }))
  attempt d daemon_reload
  if d.wants_linger then linger d else pure tt
  if d.should_start then start_service d else pure tt

-- the block that the handler guards
unfoldable pub install_release : Deployment → Option String → Deploy (Unit {0})
unfolding build_release provide_config stop_old back_up migrate switch activate_release
install_release d old = do
  build_release d
  provide_config d
  stop_old d old
  back_up d
  migrate d
  switch d
  activate_release d

abbrev pointer_to : Option String → Pointer
pointer_to none = absent
pointer_to (some name) = release_link name

-- what the handler puts back
unfoldable pub restored_current : Option String → Deploying → Pointer
restored_current old s = if s.switched then pointer_to old else s.site.current

unfoldable pub restored_database : Bool → Deploying → Option String
restored_database existed s = elim s.backup [
  | some content ↦ some content
  | none ↦ if existed then s.site.database else none
]

unfoldable pub restored_config : Bool → Deploying → Option String
restored_config existed s = if existed then s.site.config else none

-- The handler, with the site as it was before the block. A command of it may fail without an effect.
unfoldable pub undo : Deployment → Option String → Site → Deploying → Site
unfolding restored_current restored_database restored_config
undo d old before s =
    let halted = d.service_after (if is_some old then stop else disable_now) s.site.service in
    record {
      releases = without d.release s.site.releases;
      current = restored_current old s;
      unit = before.unit;
      config = restored_config (is_some before.config) s;
      database = restored_database (is_some before.database) s;
      backups = s.site.backups;
      service = if s.stopped_old_service then d.service_after start halted else halted;
    }

-- `if release.exists() or release.is_symlink(): ...`, by the marker of the release
unfoldable pub clear_release :
    String
    → Option String
    → List (String × Bool)
    → List (String × Bool)
    → Outcome DeployError (List (String × Bool))
clear_release name old all [] = ok all
clear_release name old all ((n, marker) ∷ releases) =
    let rest = clear_release name old all releases in
    if n == name
    then if marker && not (option_beq old (some name))
      then ok (without name all)
      else raised release_exists
    else rest

unfoldable pub guarded_install :
    Deployment → Option String → Site → Outcome DeployError String × Site
unfolding install_release undo
guarded_install d old before =
    let (result, s) =
      install_release d old
        (record { site = before; backup = none; stopped_old_service = false; switched = false }) in
    elim result [ ok _ ↦ (ok d.release, s.site) | raised e ↦ (raised e, undo d old before s) ]

abbrev first_failure : Deployment → List DeployStep → Option DeployError
first_failure d [] = none
first_failure d (step ∷ steps) =
    let rest = first_failure d steps in if d.fails step then some (step_failed step) else rest

-- what follows the reading of the current release
unfoldable pub deploy_over : Deployment → Option String → Site → Outcome DeployError String × Site
unfolding clear_release guarded_install
deploy_over d old before =
    if d.upgrade && is_none old
    then (raised not_installed, before)
    else elim (if d.upgrade then none else old) [
      | some release ↦ (ok release, before)
      | none ↦
          if d.fails read_server
          then (raised (step_failed read_server), before)
          else if not d.port_available && not before.service.running
          then (raised port_in_use, before)
          else if d.fails show_environment
          then (raised (step_failed show_environment), before)
          else elim (clear_release d.release old before.releases before.releases) [
            | raised e ↦ (raised e, before)
            | ok releases ↦ guarded_install d old (record before { releases = releases })
          ]
    ]

unfoldable pub deploy : Deployment → Site → Outcome DeployError String × Site
unfolding current_target deploy_over
deploy d before =
    elim (first_failure d
      (check_linux ∷ reject_root ∷ validate_source ∷ prepare_paths ∷ validate_sqlite ∷ [])) [
        | some e ↦ (raised e, before)
        | none ↦ elim (current_target before.current) [
          | raised e ↦ (raised e, before)
          | ok old ↦ deploy_over d old before
        ]
      ]
