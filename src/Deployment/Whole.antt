-- ===== src/Deployment/Whole.antt =====
-- A deployment as a whole: done, or undone.
use machine_deck.Base.{
  if◌then◌else◌, is_none, or_else, all, Outcome, ok, raised, Ends, String, ◌≡◌, refl, sym, ap, ◌∙◌,
  ◌⊎◌, inl, inr, Bool, true, false, not, ◌&&◌, Option, none, some, List, [], ◌∷◌, arith,
}
use machine_deck.Deployment.{
  pointer_to, read_server, show_environment, DeployError, step_failed, not_installed, port_in_use,
  Pointer, absent, not_a_symlink, outside, release_link, Site, Deployment, Deploying, without,
  current_target, install_release, undo, clear_release, guarded_install, deploy_over, deploy,
}
use machine_deck.Deployment.Undoing.{without-without, Undoable, kept_backups}
use machine_deck.Deployment.Activation.{Activated, install_release-Activated}

-- The pointer, the unit, the configuration, the database and the other releases are as before.
abbrev pub Unchanged : Deployment → Site → Site → Type 0
Unchanged d before after =
    (without d.release after.releases ≡ without d.release before.releases)
    × (after.current ≡ before.current)
    × (after.unit ≡ before.unit)
    × (after.config ≡ before.config)
    × (after.database ≡ before.database)

abbrev pub backups_with : Option String → List String → List String
backups_with none backups = backups
backups_with (some content) backups = content ∷ backups

-- The release is complete, current and described by the unit, and the database is migrated.
abbrev pub IsInstalled : Deployment → Site → Site → Type 0
IsInstalled d before after =
    (after.releases ≡ (d.release, false) ∷ without d.release before.releases)
    × (after.current ≡ release_link d.release)
    × (after.unit ≡ some (d.rendered_unit after.config))
    × (after.config ≡ some (or_else before.config d.rendered_config))
    × (after.database ≡ d.migrated before.database)
    × (after.backups ≡ backups_with before.database before.backups)

abbrev pub IsDone : Deployment → Site → Outcome DeployError String × Site → Type 0
IsDone d before (ok name, after) =
    ((d.upgrade ≡ false) × (before.current ≡ release_link name) × (after ≡ before))
    ⊎ ((name ≡ d.release) × IsInstalled d before after)
IsDone d before (raised e, after) = Unchanged d before after

-- What a deployment that was not refused before its block is.
abbrev IsNew : Deployment → Site → Outcome DeployError String × Site → Type 0
IsNew d before (ok name, after) = (name ≡ d.release) × IsInstalled d before after
IsNew d before (raised e, after) = Unchanged d before after

kept-backups_with :
    (d : Deployment) (old : Option String) (before : Site)
    → kept_backups d old before ≡ backups_with before.database before.backups
kept-backups_with d old before = ground arith

-- the handler after the block
handled-IsNew :
    (d : Deployment) (old : Option String) (before : Site)
    (m : Outcome DeployError (Unit {0}) × Deploying)
    → Ends (Undoable d old before) (λ _. Activated d old before) m
    → IsNew d before (elim m.0 [
      | ok _ ↦ (ok d.release, m.1.site)
      | raised e ↦ (raised e, undo d old before m.1)
    ])
unfolding undo
handled-IsNew d old before (ok _, s) ((r, w, b, c, db, bs, g), u) = (
  refl,
  (
    r,
    c,
    u ∙ ap (λ x. some (d.rendered_unit x)) (sym g),
    g,
    db,
    bs ∙ kept-backups_with d old before,
  ),
)
handled-IsNew d old before (raised e, s) (r, c, db, g) =
    (without-without d.release s.site.releases ∙ r, c, refl, g, db)

guarded_install-IsNew :
    (d : Deployment) (old : Option String) (before : Site)
    → pointer_to old ≡ before.current
    → IsNew d before (guarded_install d old before)
unfolding guarded_install
guarded_install-IsNew d old before p =
    let begun : Deploying = record {
      site = before;
      backup = none;
      stopped_old_service = false;
      switched = false;
    } in
    handled-IsNew d old before (install_release d old begun)
      (install_release-Activated d old before p begun ((refl, refl, refl, refl, refl, refl), refl))

cleared-IsDone :
    (d : Deployment) (before : Site) (releases : List (String × Bool))
    (result : Outcome DeployError String × Site)
    → without d.release releases ≡ without d.release before.releases
    → IsNew d (record before { releases = releases }) result
    → IsDone d before result
cleared-IsDone d before releases (ok name, after) h (n, (r, c, u, g, db, bs)) =
    inr (n, (r ∙ ap (λ xs. (d.release, false) ∷ xs) h, c, u, g, db, bs))
cleared-IsDone d before releases (raised e, after) h (r, c, u, g, db) = (r ∙ h, c, u, g, db)

clear_release-without :
    (name : String) (old : Option String) (all releases : List (String × Bool))
    {cleared : List (String × Bool)}
    → clear_release name old all releases ≡ ok cleared
    → without name cleared ≡ without name all
unfolding clear_release
clear_release-without name old all [] h = ground arith
clear_release-without name old all ((n, marker) ∷ releases) {cleared = cleared} h = ground (
  arith,
  clear_release-without name old all releases {cleared = cleared},
  without-without name all,
)

current_target-pointer_to :
    (pointer : Pointer) {old : Option String}
    → current_target pointer ≡ ok old
    → pointer_to old ≡ pointer
unfolding current_target
current_target-pointer_to absent h = ground arith
current_target-pointer_to not_a_symlink h = ground arith
current_target-pointer_to outside h = ground arith
current_target-pointer_to (release_link name) {old = old} h =
    let e : old ≡ some name = ground arith in rw e refl

module _ (d : Deployment) (before : Site) where
  refused-IsDone :
      (b : Bool) (e : DeployError) (rest : Outcome DeployError String × Site)
      → IsDone d before rest
      → IsDone d before (if b then (raised e, before) else rest)
  refused-IsDone true e rest h = (refl, refl, refl, refl, refl)
  refused-IsDone false e rest h = h

  install_after-IsDone :
      (old : Option String) (cleared : Outcome DeployError (List (String × Bool)))
      → pointer_to old ≡ before.current
      → clear_release d.release old before.releases before.releases ≡ cleared
      → IsDone d before (elim cleared [
        | raised e ↦ (raised e, before)
        | ok releases ↦ guarded_install d old (record before { releases = releases })
      ])
  install_after-IsDone old (raised e) p h = (refl, refl, refl, refl, refl)
  install_after-IsDone old (ok releases) p h =
      cleared-IsDone d before releases
        (guarded_install d old (record before { releases = releases }))
        (clear_release-without d.release old before.releases before.releases h)
        (guarded_install-IsNew d old (record before { releases = releases }) p)

  chosen-IsDone :
      (old installed : Option String) (rest : Outcome DeployError String × Site)
      → pointer_to old ≡ before.current
      → (if d.upgrade then none else old) ≡ installed
      → IsDone d before rest
      → IsDone d before (elim installed [ some release ↦ (ok release, before) | none ↦ rest ])
  chosen-IsDone old none rest p e h = h
  chosen-IsDone old (some release) rest p e h =
      let found : old ≡ some release = ground (arith, e) in
      inl (ground (arith, e), sym p ∙ ap pointer_to found, refl)

  deploy_over-IsDone :
      (old : Option String)
      → pointer_to old ≡ before.current
      → IsDone d before (deploy_over d old before)
  unfolding deploy_over
  deploy_over-IsDone old p = refused-IsDone (d.upgrade && is_none old) not_installed _ (
      chosen-IsDone old (if d.upgrade then none else old) _ p refl (
        refused-IsDone (d.fails read_server) (step_failed read_server) _ (
          refused-IsDone (not d.port_available && not before.service.running) port_in_use _ (
            refused-IsDone (d.fails show_environment) (step_failed show_environment) _ (
              install_after-IsDone old (clear_release d.release old before.releases before.releases)
                p refl)))))

  targeted-IsDone :
      (target : Outcome DeployError (Option String))
      → current_target before.current ≡ target
      → IsDone d before
          (elim target [ raised e ↦ (raised e, before) | ok old ↦ deploy_over d old before ])
  targeted-IsDone (raised e) h = (refl, refl, refl, refl, refl)
  targeted-IsDone (ok old) h = deploy_over-IsDone old (current_target-pointer_to before.current h)

  checked-IsDone :
      (failure : Option DeployError) (rest : Outcome DeployError String × Site)
      → IsDone d before rest
      → IsDone d before (elim failure [ some e ↦ (raised e, before) | none ↦ rest ])
  checked-IsDone none rest h = h
  checked-IsDone (some e) rest h = (refl, refl, refl, refl, refl)

-- A deployment is done or undone. If it raises, at whichever of its steps, the pointer to the
-- current release, the unit, the configuration, the database and the other releases are those from
-- before, also where the migration has changed the database or the pointer was switched. If it
-- returns, MachineDeck was installed already and nothing has changed, or the new release is complete
-- and current, the unit is that of the configuration, the database is the migrated one and, if there
-- was one, a backup of it is kept.
pub deploy-IsDone : (d : Deployment) (before : Site) → IsDone d before (deploy d before)
unfolding deploy
deploy-IsDone d before =
    checked-IsDone d before _ _ (targeted-IsDone d before (current_target before.current) refl)
