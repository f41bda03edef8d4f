-- ===== src/Deployment/Stopped.antt =====
-- The service after an upgrade that fails while the new release is built.
use mathlib.Core.Path.{subst⁻¹}
use machine_deck.Base.{
  nat_eq, string_eq, Outcome, ok, raised, Exec, raise_if, continue, ◌>>◌, String, ◌≡◌, refl, Bool,
  true, false, Option, none, some,
}
use machine_deck.Deployment.{
  set_release, DeployStep, make_release, write_marker, copy_source, create_venv, install_backend,
  write_version, write_verification_unit, DeployError, step_failed, stop, Site, Deployment,
  Deploying, Deploy, attempt, on_site, build_release, install_release, undo, guarded_install,
}

-- the block before a step
abbrev pub begun : Site → Deploying
begun before = record {
  site = before;
  backup = none;
  stopped_old_service = false;
  switched = false;
}

abbrev AsBegun : Site → Deploying → Type 0
AsBegun before s = (s.site.service ≡ before.service) × (s.stopped_old_service ≡ false)

module _ (d : Deployment) (before : Site) where
  raise_if-AsBegun :
      (b : Bool) (e : DeployError) (rest : Deploy (Unit {0})) (s : Deploying)
      → AsBegun before s
      → ((s : Deploying) → AsBegun before s → AsBegun before (rest s).1)
      → AsBegun before ((raise_if {S = Deploying} b e >> rest) s).1
  raise_if-AsBegun true e rest s h k = h
  raise_if-AsBegun false e rest s h k = k s h

  attempt-AsBegun :
      (step : DeployStep) (rest : Deploy (Unit {0}))
      → ((s : Deploying) → AsBegun before s → AsBegun before (rest s).1)
      → (s : Deploying) → AsBegun before s
      → AsBegun before ((attempt d step >> rest) s).1
  attempt-AsBegun step rest k s h = raise_if-AsBegun (d.fails step) (step_failed step) rest s h k

  build_release-AsBegun : (s : Deploying) → AsBegun before s → AsBegun before (build_release d s).1
  unfolding build_release
  build_release-AsBegun = attempt-AsBegun make_release _ (λ s h.
      attempt-AsBegun write_marker _
        (λ s h.
          attempt-AsBegun copy_source _
            (attempt-AsBegun create_venv _ (
              attempt-AsBegun install_backend _ (
                attempt-AsBegun write_version _
                  (attempt-AsBegun write_verification_unit _ (λ s h. h)))))
            (on_site (set_release d.release true) s) h)
        (on_site (set_release d.release false) s) h)

continue-raises {ℓ} :
    {S E A B : Type ℓ} (r : Outcome E A) (f : A → Exec S E B) (s : S) {e : E}
    → r ≡ raised e
    → continue r f s ≡ (raised e, s)
continue-raises (ok a) f s h = cc
continue-raises (raised x) f s h = cc

failed_build-raises :
    (d : Deployment) (old : Option String) (before : Site) {e : DeployError}
    → (build_release d (begun before)).0 ≡ raised e
    → install_release d old (begun before) ≡ (raised e, (build_release d (begun before)).1)
unfolding install_release
failed_build-raises d old before h =
    continue-raises (build_release d (begun before)).0 _ (build_release d (begun before)).1 h

-- the handler after the block
abbrev handled :
    Deployment
    → Option String
    → Site
    → Outcome DeployError (Unit {0}) × Deploying
    → Outcome DeployError String × Site
handled d old before m = elim m.0 [
  | ok _ ↦ (ok d.release, m.1.site)
  | raised e ↦ (raised e, undo d old before m.1)
]

undo-service :
    (d : Deployment) (old : String) (before : Site) (s : Deploying)
    → AsBegun before s
    → (undo d (some old) before s).service ≡ d.service_after stop before.service
unfolding undo
undo-service d old before s (same, none_stopped) = rw (none_stopped, same) refl

-- Where an upgrade fails while its release is built, before it has stopped the service of the old
-- release itself, the handler runs `stop` on that service and nothing starts it again.
pub guarded_install-failed_build :
    (d : Deployment) (old : String) (before : Site) {e : DeployError}
    → (build_release d (begun before)).0 ≡ raised e
    → ((guarded_install d (some old) before).0 ≡ raised e)
      × ((guarded_install d (some old) before).1.service ≡ d.service_after stop before.service)
unfolding guarded_install
guarded_install-failed_build d old before {e = e} h =
    let built : Deploying = (build_release d (begun before)).1 in
    subst⁻¹
      (λ m.
        ((handled d (some old) before m).0 ≡ raised e)
        × ((handled d (some old) before m).1.service ≡ d.service_after stop before.service))
      (failed_build-raises d (some old) before h)
      (
        refl,
        undo-service d old before built
            (build_release-AsBegun d before (begun before) (refl, refl)),
      )
