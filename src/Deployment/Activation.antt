-- ===== src/Deployment/Activation.antt =====
-- The end of the block of a deployment, and the block.
use machine_deck.Base.{
  if◌then◌else◌, or_else, pure, ◌>>◌, Ends, continue-Ends, String, ◌≡◌, ap, Bool, true, false,
  Option, some,
}
use machine_deck.Deployment.{
  run_service, start_service, linger, pointer_to, DeployStep, read_active_server, write_unit,
  daemon_reload, confirm_linger, enable_linger, enable_service, wait_for_health, enable_now, Site,
  Deployment, Deploying, Deploy, attempt, on_site, build_release, provide_config, stop_old, back_up,
  migrate, switch, activate_release, install_release,
}
use machine_deck.Deployment.Undoing.{
  Undoable, Untouched, Configured, Saved, Switched, Switched-Undoable, attempt-Ends, last-Ends,
}
use machine_deck.Deployment.Restored.{
  build_release-Untouched, migrate-Saved, switch-Switched, provide_config-Configured,
  stop_old-Configured, back_up-Saved,
}

module _ (d : Deployment) (old : Option String) (before : Site) where
  abbrev pub Activated : Deploying → Type 0
  Activated s =
      Switched d old before s
      × (s.site.unit ≡ some (d.rendered_unit (some (or_else before.config d.rendered_config))))

  module _ (p : pointer_to old ≡ before.current) where
    then-Activated :
        (P : Deploying → Type 0) (step : DeployStep) (rest : Deploy (Unit {0}))
        → ((s : Deploying) → P s → Switched d old before s)
        → ((s : Deploying) → P s → Ends (Undoable d old before) (λ _. Activated) (rest s))
        → (s : Deploying) → P s
        → Ends (Undoable d old before) (λ _. Activated) ((attempt d step >> rest) s)
    then-Activated P step rest f k s h =
        attempt-Ends d old before P (λ _. Activated) step rest s h
          (Switched-Undoable d old before p s (f s h)) k

    last-Activated :
        (step : DeployStep) (s : Deploying)
        → Activated s
        → Ends (Undoable d old before) (λ _. Activated) (attempt d step s)
    last-Activated step s h =
        last-Ends d old before Activated step s h (Switched-Undoable d old before p s h.0)

    linger-Activated :
        (b : Bool) (s : Deploying)
        → Activated s
        → Ends (Undoable d old before) (λ _. Activated) ((if b then linger d else pure tt) s)
    linger-Activated false s h = h
    linger-Activated true s h =
        then-Activated Activated confirm_linger _ (λ s h. h.0)
          (λ s h. confirmed d.linger_confirmed s h) s h
      where
        confirmed :
            (b : Bool) (s : Deploying)
            → Activated s
            → Ends
                (Undoable d old before)
                (λ _. Activated)
                ((if b then attempt d enable_linger else pure tt) s)
        confirmed false s h = h
        confirmed true s h = last-Activated enable_linger s h

    start-Activated :
        (b : Bool) (s : Deploying)
        → Activated s
        → Ends (Undoable d old before) (λ _. Activated) ((if b then start_service d else pure tt) s)
    start-Activated false s h = h
    start-Activated true s h =
        then-Activated Activated enable_service _ (λ s h. h.0) (last-Activated wait_for_health)
          (on_site (run_service d enable_now) s) h

    activate_release-Activated :
        (s : Deploying)
        → Switched d old before s
        → Ends (Undoable d old before) (λ _. Activated) (activate_release d s)
    unfolding activate_release
    activate_release-Activated =
        then-Activated (Switched d old before) read_active_server _ (λ s h. h)
          (then-Activated (Switched d old before) write_unit _ (λ s h. h)
            (λ s (r, w, b, c, db, bs, g).
              then-Activated Activated daemon_reload _ (λ s h. h.0)
                (λ s h.
                  continue-Ends (Undoable d old before) (λ _. Activated) (λ _. Activated)
                    ((if d.wants_linger then linger d else pure tt) s) _
                    (linger-Activated d.wants_linger s h)
                    (λ _ s h. start-Activated d.should_start s h))
                (on_site (λ site. record site { unit = some (d.rendered_unit site.config) }) s)
                ((r, w, b, c, db, bs, g), ap (λ c. some (d.rendered_unit c)) g)))

    pub install_release-Activated :
        (s : Deploying)
        → Untouched d old before s
        → Ends (Undoable d old before) (λ _. Activated) (install_release d old s)
    unfolding install_release
    install_release-Activated s h =
        continue-Ends (Undoable d old before) (λ _. Untouched d old before) (λ _. Activated)
          (build_release d s) _ (build_release-Untouched d old before s h)
          (λ _ s h.
            continue-Ends (Undoable d old before) (λ _. Configured d old before) (λ _. Activated)
              (provide_config d s) _ (provide_config-Configured d old before s h)
              (λ _ s h.
                continue-Ends (Undoable d old before) (λ _. Configured d old before)
                  (λ _. Activated) (stop_old d old s) _ (stop_old-Configured d old before s h)
                  (λ _ s h.
                    continue-Ends (Undoable d old before) (λ _. Saved d old before before.database)
                      (λ _. Activated) (back_up d s) _ (back_up-Saved d old before s h)
                      (λ _ s h.
                        continue-Ends (Undoable d old before)
                          (λ _. Saved d old before (d.migrated before.database)) (λ _. Activated)
                          (migrate d s) _ (migrate-Saved d old before s h)
                          (λ _ s h.
                            continue-Ends (Undoable d old before) (λ _. Switched d old before)
                              (λ _. Activated) (switch d s) _ (switch-Switched d old before s h)
                              (λ _ s h. activate_release-Activated s h))))))
