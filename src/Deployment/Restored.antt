-- ===== src/Deployment/Restored.antt =====
-- The block of a deployment, step by step.
use machine_deck.Base.{
  is_some, modify, ◌>>◌, Ends, String, ◌≡◌, refl, sym, ap, ◌∙◌, Bool, true, false, ◌&&◌, Option,
  none, some, ◌∷◌, arith,
}
use machine_deck.Deployment.{
  set_release, DeployStep, make_release, write_marker, copy_source, create_venv, install_backend,
  write_version, write_verification_unit, verify_unit, write_config, stop_service, backup_database,
  migrate_database, chmod_database, unlink_marker, switch_current, Site, Deployment, Deploying,
  Deploy, attempt, on_site, without, build_release, provide_if_missing, provide_config, stop_if,
  stop_old, back_up_content, back_up, migrate, switch,
}
use machine_deck.Deployment.Undoing.{
  without-set, Undoable, Untouched, Configured, Saved, Switched, Untouched-Undoable,
  Configured-Undoable, Saved-Undoable, attempt-Ends, last-Ends,
}

module _ (d : Deployment) (old : Option String) (before : Site) where
  Untouched-then :
      (Q : Unit {0} → Deploying → Type 0) (step : DeployStep) (rest : Deploy (Unit {0}))
      → ((s : Deploying) → Untouched d old before s → Ends (Undoable d old before) Q (rest s))
      → (s : Deploying) → Untouched d old before s
      → Ends (Undoable d old before) Q ((attempt d step >> rest) s)
  Untouched-then Q step rest k s h =
      attempt-Ends d old before (Untouched d old before) Q step rest s h
        (Untouched-Undoable d old before s h) k

  marked-Untouched :
      (marker : Bool) (s : Deploying)
      → Untouched d old before s
      → Untouched d old before (on_site (set_release d.release marker) s)
  marked-Untouched marker s ((r, w, b, c, db, bs), g) =
      ((without-set d.release marker s.site.releases ∙ r, w, b, c, db, bs), g)

  pub build_release-Untouched :
      (s : Deploying)
      → Untouched d old before s
      → Ends (Undoable d old before) (λ _. Untouched d old before) (build_release d s)
  unfolding build_release
  build_release-Untouched = Untouched-then _ make_release _ (λ s h.
      Untouched-then _ write_marker _
        (λ s h.
          Untouched-then _ copy_source _
            (Untouched-then _ create_venv _ (
              Untouched-then _ install_backend _ (
                Untouched-then _ write_version _ (
                  Untouched-then _ write_verification_unit _ (λ s h.
                    last-Ends d old before (Untouched d old before) verify_unit s h
                      (Untouched-Undoable d old before s h))))))
            (on_site (set_release d.release true) s) (marked-Untouched true s h))
        (on_site (set_release d.release false) s) (marked-Untouched false s h))

  pub provide_if_missing-Configured :
      (config : Option String) (s : Deploying)
      → s.site.config ≡ config
      → Untouched d old before s
      → Ends (Undoable d old before) (λ _. Configured d old before) (provide_if_missing d config s)
  unfolding provide_if_missing
  provide_if_missing-Configured (some config) s e (b, g) = (b, ground (arith, e, g))
  provide_if_missing-Configured none s e (b, g) =
      attempt-Ends d old before (λ s. Untouched d old before s × (before.config ≡ none))
        (λ _. Configured d old before) write_config
        (modify (on_site (λ site. record site { config = some d.rendered_config }))) s
        ((b, g), sym g ∙ e) (Untouched-Undoable d old before s (b, g))
        (λ s ((b, g), n). (b, rw n refl))

  pub stop_if-Configured :
      (active : Bool) (s : Deploying)
      → Configured d old before s
      → Ends (Undoable d old before) (λ _. Configured d old before) (stop_if d active s)
  unfolding stop_if
  stop_if-Configured false s h = h
  stop_if-Configured true s h =
      attempt-Ends d old before (Configured d old before) (λ _. Configured d old before)
        stop_service _ s h (Configured-Undoable d old before s h) (λ s h. h)

  pub back_up_content-Saved :
      (content : Option String) (s : Deploying)
      → before.database ≡ content
      → Configured d old before s
      → Ends
          (Undoable d old before)
          (λ _. Saved d old before before.database)
          (back_up_content d content s)
  unfolding back_up_content
  back_up_content-Saved none s e ((r, w, b, c, db, bs), g) = (r, w, b ∙ sym e, c, db, rw e bs, g)
  back_up_content-Saved (some content) s e h =
      attempt-Ends d old before (Configured d old before) (λ _. Saved d old before before.database)
        backup_database _ s h (Configured-Undoable d old before s h)
        (λ s ((r, w, b, c, db, bs), g). (r, w, sym e, c, db, rw (e, bs) refl, g))

  pub migrate-Saved :
      (s : Deploying)
      → Saved d old before before.database s
      → Ends
          (Undoable d old before)
          (λ _. Saved d old before (d.migrated before.database))
          (migrate d s)
  unfolding migrate
  migrate-Saved s (r, w, b, c, db, bs, g) =
      let changed : Deploying =
        on_site (λ site. record site { database = d.migrated site.database }) s in
      let saved : Saved d old before (d.migrated before.database) changed =
        (r, w, b, c, ap d.migrated db, bs, g) in
      attempt-Ends d old before (Saved d old before (d.migrated before.database))
        (λ _. Saved d old before (d.migrated before.database)) migrate_database
        (attempt d chmod_database) changed saved
        (Saved-Undoable d old before (d.migrated before.database) changed saved)
        (λ s h.
          last-Ends d old before (Saved d old before (d.migrated before.database)) chmod_database s
            h (Saved-Undoable d old before (d.migrated before.database) s h))

  -- saved, and with the finished release among the others
  abbrev Unmarked : Deploying → Type 0
  Unmarked s =
      Saved d old before (d.migrated before.database) s
      × (s.site.releases ≡ (d.release, false) ∷ without d.release before.releases)

  pub switch-Switched :
      (s : Deploying)
      → Saved d old before (d.migrated before.database) s
      → Ends (Undoable d old before) (λ _. Switched d old before) (switch d s)
  unfolding switch
  switch-Switched s h =
      attempt-Ends d old before (Saved d old before (d.migrated before.database))
        (λ _. Switched d old before) unlink_marker _ s h
        (Saved-Undoable d old before (d.migrated before.database) s h)
        (λ s (r, w, b, c, db, bs, g).
          let unmarked : Deploying = on_site (set_release d.release false) s in
          let saved : Saved d old before (d.migrated before.database) unmarked =
            (without-set d.release false s.site.releases ∙ r, w, b, c, db, bs, g) in
          attempt-Ends d old before Unmarked (λ _. Switched d old before) switch_current _ unmarked
            (saved, ap (λ xs. (d.release, false) ∷ xs) r)
            (Saved-Undoable d old before (d.migrated before.database) unmarked saved)
            (λ s ((r, w, b, c, db, bs, g), x). (x, refl, b, refl, db, bs, g)))

  pub provide_config-Configured :
      (s : Deploying)
      → Untouched d old before s
      → Ends (Undoable d old before) (λ _. Configured d old before) (provide_config d s)
  unfolding provide_config
  provide_config-Configured s h = provide_if_missing-Configured s.site.config s refl h

  pub stop_old-Configured :
      (s : Deploying)
      → Configured d old before s
      → Ends (Undoable d old before) (λ _. Configured d old before) (stop_old d old s)
  unfolding stop_old
  stop_old-Configured s h = stop_if-Configured (is_some old && s.site.service.running) s h

  pub back_up-Saved :
      (s : Deploying)
      → Configured d old before s
      → Ends (Undoable d old before) (λ _. Saved d old before before.database) (back_up d s)
  unfolding back_up
  back_up-Saved s ((r, w, b, c, db, bs), g) =
      back_up_content-Saved s.site.database s (sym db) ((r, w, b, c, db, bs), g)
