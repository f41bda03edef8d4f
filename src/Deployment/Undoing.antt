-- ===== src/Deployment/Undoing.antt =====
-- What the handler of a deployment can put back, at each point of the block that it guards.
use machine_deck.Base.{
  is_some, or_else, raise_if, ◌>>◌, Ends, continue-Ends, String, ◌≡◌, refl, Bool, true, false,
  Option, none, some, List, [], ◌∷◌, arith, eq_refl,
}
use machine_deck.Deployment.{
  pointer_to, DeployStep, DeployError, step_failed, release_link, Site, Deployment, Deploying,
  Deploy, attempt, without, restored_current, restored_database, restored_config,
}

pub without-without :
    (name : String) (releases : List (String × Bool))
    → without name (without name releases) ≡ without name releases
without-without name [] = refl
without-without name ((n, marker) ∷ releases) = ground (arith, without-without name releases)

pub without-set :
    (name : String) (marker : Bool) (releases : List (String × Bool))
    → without name ((name, marker) ∷ without name releases) ≡ without name releases
without-set name marker releases = ground (arith, without-without name releases, eq_refl name)

module _ (d : Deployment) (old : Option String) (before : Site) where
  -- the files that are the same whatever the handler does
  abbrev pub SameReleases : Deploying → Type 0
  SameReleases s = without d.release s.site.releases ≡ without d.release before.releases

  -- The handler gives the pointer, the database and the configuration that were there before.
  abbrev pub Undoable : Deploying → Type 0
  Undoable s =
      SameReleases s
      × (restored_current old s ≡ before.current)
      × (restored_database (is_some before.database) s ≡ before.database)
      × (restored_config (is_some before.config) s ≡ before.config)

  -- before the backup, and the configuration that is there from then on
  abbrev pub Building : Deploying → Type 0
  Building s =
      SameReleases s
      × (s.switched ≡ false)
      × (s.backup ≡ none)
      × (s.site.current ≡ before.current)
      × (s.site.database ≡ before.database)
      × (s.site.backups ≡ before.backups)

  abbrev pub HasConfig : Deploying → Type 0
  HasConfig s = s.site.config ≡ some (or_else before.config d.rendered_config)

  abbrev pub Untouched : Deploying → Type 0
  Untouched s = Building s × (s.site.config ≡ before.config)

  abbrev pub Configured : Deploying → Type 0
  Configured s = Building s × HasConfig s

  -- after it
  abbrev pub kept_backups : List String
  kept_backups = elim before.database [ none ↦ before.backups | some c ↦ c ∷ before.backups ]

  abbrev pub Saved : Option String → Deploying → Type 0
  Saved database s =
      SameReleases s
      × (s.switched ≡ false)
      × (s.backup ≡ before.database)
      × (s.site.current ≡ before.current)
      × (s.site.database ≡ database)
      × (s.site.backups ≡ kept_backups)
      × HasConfig s

  -- and after the switch
  abbrev pub Switched : Deploying → Type 0
  Switched s =
      (s.site.releases ≡ (d.release, false) ∷ without d.release before.releases)
      × (s.switched ≡ true)
      × (s.backup ≡ before.database)
      × (s.site.current ≡ release_link d.release)
      × (s.site.database ≡ d.migrated before.database)
      × (s.site.backups ≡ kept_backups)
      × HasConfig s

  restored_config-before :
      (s : Deploying) → HasConfig s → restored_config (is_some before.config) s ≡ before.config
  unfolding restored_config
  restored_config-before s h = ground (arith, h)

  pub Untouched-Undoable : (s : Deploying) → Untouched s → Undoable s
  unfolding restored_current restored_database restored_config
  Untouched-Undoable s ((r, w, b, c, db, bs), g) =
      (r, ground (arith, w, c), ground (arith, b, db), ground (arith, g))

  pub Configured-Undoable : (s : Deploying) → Configured s → Undoable s
  unfolding restored_current restored_database
  Configured-Undoable s ((r, w, b, c, db, bs), g) =
      (r, ground (arith, w, c), ground (arith, b, db), restored_config-before s g)

  pub Saved-Undoable : (database : Option String) (s : Deploying) → Saved database s → Undoable s
  unfolding restored_current restored_database
  Saved-Undoable database s (r, w, b, c, _, _, g) =
      (r, ground (arith, w, c), ground (arith, b), restored_config-before s g)

  pub Switched-Undoable :
      pointer_to old ≡ before.current → (s : Deploying) → Switched s → Undoable s
  unfolding restored_current restored_database
  Switched-Undoable p s (r, w, b, c, _, _, g) = (
    rw r (without-set d.release false before.releases),
    ground (arith, w, p),
    ground (arith, b),
    restored_config-before s g,
  )

  raise_if-Ends :
      (P : Deploying → Type 0) (b : Bool) (e : DeployError) (s : Deploying)
      → P s
      → Undoable s
      → Ends Undoable (λ _. P) (raise_if {S = Deploying} b e s)
  raise_if-Ends P true e s h u = u
  raise_if-Ends P false e s h u = h

  -- A step that changes nothing leaves what holds before it, for the rest of a block.
  pub attempt-Ends :
      (P : Deploying → Type 0) (Q : Unit {0} → Deploying → Type 0) (step : DeployStep)
      (rest : Deploy (Unit {0})) (s : Deploying)
      → P s
      → Undoable s
      → ((s : Deploying) → P s → Ends Undoable Q (rest s))
      → Ends Undoable Q ((attempt d step >> rest) s)
  attempt-Ends P Q step rest s h u k =
      continue-Ends Undoable (λ _. P) Q (attempt d step s) (λ _. rest)
        (raise_if-Ends P (d.fails step) (step_failed step) s h u) (λ _ s h. k s h)

  pub last-Ends :
      (P : Deploying → Type 0) (step : DeployStep) (s : Deploying)
      → P s
      → Undoable s
      → Ends Undoable (λ _. P) (attempt d step s)
  last-Ends P step s h u = raise_if-Ends P (d.fails step) (step_failed step) s h u
