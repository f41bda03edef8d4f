-- ===== src/Lifecycle/Perform/Untouched.antt =====
-- What an action leaves that is refused before its execution is created.
use mathlib.Core.Path.{subst}
use machine_deck.Lifecycle.Perform.{status_guard, admit}
use machine_deck.Base.{
  if◌then◌else◌, Option-cases, nat_eq, string_eq, ok, raised, continue-keeps, String, ◌≡◌, refl, ap,
  ◌⊎◌, inl, inr, not, [], ◌∷◌, ◌++◌, arith,
}
use machine_deck.Status.{status_eq}
use machine_deck.Database.{ApplicationInstanceRecord}
use machine_deck.Database.Rows.{latest_instance}
use machine_deck.World.{World}
use machine_deck.Lifecycle.{
  Action, app_disabled, lifecycle_error, LifecycleService, application, state_record,
}

-- The instances are as before, or with one more.
abbrev pub Grown : World → World → Type 0
Grown w w' =
    (w'.db.instances ≡ w.db.instances)
    ⊎ ((row : ApplicationInstanceRecord) × (w'.db.instances ≡ w.db.instances ++ row ∷ []))

-- No execution and no audit event was created, no application was changed, at most one instance was
-- added in the session, and nothing was committed.
pub record IsUntouched (w w' : World) : Type 0 where
  pub executions : w'.db.executions ≡ w.db.executions
  pub events : w'.db.audit_events ≡ w.db.audit_events
  pub applications : w'.db.applications ≡ w.db.applications
  pub instances : Grown w w'
  pub saved : w'.saved ≡ w.saved

module _ (service : LifecycleService) where
  application-unchanged : (id : String) (w : World) → (application service id w).1 ≡ w
  unfolding application
  application-unchanged id w = ground arith

  admit-rows :
      (id : String) (action : Action) (w : World)
      → ((admit service id action w).1.db.executions ≡ w.db.executions)
        × ((admit service id action w).1.db.audit_events ≡ w.db.audit_events)
        × ((admit service id action w).1.db.applications ≡ w.db.applications)
        × ((admit service id action w).1.saved ≡ w.saved)
  unfolding admit application state_record
  admit-rows id action w = ground arith

  state_record-Grown : (id : String) (w : World) → Grown w (state_record id w).1
  unfolding state_record
  state_record-Grown id w = elim (Option-cases (latest_instance id w.db.instances)) [
    | inl h ↦ rw (state_record, h) (inr (_, refl))
    | inr (state, h) ↦ rw (state_record, h) (inl refl)
  ]

  admit-Grown : (id : String) (action : Action) (w : World) → Grown w (admit service id action w).1
  unfolding admit
  admit-Grown id action w =
      let s : World = (application service id w).1 in
      let same : s ≡ w = application-unchanged id w in
      let read : Grown w s = inl (ap (λ v. v.db.instances) same) in
      let grown : Grown w (state_record id s).1 =
        subst (λ v. Grown v (state_record id s).1) same (state_record-Grown id s) in
      continue-keeps (Grown w) (application service id w).0 _ s read (λ a _.
        continue-keeps (Grown w)
          (if not a.0.enabled then raised (lifecycle_error app_disabled) else ok tt) _ s read
          (λ _ _.
            continue-keeps (Grown w) (state_record id s).0 _ (state_record id s).1 grown (λ state _.
              continue-keeps (Grown w) (status_guard action state.status) _ (state_record id s).1
                grown (λ _ _. grown))))

  pub admit-IsUntouched :
      (id : String) (action : Action) (w : World) → IsUntouched w (admit service id action w).1
  admit-IsUntouched id action w =
      let (e, a, p, s) = admit-rows id action w in
      record {
        executions = e;
        events = a;
        applications = p;
        instances = admit-Grown id action w;
        saved = s;
      }
