-- ===== src/Lifecycle/Perform/Ledger.antt =====
-- The executions and the audit log under an action: `_new_execution` and `_finish_execution` of
-- backend/app/orchestration/lifecycle_service.py.

use machine_deck.Lifecycle.Perform.{
  ActionResponse, action_of, action_name, execute, perform, run_parsed, run_action,
}
use machine_deck.Base.{
  length, length-append, Outcome, ok, raised, continue, ◌>>=◌, String, ◌≡◌, refl, ap, ◌⊎◌, inl, inr,
  Option, none, some, arith,
}
use machine_deck.Database.{ApplicationInstanceRecord, ExecutionRecord}
use machine_deck.World.{World}
use machine_deck.Lifecycle.{
  ApplicationManifest, Action, Failure, lifecycle_error, validation_error, discovery_failed,
  adapter_raised, LifecycleService, new_execution,
}
use machine_deck.Lifecycle.Perform.Closed.{
  IsOpen, IsClosed, AllSettled, pending-append, EndsClosed, execute-EndsClosed,
}
use machine_deck.Lifecycle.Perform.Untouched.{IsUntouched, admit-IsUntouched}

abbrev pub Accounted : {A : Type 0} → World → Outcome Failure A × World → Type 0
Accounted w (ok _, w') = IsClosed w.db w'
Accounted w (raised (lifecycle_error _), w') = IsUntouched w w' ⊎ IsClosed w.db w'
Accounted w (raised _, w') = Unit {0}

module _ (service : LifecycleService) where
  new_execution-IsOpen :
      (id name : String) (w w' : World)
      → AllSettled w.db.executions
      → IsUntouched w w'
      → let (r, u) = new_execution service id name w' in
        (e : ExecutionRecord) × (r ≡ ok e) × IsOpen e.id w.db u
  unfolding new_execution
  new_execution-IsOpen id name w w' h q = (
    _,
    refl,
    record {
      pending = pending-append _ w'.db.executions (rw q.executions h);
      one_more = omega (arith, length-append {0} w'.db.executions, ap length q.executions);
      no_event = ap length q.events;
    },
  )

  execute-Accounted :
      (id : String) (action : Action) (manifest : ApplicationManifest)
      (state : ApplicationInstanceRecord) (w u : World) (r : Outcome Failure ExecutionRecord)
      → (e : ExecutionRecord) × (r ≡ ok e) × IsOpen e.id w.db u
      → Accounted w (continue r (execute service id action manifest state) u)
  execute-Accounted id action manifest state w u r (e, returned, is_open) =
      rw returned
        (accounted _ (execute-EndsClosed service w.db id action manifest state e u is_open))
    where
      accounted :
          (m : Outcome Failure ActionResponse × World) → EndsClosed service w.db m → Accounted w m
      accounted (ok _, v) h = h
      accounted (raised (lifecycle_error _), v) h = inr h
      accounted (raised validation_error, v) h = tt
      accounted (raised (discovery_failed _), v) h = tt
      accounted (raised (adapter_raised _), v) h = tt

  admitted-Accounted :
      (id : String) (action : Action) (w w' : World)
      (r : Outcome Failure (ApplicationManifest × ApplicationInstanceRecord))
      → AllSettled w.db.executions
      → IsUntouched w w'
      → Accounted w (
          continue r
            (λ a.
              new_execution service id (action_name action) >>= execute service id action a.0 a.1)
            w')
  admitted-Accounted id action w w' (ok (manifest, state)) h q =
      execute-Accounted id action manifest state w _ _
        (new_execution-IsOpen id (action_name action) w w' h q)
  admitted-Accounted id action w w' (raised (lifecycle_error _)) h q = inl q
  admitted-Accounted id action w w' (raised validation_error) h q = tt
  admitted-Accounted id action w w' (raised (discovery_failed _)) h q = tt
  admitted-Accounted id action w w' (raised (adapter_raised _)) h q = tt

  run_parsed-Accounted :
      (id : String) (action : Option Action) (w : World)
      → AllSettled w.db.executions
      → Accounted w (run_parsed service id action w)
  unfolding run_parsed perform
  run_parsed-Accounted id none w h = inl (record {
    executions = refl;
    events = refl;
    applications = refl;
    instances = inl refl;
    saved = refl;
  })
  run_parsed-Accounted id (some action) w h =
      admitted-Accounted id action w _ _ h (admit-IsUntouched service id action w)

  -- From a ledger with no execution running: where the service returns a response, the ledger has
  -- one execution more and the audit log one event more, no execution is running, and what the
  -- session holds is what the last commit made durable. Where the service refuses the action with a
  -- `LifecycleError`, either that is so too, or no execution and no audit event was created, no
  -- application was changed, the session has at most one instance more, and nothing was committed.
  pub run_action-Accounted :
      (id name : String) (w : World)
      → AllSettled w.db.executions
      → Accounted w (run_action service id name w)
  unfolding run_action
  run_action-Accounted id name w h = run_parsed-Accounted id (action_of name) w h
