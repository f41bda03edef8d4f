-- ===== src/Lifecycle/Perform/Refusals.antt =====
-- The calls of the runtime adapter in an action that is refused: `action` of
-- backend/app/orchestration/lifecycle_service.py.
use machine_deck.Base.{
  Outcome, raised, continue, continue-keeps, continue-raised, String, ◌≡◌, refl, ◌∙◌, ◌≢◌, Bool,
  true, Option, none, some, List, arith,
}
use machine_deck.Status.{ApplicationStatus, checking, starting, stopping}
use machine_deck.Manifest.{ApplicationManifest}
use machine_deck.Database.{ApplicationInstanceRecord, ExecutionRecord}
use machine_deck.World.{World}
use machine_deck.Ports.{DiscoveryError, PortConflict}
use machine_deck.Lifecycle.{
  Action, start, stop, restart, LifecycleCode, lifecycle_error, LifecycleService, Ending,
  application, state_record, transition, apply_runtime_state, new_execution, finish_execution,
  call_adapter,
}
use machine_deck.Lifecycle.Perform.{
  action_of, settle_conflicts, port_gate, prepare, prepare_or_fail, report_failure, confirm, drive,
  execute, admit, perform, run_parsed, run_action,
}

module _ (service : LifecycleService) where
  calls-application : (id : String) (w : World) → (application service id w).1 ≡ w
  unfolding application
  calls-application id w = ground arith

  calls-state_record : (id : String) (w : World) → (state_record id w).1.calls ≡ w.calls
  unfolding state_record
  calls-state_record id w = ground arith

  calls-admit :
      (id : String) (action : Action) (w : World) → (admit service id action w).1.calls ≡ w.calls
  unfolding admit
  calls-admit id action w = ground (arith, calls-application id w, calls-state_record id w)

  calls-finish_execution :
      (execution : ExecutionRecord) (ending : Ending) (w : World)
      → (finish_execution service execution ending w).1.calls ≡ w.calls
  unfolding finish_execution
  calls-finish_execution execution ending w = refl

  calls-settle_conflicts :
      (execution : ExecutionRecord) (found : Outcome DiscoveryError (List PortConflict)) (w : World)
      → (settle_conflicts service execution found w).1.calls ≡ w.calls
  unfolding settle_conflicts finish_execution
  calls-settle_conflicts execution found w = ground arith

  calls-port_gate :
      (action : Action) (manifest : ApplicationManifest) (execution : ExecutionRecord) (w : World)
      → (port_gate service action manifest execution w).1.calls ≡ w.calls
  unfolding port_gate
  calls-port_gate stop manifest execution w = refl
  calls-port_gate start manifest execution w = calls-settle_conflicts execution _ w
  calls-port_gate restart manifest execution w = calls-settle_conflicts execution _ w

calls-transition :
    (state : ApplicationInstanceRecord) (target : ApplicationStatus) (message : Option String)
    (enforce : Bool) (w : World)
    → (transition state target message enforce w).1.calls ≡ w.calls
unfolding transition
calls-transition state target message enforce w = ground arith

calls-prepare :
    (action : Action) (state : ApplicationInstanceRecord) (w : World)
    → (prepare action state w).1.calls ≡ w.calls
unfolding prepare
calls-prepare start state w =
    let (r, w') = transition state checking none true w in
    let before : w'.calls ≡ w.calls = calls-transition state checking none true w in
    continue-keeps (λ u. u.calls ≡ w.calls) r (λ state'. transition state' starting none true) w'
      before (λ state' _. calls-transition state' starting none true w' ∙ before)
calls-prepare stop state w = calls-transition state stopping none true w
calls-prepare restart state w = calls-transition state starting none true w

module _ (service : LifecycleService) where
  calls-prepare_or_fail :
      (action : Action) (state : ApplicationInstanceRecord) (execution : ExecutionRecord)
      (w : World)
      → (prepare_or_fail service action state execution w).1.calls ≡ w.calls
  unfolding prepare_or_fail finish_execution
  calls-prepare_or_fail action state execution w = ground (arith, calls-prepare action state w)

  -- Once the adapter was called, no `LifecycleError` is raised.
  drive-not_refused :
      (id : String) (action : Action) (manifest : ApplicationManifest)
      (state : ApplicationInstanceRecord) (execution : ExecutionRecord) (code : LifecycleCode)
      (w : World)
      → (drive service id action manifest state execution w).0 ≢ raised (lifecycle_error code)
  unfolding drive confirm report_failure call_adapter finish_execution apply_runtime_state
      transition
  drive-not_refused id action manifest state execution code w h = ground arith

  calls-execute :
      (id : String) (action : Action) (manifest : ApplicationManifest)
      (state : ApplicationInstanceRecord) (execution : ExecutionRecord) {code : LifecycleCode}
      (w : World)
      → (execute service id action manifest state execution w).0 ≡ raised (lifecycle_error code)
      → (execute service id action manifest state execution w).1.calls ≡ w.calls
  unfolding execute
  calls-execute id action manifest state execution {code} w =
      let (r, u) = port_gate service action manifest execution w in
      let gate : u.calls ≡ w.calls = calls-port_gate service action manifest execution w in
      let (q, v) = prepare_or_fail service action state execution u in
      let prepared : v.calls ≡ w.calls = calls-prepare_or_fail action state execution u ∙ gate in
      continue-raised (λ s. s.calls ≡ w.calls) r
        (λ _ s.
          continue (prepare_or_fail service action state execution s).0
            (λ state'. drive service id action manifest state' execution)
            (prepare_or_fail service action state execution s).1)
        u gate
        (λ _ _.
          continue-raised (λ s. s.calls ≡ w.calls) q
            (λ state'. drive service id action manifest state' execution) v prepared
            (λ state' _ h. absurd (drive-not_refused id action manifest state' execution code v h)))

  perform-refused_no_calls :
      (id : String) (action : Action) (code : LifecycleCode) (w : World)
      → (perform service id action w).0 ≡ raised (lifecycle_error code)
      → (perform service id action w).1.calls ≡ w.calls
  unfolding perform new_execution
  perform-refused_no_calls id action code w =
      let (r, u) = admit service id action w in
      let admitted : u.calls ≡ w.calls = calls-admit service id action w in
      continue-raised (λ s. s.calls ≡ w.calls) r _ u admitted
        (λ a _ h. calls-execute id action a.0 a.1 _ _ h ∙ admitted)

  calls-run_parsed :
      (id : String) (action : Option Action) (code : LifecycleCode) (w : World)
      → (run_parsed service id action w).0 ≡ raised (lifecycle_error code)
      → (run_parsed service id action w).1.calls ≡ w.calls
  unfolding run_parsed
  calls-run_parsed id none code w h = refl
  calls-run_parsed id (some action) code w h = perform-refused_no_calls id action code w h

  -- An action that is refused with a `LifecycleError`, whatever the reason (an unknown action or
  -- application, a present state that forbids it, a port that is taken), has made no call of the
  -- runtime adapter.
  pub run_action-refused_no_calls :
      (id name : String) (code : LifecycleCode) (w : World)
      → (run_action service id name w).0 ≡ raised (lifecycle_error code)
      → (run_action service id name w).1.calls ≡ w.calls
  unfolding run_action
  run_action-refused_no_calls id name code w h = calls-run_parsed id (action_of name) code w h
