-- ===== src/Lifecycle/Perform/Confirmation.antt =====
-- The response of an action beside the row that it commits: `action` of
-- backend/app/orchestration/lifecycle_service.py.
use machine_deck.Lifecycle.Perform.{
  unenforced, ActionResponse, action_of, status_guard, settle_conflicts, port_gate, prepare,
  settle_transition, prepare_or_fail, report_failure, expected, confirm, drive, execute, admit,
  perform, run_parsed, run_action,
}
use machine_deck.Base.{
  if◌then◌else◌, Option-cases, nat_beq_iff, nat_eq, string_eq, contains, Outcome, ok, raised, Exec,
  pure, ◌>>◌, handle_errors, Returns, continue-Returns, ℕ, String, ◌≡◌, refl, ◌∙◌, inl, inr, Bool,
  true, false, not, Option, none, some, List, arith,
}
use machine_deck.Status.{
  ApplicationStatus, checking, starting, stopping, InvalidStateTransition, status_eq,
}
use machine_deck.Database.{ApplicationRecord, ApplicationInstanceRecord, ExecutionRecord}
use machine_deck.World.{Call, World}
use machine_deck.Lifecycle.{
  latest_instance-row, PortConflict, get_row-append, DiscoveryError, latest_instance,
  ApplicationManifest, Action, start, stop, restart, app_disabled, Failure, lifecycle_error,
  AdapterResult, RuntimeAdapter, LifecycleService, Ending, application, new_instance, state_record,
  transition, new_execution, finish_execution, answered, call_adapter, instance_key,
}
use machine_deck.Lifecycle.Perform.Written.{
  entry_of, IsKnown, Written, apply_runtime_state-Written, transition-Written,
}

-- What a response has to say truly.
pub record IsTruthful (response : ActionResponse) (application_id : String) (w : World)
    : Type 0 where
  pub success : response.succeeded ≡ contains (expected response.action) response.status
  pub row : (id : ℕ) × (entry_of id w.saved.instances ≡ some (application_id, response.status))

answered-IsKnown :
    (A : Type 0) (key : ℕ) (r : Outcome String A) (w : World)
    → IsKnown key w
    → Returns (λ _ u. IsKnown key u) (answered r w)
unfolding answered
answered-IsKnown A key (ok _) w known = known
answered-IsKnown A key (raised _) w known = tt

call_adapter-IsKnown :
    (A : Type 0) (key : ℕ) (call : Call) (answer : List Call → Outcome String A) (w : World)
    → IsKnown key w
    → Returns (λ _ u. IsKnown key u) (call_adapter call answer w)
unfolding call_adapter
call_adapter-IsKnown A key call answer w known = answered-IsKnown A key (answer w.calls) _ known

if-Returns :
    {A : Type 0} (Q : A → World → Type 0) (b : Bool) (m n : Exec World Failure A) (w : World)
    → Returns Q (m w)
    → Returns Q (n w)
    → Returns Q ((if b then m else n) w)
if-Returns Q true m n w hm hn = hm
if-Returns Q false m n w hm hn = hn

module _ (service : LifecycleService) (id : String) where
  abbrev Truthful : ActionResponse → World → Type 0
  Truthful response w = IsTruthful response id w

  respond-IsTruthful :
      (key : ℕ) (execution : ExecutionRecord) (ending : Ending) (response : ActionResponse)
      (w : World)
      → response.succeeded ≡ contains (expected response.action) response.status
      → entry_of key w.db.instances ≡ some (id, response.status)
      → Returns Truthful ((finish_execution service execution ending >> pure response) w)
  unfolding finish_execution
  respond-IsTruthful key execution ending response w s e = record { success = s; row = (key, e) }

  confirm-IsTruthful :
      (action : Action) (adapter : RuntimeAdapter) (state : ApplicationInstanceRecord)
      (execution : ExecutionRecord) (result : AdapterResult) (w : World)
      → state.application_id ≡ id
      → IsKnown state.id w
      → Returns Truthful (confirm service id action adapter state execution result w)
  unfolding confirm
  confirm-IsTruthful action adapter state execution result w a known =
      continue-Returns (λ _ u. IsKnown state.id u) Truthful _ _
        (call_adapter-IsKnown _ state.id _ adapter.status w known)
        (λ runtime_state u k.
          continue-Returns (Written state runtime_state.status) Truthful _ _
            (apply_runtime_state-Written state runtime_state u k)
            (λ response v (i, app, st, _, e).
              respond-IsTruthful state.id execution _ _ v refl (rw (← a, st) e)))

  report_failure-IsTruthful :
      (action : Action) (state : ApplicationInstanceRecord) (execution : ExecutionRecord)
      (result : AdapterResult) (w : World)
      → state.application_id ≡ id
      → IsKnown state.id w
      → Returns Truthful (report_failure service id action state execution result w)
  unfolding report_failure expected
  report_failure-IsTruthful action state execution result w a known =
      continue-Returns (Written state ApplicationStatus.failed) Truthful
        (handle_errors unenforced
          (transition state ApplicationStatus.failed (some result.message) false) w)
        _
        (handled (transition state ApplicationStatus.failed (some result.message) false w)
          (transition-Written state ApplicationStatus.failed (some result.message) false w known))
        (λ _ u (i, app, st, _, e).
          respond-IsTruthful state.id execution _ _ u (refused action) (rw (← a) e))
    where
      refused : (action : Action) → false ≡ contains (expected action) ApplicationStatus.failed
      refused start = refl
      refused stop = refl
      refused restart = refl

      handled :
          (m : Outcome InvalidStateTransition ApplicationInstanceRecord × World)
          → Returns (Written state ApplicationStatus.failed) m
          → Returns
              (Written state ApplicationStatus.failed)
              (elim m.0 [ ok s ↦ ok s | raised e ↦ raised (unenforced e) ], m.1)
      handled (ok s, u) h = h
      handled (raised e, u) h = tt

  drive-IsTruthful :
      (action : Action) (manifest : ApplicationManifest) (state : ApplicationInstanceRecord)
      (execution : ExecutionRecord) (w : World)
      → state.application_id ≡ id
      → IsKnown state.id w
      → Returns Truthful (drive service id action manifest state execution w)
  unfolding drive
  drive-IsTruthful action manifest state execution w a known =
      continue-Returns (λ _ u. IsKnown state.id u) Truthful _ _
        (call_adapter-IsKnown _ state.id _ _ w known)
        (λ result u k.
          if-Returns Truthful result.succeeded _ _ u
            (confirm-IsTruthful action _ state execution result u a k)
            (report_failure-IsTruthful action state execution result u a k))

  -- the state that the adapter is called with
  abbrev Prepared : ApplicationInstanceRecord → World → Type 0
  Prepared state w = (state.application_id ≡ id) × IsKnown state.id w

  Written-Prepared :
      {E : Type 0} (old : ApplicationInstanceRecord) (target : ApplicationStatus)
      (m : Outcome E ApplicationInstanceRecord × World)
      → old.application_id ≡ id
      → Returns (Written old target) m
      → Returns Prepared m
  Written-Prepared old target (ok state, w) a (i, app, _, k, _) = (app ∙ a, rw i k)
  Written-Prepared old target (raised e, w) a h = tt

  prepare-Prepared :
      (action : Action) (state : ApplicationInstanceRecord) (w : World)
      → state.application_id ≡ id
      → IsKnown state.id w
      → Returns Prepared (prepare action state w)
  unfolding prepare
  prepare-Prepared start state w a known =
      continue-Returns (Written state checking) Prepared _ _
        (transition-Written state checking none true w known)
        (λ state' u (i, app, _, k, _).
          Written-Prepared state' starting _ (app ∙ a)
            (transition-Written state' starting none true u (rw i k)))
  prepare-Prepared stop state w a known =
      Written-Prepared state stopping _ a (transition-Written state stopping none true w known)
  prepare-Prepared restart state w a known =
      Written-Prepared state starting _ a (transition-Written state starting none true w known)

  settle_transition-Prepared :
      (execution : ExecutionRecord)
      (m : Outcome InvalidStateTransition ApplicationInstanceRecord × World)
      → Returns Prepared m
      → Returns Prepared (settle_transition service execution m.0 m.1)
  unfolding settle_transition finish_execution
  settle_transition-Prepared execution (ok state, w) h = h
  settle_transition-Prepared execution (raised e, w) h = tt

  settle_conflicts-IsKnown :
      (key : ℕ) (execution : ExecutionRecord) (found : Outcome DiscoveryError (List PortConflict))
      (w : World)
      → IsKnown key w
      → Returns (λ _ u. IsKnown key u) (settle_conflicts service execution found w)
  unfolding settle_conflicts finish_execution
  settle_conflicts-IsKnown key execution found w known = ground arith

  port_gate-IsKnown :
      (key : ℕ) (action : Action) (manifest : ApplicationManifest) (execution : ExecutionRecord)
      (w : World)
      → IsKnown key w
      → Returns (λ _ u. IsKnown key u) (port_gate service action manifest execution w)
  unfolding port_gate
  port_gate-IsKnown key stop manifest execution w known = known
  port_gate-IsKnown key start manifest execution w known =
      settle_conflicts-IsKnown key execution _ w known
  port_gate-IsKnown key restart manifest execution w known =
      settle_conflicts-IsKnown key execution _ w known

  execute-IsTruthful :
      (action : Action) (manifest : ApplicationManifest) (state : ApplicationInstanceRecord)
      (execution : ExecutionRecord) (w : World)
      → state.application_id ≡ id
      → IsKnown state.id w
      → Returns Truthful (execute service id action manifest state execution w)
  unfolding execute prepare_or_fail
  execute-IsTruthful action manifest state execution w a known =
      continue-Returns (λ _ u. IsKnown state.id u) Truthful _ _
        (port_gate-IsKnown state.id action manifest execution w known)
        (λ _ u k.
          continue-Returns Prepared Truthful _ _
            (settle_transition-Prepared execution _ (prepare-Prepared action state u a k))
            (λ state' v (app, k'). drive-IsTruthful action manifest state' execution v app k'))

  state_record-Prepared : (w : World) → Returns Prepared (state_record id w)
  unfolding state_record new_instance
  state_record-Prepared w = elim (Option-cases (latest_instance id w.db.instances)) [
    | inl absent ↦ ground (
      arith,
      get_row-append instance_key w.issued w.db.instances
          (new_instance id w.issued (w.clock w.readings)),
      nat_beq_iff w.issued w.issued,
    )
    | inr (state, found) ↦ ground (arith, latest_instance-row id w.db.instances found)
  ]

  admit-Prepared :
      (action : Action) (w : World) → Returns (λ a u. Prepared a.1 u) (admit service id action w)
  unfolding admit
  admit-Prepared action w =
      continue-Returns (λ _ _. Unit {0}) Admitted (application service id w) _ (anything _)
        (λ (row, manifest) u _.
          continue-Returns (λ _ _. Unit {0}) Admitted (enabled row, u) _ (anything _)
            (λ _ v _.
              continue-Returns Prepared Admitted _ _ (state_record-Prepared v) (λ state x prepared.
                continue-Returns (λ _ y. Prepared state y) Admitted
                  (status_guard action state.status, x) _
                  (guarded state (status_guard action state.status) x prepared) (λ _ y p. p))))
    where
      Admitted : ApplicationManifest × ApplicationInstanceRecord → World → Type 0
      Admitted a u = Prepared a.1 u

      enabled : ApplicationRecord → Outcome Failure Unit
      enabled row = if not row.enabled then raised (lifecycle_error app_disabled) else ok tt

      anything : {A : Type 0} (m : Outcome Failure A × World) → Returns (λ _ _. Unit {0}) m
      anything (ok _, _) = tt
      anything (raised _, _) = tt

      guarded :
          (state : ApplicationInstanceRecord) (r : Outcome Failure Unit) (x : World)
          → Prepared state x
          → Returns (λ _ y. Prepared state y) (r, x)
      guarded state (ok _) x p = p
      guarded state (raised _) x p = tt

  run_parsed-IsTruthful :
      (action : Option Action) (w : World) → Returns Truthful (run_parsed service id action w)
  unfolding run_parsed perform new_execution
  run_parsed-IsTruthful none w = tt
  run_parsed-IsTruthful (some action) w =
      continue-Returns (λ a u. Prepared a.1 u) Truthful _ _ (admit-Prepared action w)
        (λ (manifest, state) u (app, known). execute-IsTruthful action manifest state _ _ app known)

  -- A response claims success exactly where its status is one that confirms its action, and its
  -- status is the one that is committed for an instance of the application.
  pub run_action-IsTruthful :
      (name : String) (w : World)
      → Returns (λ response u. IsTruthful response id u) (run_action service id name w)
  unfolding run_action
  run_action-IsTruthful name w = run_parsed-IsTruthful (action_of name) w
