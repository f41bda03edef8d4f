-- ===== src/Lifecycle/Perform/Closed.antt =====
-- The execution of an action from its creation to its end: `_finish_execution` under the steps of
-- `action` of backend/app/orchestration/lifecycle_service.py.

use machine_deck.Lifecycle.Perform.{
  unenforced, settle_conflicts, port_gate, prepare, settle_transition, prepare_or_fail,
  report_failure, confirm, drive, execute,
}
use machine_deck.Base.{
  if◌then◌else◌, nat_eq, string_eq, length, All, length-append, Outcome, ok, raised, Exec, pure,
  raise, continue, ◌>>◌, handle_errors, continue-keeps, ℕ, suc, ◌+◌, String, ◌≡◌, refl, ap, ◌∙◌,
  ◌⊎◌, inl, inr, Bool, true, false, Option, none, some, List, [], ◌∷◌, ◌++◌, arith,
}
use machine_deck.Status.{
  ApplicationStatus, checking, starting, stopping, ExecutionStatus, InvalidStateTransition,
  status_eq,
}
use machine_deck.Database.{ApplicationInstanceRecord, ExecutionRecord, Database}
use machine_deck.Database.Rows.{update_row}
use machine_deck.World.{Call, World}
use machine_deck.Lifecycle.{
  PortConflict, ApplicationManifest, DiscoveryError, Action, start, stop, restart, LifecycleCode,
  Failure, lifecycle_error, validation_error, discovery_failed, adapter_raised, AdapterResult,
  RuntimeState, RuntimeAdapter, LifecycleService, Ending, execution_key, transition,
  apply_runtime_state, finished, finish_execution, answered, call_adapter,
}

abbrev pub is_settled : ExecutionStatus → Bool
is_settled ExecutionStatus.running = false
is_settled _ = true

-- The service answered, or refused with a `LifecycleError`.
abbrev pub is_handled : {A : Type 0} → Outcome Failure A → Bool
is_handled (ok _) = true
is_handled (raised (lifecycle_error _)) = true
is_handled (raised _) = false

abbrev pub AllSettled : List ExecutionRecord → Type 0
AllSettled = All (λ row. is_settled row.status ≡ true)

abbrev pub PendingOnly : ℕ → List ExecutionRecord → Type 0
PendingOnly id = All (λ row. (row.id ≡ id) ⊎ (is_settled row.status ≡ true))

-- Between the creation of the execution `id` and its end: `before` is the database before.
pub record IsOpen (id : ℕ) (before : Database) (w : World) : Type 0 where
  pub pending : PendingOnly id w.db.executions
  pub one_more : length w.db.executions ≡ length before.executions + 1
  pub no_event : length w.db.audit_events ≡ length before.audit_events

-- After its end.
pub record IsClosed (before : Database) (w : World) : Type 0 where
  pub settled : AllSettled w.db.executions
  pub one_more : length w.db.executions ≡ length before.executions + 1
  pub one_event : length w.db.audit_events ≡ length before.audit_events + 1
  pub durable : w.saved ≡ w.db

length-update_row :
    (id : ℕ) (f : ExecutionRecord → ExecutionRecord) (rows : List ExecutionRecord)
    → length (update_row execution_key id f rows) ≡ length rows
length-update_row id f [] = refl
length-update_row id f (row ∷ rows) = ap suc (length-update_row id f rows)

settle-update_row :
    (execution : ExecutionRecord) (ending : Ending) (now id : ℕ) (rows : List ExecutionRecord)
    → PendingOnly id rows
    → AllSettled (update_row execution_key id (λ _. finished execution ending now) rows)
unfolding finished
settle-update_row execution ending now id [] h = tt
settle-update_row execution ending now id (row ∷ rows) h =
    (ground arith, settle-update_row execution ending now id rows h.1)

pub pending-append :
    (new : ExecutionRecord) (rows : List ExecutionRecord)
    → AllSettled rows
    → PendingOnly new.id (rows ++ new ∷ [])
pending-append new [] h = (inl refl, tt)
pending-append new (row ∷ rows) h = (inr h.0, pending-append new rows h.1)

module _ (service : LifecycleService) (before : Database) where
  finish_execution-IsClosed :
      (execution : ExecutionRecord) (ending : Ending) (w : World)
      → IsOpen execution.id before w
      → IsClosed before (finish_execution service execution ending w).1
  unfolding finish_execution
  finish_execution-IsClosed execution ending w h = record {
    settled = settle-update_row execution ending _ execution.id w.db.executions h.pending;
    one_more = length-update_row execution.id _ w.db.executions ∙ h.one_more;
    one_event = omega (arith, length-append {0} w.db.audit_events, h.no_event);
    durable = refl;
  }

  -- What a step between the two may end in: the execution is open still, or the step has refused
  -- the action and closed it.
  abbrev GoesOn : {A : Type 0} → ℕ → Outcome Failure A × World → Type 0
  GoesOn id (ok _, w) = IsOpen id before w
  GoesOn id (raised (lifecycle_error _), w) = IsClosed before w
  GoesOn id (raised _, w) = Unit {0}

  refuse-GoesOn :
      (A : Type 0) (execution : ExecutionRecord) (ending : Ending) (code : LifecycleCode)
      (w : World)
      → IsOpen execution.id before w
      → GoesOn {A = A} execution.id
          ((finish_execution service execution ending >> raise (lifecycle_error code)) w)
  unfolding finish_execution
  refuse-GoesOn A execution ending code w h = finish_execution-IsClosed execution ending w h

  settle_conflicts-GoesOn :
      (execution : ExecutionRecord) (found : Outcome DiscoveryError (List PortConflict)) (w : World)
      → IsOpen execution.id before w
      → GoesOn execution.id (settle_conflicts service execution found w)
  unfolding settle_conflicts
  settle_conflicts-GoesOn execution (ok []) w h = h
  settle_conflicts-GoesOn execution (ok (c ∷ cs)) w h = refuse-GoesOn _ execution _ _ w h
  settle_conflicts-GoesOn execution (raised (DiscoveryError.port_discovery message)) w h =
      refuse-GoesOn _ execution _ _ w h
  settle_conflicts-GoesOn execution (raised DiscoveryError.value_error) w h = tt
  settle_conflicts-GoesOn execution (raised DiscoveryError.os_error) w h = tt
  settle_conflicts-GoesOn execution (raised DiscoveryError.other_error) w h = tt

  port_gate-GoesOn :
      (action : Action) (manifest : ApplicationManifest) (execution : ExecutionRecord) (w : World)
      → IsOpen execution.id before w
      → GoesOn execution.id (port_gate service action manifest execution w)
  unfolding port_gate
  port_gate-GoesOn stop manifest execution w h = h
  port_gate-GoesOn start manifest execution w h = settle_conflicts-GoesOn execution _ w h
  port_gate-GoesOn restart manifest execution w h = settle_conflicts-GoesOn execution _ w h

  transition-IsOpen :
      (id : ℕ) (state : ApplicationInstanceRecord) (target : ApplicationStatus)
      (message : Option String) (enforce : Bool) (w : World)
      → IsOpen id before w
      → IsOpen id before (transition state target message enforce w).1
  unfolding transition
  transition-IsOpen id state target message enforce w h = ground arith

  prepare-IsOpen :
      (id : ℕ) (action : Action) (state : ApplicationInstanceRecord) (w : World)
      → IsOpen id before w
      → IsOpen id before (prepare action state w).1
  unfolding prepare
  prepare-IsOpen id start state w h =
      let (r, u) = transition state checking none true w in
      let open_then = transition-IsOpen id state checking none true w h in
      continue-keeps (IsOpen id before) r (λ state'. transition state' starting none true) u
        open_then (λ state' _. transition-IsOpen id state' starting none true u open_then)
  prepare-IsOpen id stop state w h = transition-IsOpen id state stopping none true w h
  prepare-IsOpen id restart state w h = transition-IsOpen id state starting none true w h

  prepared-GoesOn :
      (execution : ExecutionRecord) (r : Outcome InvalidStateTransition ApplicationInstanceRecord)
      (w : World)
      → IsOpen execution.id before w
      → GoesOn execution.id (settle_transition service execution r w)
  unfolding settle_transition
  prepared-GoesOn execution (ok state) w h = h
  prepared-GoesOn execution (raised e) w h = refuse-GoesOn _ execution _ _ w h

  -- How the last steps end: with the execution closed, or by an exception that is not handled.
  abbrev pub EndsClosed : {A : Type 0} → Outcome Failure A × World → Type 0
  EndsClosed (ok _, w) = IsClosed before w
  EndsClosed (raised (lifecycle_error _), w) = IsClosed before w
  EndsClosed (raised _, w) = Unit {0}

  respond-EndsClosed :
      (A : Type 0) (a : A) (execution : ExecutionRecord) (ending : Ending) (w : World)
      → IsOpen execution.id before w
      → EndsClosed {A = A} ((finish_execution service execution ending >> pure a) w)
  unfolding finish_execution
  respond-EndsClosed A a execution ending w h = finish_execution-IsClosed execution ending w h

  apply_runtime_state-GoesOn :
      (id : ℕ) (state : ApplicationInstanceRecord) (runtime_state : RuntimeState) (w : World)
      → IsOpen id before w
      → GoesOn id (apply_runtime_state state runtime_state w)
  unfolding apply_runtime_state
  apply_runtime_state-GoesOn id state runtime_state w h = ground arith

  unenforced-GoesOn :
      (id : ℕ) (state : ApplicationInstanceRecord) (message : Option String) (w : World)
      → IsOpen id before w
      → GoesOn id
          (handle_errors unenforced (transition state ApplicationStatus.failed message false) w)
  unfolding transition
  unenforced-GoesOn id state message w h = ground arith

  if-EndsClosed :
      {A : Type 0} (b : Bool) (m n : Exec World Failure A) (w : World)
      → EndsClosed (m w)
      → EndsClosed (n w)
      → EndsClosed ((if b then m else n) w)
  if-EndsClosed true m n w hm hn = hm
  if-EndsClosed false m n w hm hn = hn

  continue-EndsClosed :
      (A B : Type 0) (id : ℕ) (m : Outcome Failure A × World) (f : A → Exec World Failure B)
      → GoesOn id m
      → ((a : A) (w : World) → IsOpen id before w → EndsClosed (f a w))
      → EndsClosed (continue m.0 f m.1)
  continue-EndsClosed A B id (ok a, w) f h k = k a w h
  continue-EndsClosed A B id (raised (lifecycle_error c), w) f h k = h
  continue-EndsClosed A B id (raised validation_error, w) f h k = tt
  continue-EndsClosed A B id (raised (discovery_failed e), w) f h k = tt
  continue-EndsClosed A B id (raised (adapter_raised e), w) f h k = tt

  answered-GoesOn :
      (A : Type 0) (id : ℕ) (r : Outcome String A) (w : World)
      → IsOpen id before w
      → GoesOn id (answered r w)
  unfolding answered
  answered-GoesOn A id (ok a) w h = h
  answered-GoesOn A id (raised e) w h = tt

  call_adapter-GoesOn :
      (A : Type 0) (id : ℕ) (call : Call) (answer : List Call → Outcome String A) (w : World)
      → IsOpen id before w
      → GoesOn id (call_adapter call answer w)
  unfolding call_adapter
  call_adapter-GoesOn A id call answer w h =
      answered-GoesOn A id (answer w.calls) _
        (record { pending = h.pending; one_more = h.one_more; no_event = h.no_event })

  confirm-EndsClosed :
      (id : String) (action : Action) (adapter : RuntimeAdapter) (state : ApplicationInstanceRecord)
      (execution : ExecutionRecord) (result : AdapterResult) (w : World)
      → IsOpen execution.id before w
      → EndsClosed (confirm service id action adapter state execution result w)
  unfolding confirm
  confirm-EndsClosed id action adapter state execution result w h =
      continue-EndsClosed _ _ execution.id _ _ (call_adapter-GoesOn _ execution.id _ _ w h)
        (λ runtime_state u h'.
          continue-EndsClosed _ _ execution.id _ _
            (apply_runtime_state-GoesOn execution.id state runtime_state u h')
            (λ response v h''. respond-EndsClosed _ _ execution _ v h''))

  report_failure-EndsClosed :
      (id : String) (action : Action) (state : ApplicationInstanceRecord)
      (execution : ExecutionRecord) (result : AdapterResult) (w : World)
      → IsOpen execution.id before w
      → EndsClosed (report_failure service id action state execution result w)
  unfolding report_failure
  report_failure-EndsClosed id action state execution result w h =
      continue-EndsClosed _ _ execution.id _ _
        (unenforced-GoesOn execution.id state (some result.message) w h)
        (λ _ u h'. respond-EndsClosed _ _ execution _ u h')

  drive-EndsClosed :
      (id : String) (action : Action) (manifest : ApplicationManifest)
      (state : ApplicationInstanceRecord) (execution : ExecutionRecord) (w : World)
      → IsOpen execution.id before w
      → EndsClosed (drive service id action manifest state execution w)
  unfolding drive
  drive-EndsClosed id action manifest state execution w h =
      continue-EndsClosed _ _ execution.id _ _ (call_adapter-GoesOn _ execution.id _ _ w h)
        (λ result u h'.
          if-EndsClosed result.succeeded _ _ u
            (confirm-EndsClosed id action _ state execution result u h')
            (report_failure-EndsClosed id action state execution result u h'))

  pub execute-EndsClosed :
      (id : String) (action : Action) (manifest : ApplicationManifest)
      (state : ApplicationInstanceRecord) (execution : ExecutionRecord) (w : World)
      → IsOpen execution.id before w
      → EndsClosed (execute service id action manifest state execution w)
  unfolding execute prepare_or_fail
  execute-EndsClosed id action manifest state execution w h =
      continue-EndsClosed _ _ execution.id _ _ (port_gate-GoesOn action manifest execution w h)
        (λ _ u h'.
          continue-EndsClosed _ _ execution.id _ _
            (prepared-GoesOn execution _ _ (prepare-IsOpen execution.id action state u h'))
            (λ state' v h''. drive-EndsClosed id action manifest state' execution v h''))
