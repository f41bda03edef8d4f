-- ===== src/World.antt =====
-- What one request of the backend works on: the session's view of the tables beside what the last
-- commit made durable (backend/app/database/session.py), the clock, the number of random values
-- that were drawn (`uuid4`, `secrets`, a salt), and the calls that the runtime adapter has
-- received.
use machine_deck.Base.{ok, Exec, ◌>>=◌, ℕ, ◌+◌, String, List, [], ◌∷◌, ◌++◌}
use machine_deck.Json.{Fields}
use machine_deck.Database.{
  ApplicationRecord, AuditEventRecord, ApplicationInstanceRecord, ExecutionRecord, Database,
}

pub data Call : Type 0 where
  start_call stop_call restart_call status_call logs_call : Call

-- `clock k` is the instant that the reading number k of the clock returns.
pub record World : Type 0 where
  pub db : Database
  pub saved : Database
  pub clock : ℕ → ℕ
  pub readings : ℕ
  pub issued : ℕ
  pub calls : List Call

module _ {E : Type 0} where
  abbrev pub utc_now : Exec World E ℕ
  utc_now w = (ok (w.clock w.readings), record w { readings = w.readings + 1 })

  abbrev pub uuid4 : Exec World E ℕ
  uuid4 w = (ok w.issued, record w { issued = w.issued + 1 })

  -- `session.commit()`
  abbrev pub commit : Exec World E Unit
  commit w = (ok tt, record w { saved = w.db })

  -- a change of the session's tables that no commit has made durable yet
  abbrev pub change : (Database → Database) → Exec World E Unit
  change f w = (ok tt, record w { db = f w.db })

  abbrev pub call_made : Call → Exec World E Unit
  call_made c w = (ok tt, record w { calls = w.calls ++ c ∷ [] })

-- `session.rollback()`, and what closing a session leaves of a change that was not committed
abbrev pub rollback : World → World
rollback w = record w { db = w.saved }

abbrev pub with_applications : List ApplicationRecord → Database → Database
with_applications rows db = record db { applications = rows }

abbrev pub with_instances : List ApplicationInstanceRecord → Database → Database
with_instances rows db = record db { instances = rows }

abbrev pub with_executions : List ExecutionRecord → Database → Database
with_executions rows db = record db { executions = rows }

abbrev pub with_audit_events : List AuditEventRecord → Database → Database
with_audit_events rows db = record db { audit_events = rows }

-- `session.add(AuditEventRecord(...))`: the identifier and the instant are drawn here.
unfoldable pub add_audit_event :
    {E : Type 0} → String → String → String → String → String → Fields → Exec World E Unit
add_audit_event actor action target_type target_id result details = do
  id ← uuid4
  now ← utc_now
  change (λ db.
      with_audit_events
        (db.audit_events
          ++ record {
            id = id;
            actor = actor;
            action = action;
            target_type = target_type;
            target_id = target_id;
            result = result;
            details_json = details;
            created_at = now;
          }
            ∷ [])
        db)
