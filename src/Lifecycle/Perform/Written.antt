-- ===== src/Lifecycle/Perform/Written.antt =====
-- The row of an instance after it was written: its identifier, its application and its status.

use mathlib.Core.Option
use machine_deck.Base.{
  if◌then◌else◌, nat_beq_iff, nat_eq, string_eq, is_some, Outcome, ok, raised, ◌>>=◌, Returns,
  continue-Returns, ℕ, String, ◌≡◌, refl, Bool, true, Option, some, List, arith,
}
use machine_deck.Status.{ApplicationStatus, InvalidStateTransition, status_eq, require_transition}
use machine_deck.Database.{ApplicationInstanceRecord}
use machine_deck.Database.Rows.{get_row, get_row-update_row}
use machine_deck.World.{World}
use machine_deck.Lifecycle.{
  RuntimeState, stamp, write_instance, transition, apply_runtime_state, instance_key,
}

-- the application and the status in the row of an instance
abbrev pub entry_of : ℕ → List ApplicationInstanceRecord → Option (String × ApplicationStatus)
entry_of id rows =
    Option.map (λ row. (row.application_id, row.status)) (get_row instance_key id rows)

abbrev pub IsKnown : ℕ → World → Type 0
IsKnown id w = is_some (get_row instance_key id w.db.instances) ≡ true

write_instance-status :
    (E : Type 0) (state : ApplicationInstanceRecord) (w : World)
    → IsKnown state.id w
    → let (r, u) = write_instance {E = E} state w in
      entry_of state.id u.db.instances ≡ some (state.application_id, state.status)
unfolding write_instance
write_instance-status E state w known = ground (
  arith,
  get_row-update_row instance_key state.id state.id
      (λ _. record state { updated_at = w.clock w.readings }) w.db.instances (λ _ _. refl),
  nat_beq_iff state.id state.id,
)

pub write_instance-IsKnown :
    (E : Type 0) (state : ApplicationInstanceRecord) (id : ℕ) (w : World)
    → IsKnown id w
    → IsKnown id (write_instance {E = E} state w).1
unfolding write_instance
write_instance-IsKnown E state id w known = ground (
  arith,
  get_row-update_row instance_key id state.id
      (λ _. record state { updated_at = w.clock w.readings }) w.db.instances (λ _ _. refl),
  nat_beq_iff state.id id,
)

-- A row that is written keeps its identifier and its application, and has the status that was set.
abbrev pub Written :
    ApplicationInstanceRecord → ApplicationStatus → ApplicationInstanceRecord → World → Type 0
Written old target state w =
    (state.id ≡ old.id)
    × (state.application_id ≡ old.application_id)
    × (state.status ≡ target)
    × IsKnown old.id w
    × (entry_of old.id w.db.instances ≡ some (old.application_id, target))

write_instance-Written :
    (E : Type 0) (state : ApplicationInstanceRecord) (w : World)
    → IsKnown state.id w
    → Returns (Written state state.status) (write_instance {E = E} state w)
unfolding write_instance
write_instance-Written E state w known = (
  refl,
  refl,
  refl,
  write_instance-IsKnown E state state.id w known,
  write_instance-status E state w known,
)

-- `state` has been changed from `old` before it is stamped and written.
stamped-Written :
    (E : Type 0) (target : ApplicationStatus) (state old : ApplicationInstanceRecord) (w : World)
    → state.id ≡ old.id
    → state.application_id ≡ old.application_id
    → state.status ≡ target
    → IsKnown old.id w
    → Returns (Written old target) ((stamp {E = E} target state >>= write_instance) w)
unfolding stamp
stamped-Written E ApplicationStatus.running state old w i a e known =
    rw (← e, ← i, ← a) (write_instance-Written E _ _ (rw i known))
stamped-Written E _ state old w i a e known =
    rw (← e, ← i, ← a) (write_instance-Written E _ _ (rw i known))

pub apply_runtime_state-Written :
    (state : ApplicationInstanceRecord) (runtime_state : RuntimeState) (w : World)
    → IsKnown state.id w
    → Returns (Written state runtime_state.status) (apply_runtime_state state runtime_state w)
unfolding apply_runtime_state
apply_runtime_state-Written state runtime_state w known =
    stamped-Written _ runtime_state.status _ state w refl refl refl known

pub transition-Written :
    (state : ApplicationInstanceRecord) (target : ApplicationStatus) (message : Option String)
    (enforce : Bool) (w : World)
    → IsKnown state.id w
    → Returns (Written state target) (transition state target message enforce w)
unfolding transition
transition-Written state target message enforce w known =
    continue-Returns (λ _ u. IsKnown state.id u) (Written state target)
      (if enforce then require_transition state.status target else ok tt, w) _ (allowed _)
      (λ _ u k. stamped-Written _ target _ state u refl refl refl k)
  where
    allowed : (r : Outcome InvalidStateTransition Unit) → Returns (λ _ u. IsKnown state.id u) (r, w)
    allowed (ok _) = known
    allowed (raised _) = tt
