-- ===== src/Status.antt =====
-- The states of an application: backend/app/schemas/lifecycle.py and the table of transitions of
-- backend/app/orchestration/state_machine.py.
pub mod Graph
use machine_deck.Base.{
  ℕ, Bool, true, false, List, [], ◌∷◌, ◌≡◌, ◌↔◌, refl, arith, Equality, ◌==◌, nat_eq, contains,
  if◌then◌else◌, Outcome, ok, raised,
}

pub data ApplicationStatus : Type 0 where
  stopped queued checking starting running unhealthy stopping failed unknown disabled :
      ApplicationStatus

pub data ExecutionStatus : Type 0 where
  running succeeded failed : ExecutionStatus

-- a number for each member of the enumeration
abbrev pub ordinal : ApplicationStatus → ℕ
ordinal stopped = 0
ordinal queued = 1
ordinal checking = 2
ordinal starting = 3
ordinal running = 4
ordinal unhealthy = 5
ordinal stopping = 6
ordinal failed = 7
ordinal unknown = 8
ordinal disabled = 9

of_ordinal : ℕ → ApplicationStatus
of_ordinal n =
    if n == 0
    then stopped
    else if n == 1
    then queued
    else if n == 2
    then checking
    else if n == 3
    then starting
    else if n == 4
    then running
    else if n == 5
    then unhealthy
    else if n == 6
    then stopping
    else if n == 7
    then failed
    else if n == 8
    then unknown
    else disabled

of_ordinal-ordinal : (s : ApplicationStatus) → of_ordinal (ordinal s) ≡ s
unfolding of_ordinal
of_ordinal-ordinal stopped = refl
of_ordinal-ordinal _ = refl

pub status_beq_iff : (a b : ApplicationStatus) → ((ordinal a == ordinal b) ≡ true) ↔ (a ≡ b)
status_beq_iff a b = ground (arith, of_ordinal-ordinal a, of_ordinal-ordinal b)

instance abbrev pub status_eq : Equality ApplicationStatus
status_eq = record { same = λ a b. ordinal a == ordinal b; same_iff = status_beq_iff }

-- ALLOWED_TRANSITIONS
unfoldable pub allowed_transitions : ApplicationStatus → List ApplicationStatus
allowed_transitions stopped = checking ∷ disabled ∷ []
allowed_transitions checking = starting ∷ queued ∷ failed ∷ stopped ∷ []
allowed_transitions queued = checking ∷ stopped ∷ []
allowed_transitions starting = running ∷ unhealthy ∷ failed ∷ stopped ∷ []
allowed_transitions running = starting ∷ stopping ∷ unhealthy ∷ failed ∷ unknown ∷ []
allowed_transitions unhealthy = running ∷ starting ∷ stopping ∷ failed ∷ []
allowed_transitions stopping = stopped ∷ failed ∷ []
allowed_transitions failed = checking ∷ stopping ∷ stopped ∷ []
allowed_transitions unknown = checking ∷ running ∷ stopping ∷ stopped ∷ failed ∷ []
allowed_transitions disabled = stopped ∷ []

pub data InvalidStateTransition : Type 0 where
  invalid_transition : ApplicationStatus → ApplicationStatus → InvalidStateTransition

unfoldable pub require_transition :
    ApplicationStatus → ApplicationStatus → Outcome InvalidStateTransition (Unit {0})
unfolding allowed_transitions
require_transition current target =
    if current == target
    then ok tt
    else if contains (allowed_transitions current) target
    then ok tt
    else raised (invalid_transition current target)
