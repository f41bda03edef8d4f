-- ===== src/Lifecycle/Perform/Transitions.antt =====
-- The transitions that an action makes before it calls the runtime adapter.
use machine_deck.Base.{
  nat_eq, string_eq, contains, Outcome, ok, raised, Exec, continue, continue-eq-ok, String, ◌≡◌,
  refl, ap, ◌∙◌, ◌↔◌, true, Option, none, List, [], ◌∷◌, arith,
}
use machine_deck.Status.{
  ApplicationStatus, stopped, queued, checking, starting, running, unhealthy, stopping, failed,
  unknown, InvalidStateTransition, status_eq, require_transition,
}
use machine_deck.Database.{ApplicationInstanceRecord}
use machine_deck.World.{World}
use machine_deck.Lifecycle.{Action, start, stop, restart, transition, status}
use machine_deck.Lifecycle.Perform.{prepare}

-- the state in which the adapter is called
abbrev pub prepared : Action → ApplicationStatus
prepared stop = stopping
prepared _ = starting

transition_ok :
    (state : ApplicationInstanceRecord) (target : ApplicationStatus) (message : Option String)
    (w : World) {state' : ApplicationInstanceRecord}
    → (transition state target message true w).0 ≡ ok state'
    → (require_transition state.status target ≡ ok tt) × (state'.status ≡ target)
unfolding transition
transition_ok state target message w h = ground arith

transition_refused :
    (state : ApplicationInstanceRecord) (target : ApplicationStatus) (message : Option String)
    (w : World) {e : InvalidStateTransition}
    → (transition state target message true w).0 ≡ raised e
    → (require_transition state.status target ≡ raised e)
      × ((transition state target message true w).1 ≡ w)
unfolding transition
transition_refused state target message w h = ground arith

start-refused :
    (state : ApplicationInstanceRecord) (w : World) {e : InvalidStateTransition}
    → (prepare start state w).0 ≡ raised e
    → (prepare start state w).1 ≡ w
unfolding prepare transition
start-refused state w h = ground arith

-- the states from which the transitions of an action lead
abbrev pub sources : Action → List ApplicationStatus
sources start = checking ∷ stopped ∷ queued ∷ failed ∷ unknown ∷ []
sources stop = stopping ∷ running ∷ unhealthy ∷ failed ∷ unknown ∷ []
sources restart = starting ∷ checking ∷ running ∷ unhealthy ∷ []

-- the state that an action enters first
abbrev entered : Action → ApplicationStatus
entered start = checking
entered stop = stopping
entered restart = starting

require_transition-sources :
    (action : Action) (status : ApplicationStatus)
    → (require_transition status (entered action) ≡ ok tt)
      ↔ (contains (sources action) status ≡ true)
unfolding require_transition
require_transition-sources start status = ground arith
require_transition-sources stop status = ground arith
require_transition-sources restart status = ground arith

abbrev Passes : ApplicationInstanceRecord → ApplicationStatus → World → Type 0
Passes state target w =
    (state' : ApplicationInstanceRecord) × ((transition state target none true w).0 ≡ ok state')
    × (state'.status ≡ target)

transition-Passes :
    (state : ApplicationInstanceRecord) (target : ApplicationStatus) (w : World)
    (r : Outcome InvalidStateTransition ApplicationInstanceRecord)
    → (transition state target none true w).0 ≡ r
    → require_transition state.status target ≡ ok tt
    → Passes state target w
transition-Passes state target w (ok state') t h =
    (state', t, (transition_ok state target none w t).1)
transition-Passes state target w (raised e) t h =
    let refused : require_transition state.status target ≡ raised e =
      (transition_refused state target none w t).0 in
    cc

continue_ok :
    (r : Outcome InvalidStateTransition ApplicationInstanceRecord)
    (f : ApplicationInstanceRecord → Exec World InvalidStateTransition ApplicationInstanceRecord)
    (w : World) {a : ApplicationInstanceRecord}
    → r ≡ ok a
    → (continue r f w).0 ≡ (f a w).0
continue_ok (ok b) f w h = let same : b ≡ _ = cc in ap (λ x. (f x w).0) same
continue_ok (raised e) f w h = cc

start-Passes :
    (state : ApplicationInstanceRecord) (w : World)
    → Passes state checking w
    → (state' : ApplicationInstanceRecord) × ((prepare start state w).0 ≡ ok state')
      × (state'.status ≡ starting)
unfolding prepare require_transition
start-Passes state w (mid, first, arrived) =
    let (r, u) = transition state checking none true w in
    let allowed : require_transition mid.status starting ≡ ok tt = rw arrived refl in
    let (state', second, there) = transition-Passes mid starting u _ refl allowed in
    (state', continue_ok r (λ s. transition s starting none true) u first ∙ second, there)

start-checking :
    (state : ApplicationInstanceRecord) (w : World) {state' : ApplicationInstanceRecord}
    → (prepare start state w).0 ≡ ok state'
    → require_transition state.status checking ≡ ok tt
unfolding prepare
start-checking state w h =
    let (r, u) = transition state checking none true w in
    let (mid, first, _) = continue-eq-ok r (λ s. transition s starting none true) u h in
    (transition_ok state checking none w first).0

-- The transitions of an action are let through exactly from the states CHECKING, STOPPED, QUEUED,
-- FAILED and UNKNOWN for a start, STOPPING, RUNNING, UNHEALTHY, FAILED and UNKNOWN for a stop, and
-- STARTING, CHECKING, RUNNING and UNHEALTHY for a restart. The instance is then in the state in which
-- the adapter is called, STARTING, or STOPPING for a stop.
pub prepare-iff-sources :
    (action : Action) (state : ApplicationInstanceRecord) (w : World)
    → ((state' : ApplicationInstanceRecord) × ((prepare action state w).0 ≡ ok state')
        × (state'.status ≡ prepared action))
      ↔ (contains (sources action) state.status ≡ true)
unfolding prepare
prepare-iff-sources start state w = (
  λ (state', h, _). (require_transition-sources start state.status).0 (start-checking state w h),
  λ h. start-Passes state w (
      transition-Passes state checking w _ refl
        ((require_transition-sources start state.status).1 h)),
)
prepare-iff-sources stop state w = (
  λ (state', h, _).
      (require_transition-sources stop state.status).0 (transition_ok state stopping none w h).0,
  λ h.
      transition-Passes state stopping w _ refl
        ((require_transition-sources stop state.status).1 h),
)
prepare-iff-sources restart state w = (
  λ (state', h, _).
      (require_transition-sources restart state.status).0 (transition_ok state starting none w h).0,
  λ h.
      transition-Passes state starting w _ refl
        ((require_transition-sources restart state.status).1 h),
)

-- Transitions that are refused have written nothing: start makes two, and its second one is never
-- refused.
pub prepare-refused_unchanged :
    (action : Action) (state : ApplicationInstanceRecord) (w : World) {e : InvalidStateTransition}
    → (prepare action state w).0 ≡ raised e
    → (prepare action state w).1 ≡ w
unfolding prepare
prepare-refused_unchanged start state w h = start-refused state w h
prepare-refused_unchanged stop state w h = (transition_refused state stopping none w h).1
prepare-refused_unchanged restart state w h = (transition_refused state starting none w h).1
