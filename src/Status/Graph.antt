-- ===== src/Status/Graph.antt =====
-- The transition table as a graph: which states lead where.
use machine_deck.Base.{nat_eq, string_eq, contains, ok, ◌≡◌, refl, ◌↔◌, ◌⊎◌, true, arith}
use machine_deck.Status.{
  ApplicationStatus, stopped, queued, checking, starting, running, unhealthy, stopping, failed,
  unknown, disabled, status_beq_iff, status_eq, allowed_transitions, require_transition,
}

-- One step that `require_transition` lets through.
infix 40 ◌⟶◌ ◌⟶*◌
pub data ◌⟶◌ : ApplicationStatus → ApplicationStatus → Type 0 where
  step : {s t : ApplicationStatus} → require_transition s t ≡ ok tt → s ⟶ t

pub data ◌⟶*◌ : ApplicationStatus → ApplicationStatus → Type 0 where
  here : {s : ApplicationStatus} → s ⟶* s
  next : {s t u : ApplicationStatus} → s ⟶ t → t ⟶* u → s ⟶* u

-- The code lets a transition through exactly where the state stays or the table lists it.
pub require_transition_iff :
    (s t : ApplicationStatus)
    → (require_transition s t ≡ ok tt) ↔ ((s ≡ t) ⊎ (contains (allowed_transitions s) t ≡ true))
unfolding require_transition
require_transition_iff s t = ground (arith, status_beq_iff s t)

⟶*-trans : {s t u : ApplicationStatus} → s ⟶* t → t ⟶* u → s ⟶* u
⟶*-trans here q = q
⟶*-trans (next e p) q = next e (⟶*-trans p q)

⟶*-stopped : (s : ApplicationStatus) → s ⟶* stopped
unfolding require_transition
⟶*-stopped stopped = here
⟶*-stopped running = next {t = failed} (step refl) (next (step refl) here)
⟶*-stopped unhealthy = next {t = failed} (step refl) (next (step refl) here)
⟶*-stopped s = next (step refl) here

⟶*-starting : stopped ⟶* starting
unfolding require_transition
⟶*-starting = next {t = checking} (step refl) (next (step refl) here)

⟶*-running : stopped ⟶* running
unfolding require_transition
⟶*-running = ⟶*-trans ⟶*-starting (next (step refl) here)

stopped-⟶* : (t : ApplicationStatus) → stopped ⟶* t
unfolding require_transition
stopped-⟶* stopped = here
stopped-⟶* checking = next (step refl) here
stopped-⟶* disabled = next (step refl) here
stopped-⟶* queued = next {t = checking} (step refl) (next (step refl) here)
stopped-⟶* starting = ⟶*-starting
stopped-⟶* running = ⟶*-running
stopped-⟶* unhealthy = ⟶*-trans ⟶*-starting (next (step refl) here)
stopped-⟶* failed = ⟶*-trans ⟶*-starting (next (step refl) here)
stopped-⟶* stopping = ⟶*-trans ⟶*-running (next (step refl) here)
stopped-⟶* unknown = ⟶*-trans ⟶*-running (next (step refl) here)

-- The table is connected: steps that it lists lead from any state to any other, by way of STOPPED.
pub ⟶*-connected : (s t : ApplicationStatus) → s ⟶* t
⟶*-connected s t = ⟶*-trans (⟶*-stopped s) (stopped-⟶* t)
