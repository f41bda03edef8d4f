-- ===== src/Adapters/Health.antt =====
-- When a Compose project counts as running.
use mathlib.Core.Path.{subst}
use machine_deck.Base.{
  if◌then◌else◌, Bool-cases, nat_eq, string_eq, ◌==◌, any, all, All, Outcome, ok, raised, ◌≡◌, refl,
  sym, ap, ◌∙◌, ◌≢◌, ◌↔◌, inl, inr, Bool, true, false, not, ◌&&◌, ◌||◌, Option, none, some, List,
  [], ◌∷◌, map, arith,
}
use machine_deck.Text.{Text, codes, text_beq, text_beq_iff, text_eq, lower}
use machine_deck.Status.{stopped, running, unhealthy, failed, unknown, status_beq_iff, status_eq}
use machine_deck.Adapters.{CommandResult}
use machine_deck.Adapters.Listing.{Lists, parse_containers-iff-Lists, mappings-map, mappings-ok}
use machine_deck.Adapters.Compose.{
  EntryError, Container, ComposeAdapter, Reported, identifier, parse_containers, mappings,
  has_state, has_failed, is_unhealthy, is_empty, project_status, state_of_entries, project_state,
}

abbrev pub IsRunning : Container → Type 0
IsRunning container =
    (lower container.state ≡ codes "running")
    × (lower container.health ≢ codes "unhealthy")
    × (container.exit_code ≡ 0)

-- the tests of one container
abbrev runs_well : Container → Bool
runs_well container =
    (lower container.state == codes "running")
    && (not (is_unhealthy container) && (container.exit_code == 0))

runs_well_iff : (container : Container) → (runs_well container ≡ true) ↔ IsRunning container
runs_well_iff container = ground (
  arith,
  text_beq_iff (lower container.state) (codes "running"),
  text_beq_iff (lower container.health) (codes "unhealthy"),
)

running-not_failed :
    (state : Text)
    → text_beq state (codes "running") ≡ true
    → any (λ name. text_beq state (codes name)) ("dead" ∷ "failed" ∷ []) ≡ false
running-not_failed state h = rw ((text_beq_iff state (codes "running")).0 h) refl

-- the tests of one container and of the others, whether it runs, failed by its state, ended with 0,
-- and is unhealthy
one_more :
    (r f x u a f' u' rest : Bool)
    → (r ≡ true → f ≡ false)
    → (a && (not f' && not u')) ≡ rest
    → ((r || false) && a) && (not ((f || not x) || f') && not (u || u'))
      ≡ (r && (not u && x)) && rest
one_more r f x u a f' u' rest h k = ground (arith, h, k)

all_run_well :
    (containers : List Container)
    → (all (has_state ("running" ∷ [])) containers
        && (not (any has_failed containers) && not (any is_unhealthy containers)))
      ≡ all runs_well containers
all_run_well [] = refl
all_run_well (container ∷ containers) =
    one_more (text_beq (lower container.state) (codes "running"))
      (has_state ("dead" ∷ "failed" ∷ []) container) (container.exit_code == 0)
      (is_unhealthy container) (all (has_state ("running" ∷ [])) containers)
      (any has_failed containers) (any is_unhealthy containers) (all runs_well containers)
      (running-not_failed (lower container.state)) (all_run_well containers)

both_iff :
    {P Q : Type 0} (b c : Bool) → (b ≡ true) ↔ P → (c ≡ true) ↔ Q → ((b && c) ≡ true) ↔ (P × Q)
both_iff false c (f, g) (f', g') = (λ h. ground (arith, h), λ (p, q). g p)
both_iff true c (f, g) (f', g') = (λ h. (f refl, f' h), λ (p, q). g' q)

all-runs_well_iff :
    (containers : List Container) → (all runs_well containers ≡ true) ↔ All IsRunning containers
all-runs_well_iff [] = (λ _. tt, λ _. refl)
all-runs_well_iff (container ∷ containers) =
    let one = runs_well_iff container in
    let others = all-runs_well_iff containers in
    both_iff (runs_well container) (all runs_well containers) one others

chain_running :
    (f u e a s : Bool)
    → ((if f
          then failed
          else if u
          then unhealthy
          else if not e && a
          then running
          else if e || s
          then stopped
          else unknown)
        ≡ running)
      ↔ ((e ≡ false) × ((a && (not f && not u)) ≡ true))
chain_running f u e a s = ground arith

project_status_iff :
    (containers : List Container)
    → (project_status containers ≡ running)
      ↔ ((is_empty containers ≡ false) × All IsRunning containers)
unfolding project_status
project_status_iff containers =
    let chain =
      chain_running (any has_failed containers) (any is_unhealthy containers) (is_empty containers)
        (all (has_state ("running" ∷ [])) containers)
        (all (has_state ("exited" ∷ "created" ∷ "stopped" ∷ [])) containers) in
    let each = all-runs_well_iff containers in
    (
      λ h. ((chain.0 h).0, each.0 (sym (all_run_well containers) ∙ (chain.0 h).1)),
      λ (e, h). chain.1 (e, all_run_well containers ∙ each.1 h),
    )

-- The command succeeded and its answer is not empty and lists containers, all of which run.
abbrev pub Runs : ComposeAdapter → CommandResult → Type 0
Runs adapter result =
    (result.succeeded ≡ true)
    × (text_beq result.message [] ≡ false)
    × ((containers : List Container) × Lists adapter.loads result.message containers
        × (is_empty containers ≡ false)
        × All IsRunning containers)

abbrev pub is_running : Reported → Bool
is_running (ok state) = state.status == running
is_running (raised _) = false

-- what was found is a list of containers, all of which run
abbrev AllRun : Option (List (Option Container)) → Type 0
AllRun found =
    (containers : List Container) × (found ≡ some (map some containers))
    × (is_empty containers ≡ false)
    × All IsRunning containers

module _ (adapter : ComposeAdapter) where
  mapped-AllRun :
      (found : List (Option Container)) (read : Outcome EntryError (List Container))
      → mappings found ≡ read
      → (is_running (elim read [
        | raised e ↦ raised e
        | ok containers ↦ ok (record {
          status = project_status containers;
          runtime_identifier = identifier adapter;
          metadata = some containers;
          error_message = none;
        })
      ])
          ≡ true)
        ↔ AllRun (some found)
  mapped-AllRun found (raised e) m = (
    λ h. cc,
    λ (cs, same, _, _).
        let known : found ≡ map some cs = cc in
        let read : mappings found ≡ ok cs = ap mappings known ∙ mappings-map cs in cc,
  )
  mapped-AllRun found (ok containers) m = (
    λ h.
        let (filled, each) =
          (project_status_iff containers).0
            ((status_beq_iff (project_status containers) running).0 h) in
        (containers, ap some (mappings-ok found containers m), filled, each),
    λ (cs, same, filled, each).
        let known : found ≡ map some cs = cc in
        let read : mappings found ≡ ok cs = ap mappings known ∙ mappings-map cs in
        let all_of_them : cs ≡ containers = cc in
        (status_beq_iff (project_status containers) running).1 (
          (project_status_iff containers).1
            (subst (λ xs. (is_empty xs ≡ false) × All IsRunning xs) all_of_them (filled, each))),
  )

  entries-AllRun :
      (found : Option (List (Option Container)))
      → (is_running (state_of_entries adapter found) ≡ true) ↔ AllRun found
  unfolding state_of_entries
  entries-AllRun none = (λ h. cc, λ (cs, same, _, _). cc)
  entries-AllRun (some found) = mapped-AllRun found (mappings found) refl

  answer-IsRunning :
      (message text : Text)
      → (is_running (elim text [
        | [] ↦ ok (record {
          status = stopped;
          runtime_identifier = identifier adapter;
          metadata = none;
          error_message = none;
        })
        | _ ∷ _ ↦ state_of_entries adapter (parse_containers adapter.loads message)
      ])
          ≡ true)
        ↔ ((text_beq text [] ≡ false)
            × ((containers : List Container) × Lists adapter.loads message containers
                × (is_empty containers ≡ false)
                × All IsRunning containers))
  answer-IsRunning message [] = (λ h. cc, λ (nonempty, _). cc)
  answer-IsRunning message (c ∷ text) =
      let found = entries-AllRun (parse_containers adapter.loads message) in
      (
        λ h.
            let (cs, read, filled, each) = found.0 h in
            (
              refl,
              (cs, (parse_containers-iff-Lists adapter.loads message cs).0 read, filled, each),
            ),
        λ (_, (cs, listed, filled, each)).
            found.1
              (cs, (parse_containers-iff-Lists adapter.loads message cs).1 listed, filled, each),
      )

-- The answer to `docker compose ps` counts as a running project exactly when the command succeeded
-- and its text is not empty and lists containers, at least one, as a JSON list, as one object or,
-- where it is not JSON, as one object on each line, and each of them has the state running, in
-- whatever case, is not unhealthy, and has the exit code 0 or none. A command that fails, an empty
-- answer and one with a line that is not JSON never count so.
pub project_state-iff-Runs :
    (adapter : ComposeAdapter) (result : CommandResult)
    → (is_running (project_state adapter result) ≡ true) ↔ Runs adapter result
unfolding project_state
project_state-iff-Runs adapter result = elim (Bool-cases result.succeeded) [
  | inl done ↦ rw done (
    λ h.
        let (nonempty, found) = (answer-IsRunning adapter result.message result.message).0 h in
        (refl, nonempty, found),
    λ (_, nonempty, found).
        (answer-IsRunning adapter result.message result.message).1 (nonempty, found),
  )
  | inr no_success ↦ rw no_success (λ h. cc, λ (e, _, _). cc)
]
