-- ===== src/Adapters/Compose.antt =====
-- `DockerComposeAdapter` of backend/app/adapters/runtime.py.
use mathlib.Core.Option
use machine_deck.Base.{
  if◌then◌else◌, nat_eq, string_eq, ◌==◌, any, all, Outcome, ok, raised, Exec, lift, ◌>>=◌, ℕ,
  String, Bool, true, false, not, ◌&&◌, ◌||◌, Option, none, some, List, [], ◌∷◌, ◌++◌, map,
}
use machine_deck.Text.{Text, codes, text_eq, lower}
use machine_deck.Text.Encoding.{splitlines}
use machine_deck.Manifest.{FilePath}
use machine_deck.Status.{ApplicationStatus, stopped, running, unhealthy, failed, unknown, status_eq}
use machine_deck.Logs.Adapters.{decimal}
use machine_deck.Adapters.{Shell, CommandResult, ObservedState, run_command, or_text}

-- What `docker compose ps` tells of a container: its state and health as texts, empty where they
-- are missing, and its exit code, 0 where it is missing.
pub record Container : Type 0 where
  pub state : Text
  pub health : Text
  pub exit_code : ℕ

-- What `json.loads` makes of a text. An entry that is not a mapping is `none`.
pub data Payload : Type 0 where
  entries : List (Option Container) → Payload
  entry : Option Container → Payload

-- `container.get` of an entry that has no `get`
pub data EntryError : Type 0 where
  attribute_error : EntryError

-- The application, the project, and `json.loads`.
pub record ComposeAdapter : Type 0 where
  pub working_directory : FilePath
  pub compose_file : Text
  pub project_name : Option Text
  pub loads : Text → Option Payload

abbrev pub Reported : Type 0
Reported = Outcome EntryError (ObservedState (Option (List Container)))

-- `Path.name`
unfoldable pub path_name : FilePath → Text
path_name [] = []
path_name (part ∷ []) = codes part
path_name (part ∷ (next ∷ parts)) = path_name (next ∷ parts)

-- `runtime.project_name or runtime.working_dir.name`
unfoldable pub identifier : ComposeAdapter → Text
unfolding path_name
identifier adapter = elim adapter.project_name [
  | some (c ∷ name) ↦ c ∷ name
  | _ ↦ path_name adapter.working_directory
]

abbrev project_arguments : Option Text → List Text
project_arguments (some (c ∷ name)) = codes "--project-name" ∷ (c ∷ name) ∷ []
project_arguments _ = []

-- `self.base_command`
unfoldable pub base_command : ComposeAdapter → List Text
base_command adapter =
    map codes ("docker" ∷ "compose" ∷ "-f" ∷ [])
    ++ adapter.compose_file ∷ project_arguments adapter.project_name

-- an action on the project: its command is run in the directory of the application
unfoldable pub compose_run :
    Shell → ComposeAdapter → List Text → Exec (List (List Text)) EntryError CommandResult
unfolding base_command run_command
compose_run shell adapter arguments runs =
    let command = base_command adapter ++ arguments in
    (ok (run_command shell (some adapter.working_directory) command runs), command ∷ runs)

unfoldable pub start_project :
    Shell → ComposeAdapter → Exec (List (List Text)) EntryError CommandResult
unfolding compose_run
start_project shell adapter = compose_run shell adapter (map codes ("up" ∷ "-d" ∷ []))

unfoldable pub stop_project :
    Shell → ComposeAdapter → Exec (List (List Text)) EntryError CommandResult
unfolding compose_run
stop_project shell adapter = compose_run shell adapter (codes "stop" ∷ [])

unfoldable pub restart_project :
    Shell → ComposeAdapter → Exec (List (List Text)) EntryError CommandResult
unfolding compose_run
restart_project shell adapter = compose_run shell adapter (codes "restart" ∷ [])

-- `[json.loads(line) for line in result.message.splitlines() if line]`
unfoldable pub parse_lines : (Text → Option Payload) → List Text → Option (List (Option Container))
parse_lines loads [] = some []
parse_lines loads ([] ∷ lines) = parse_lines loads lines
parse_lines loads ((c ∷ line) ∷ lines) =
    let rest = parse_lines loads lines in
    elim (loads (c ∷ line)) [
      | none ↦ none
      | some (entries _) ↦ Option.map (λ found. none ∷ found) rest
      | some (entry found) ↦ Option.map (λ others. found ∷ others) rest
    ]

unfoldable pub parse_containers : (Text → Option Payload) → Text → Option (List (Option Container))
unfolding parse_lines splitlines
parse_containers loads message = elim (loads message) [
  | some (entries found) ↦ some found
  | some (entry found) ↦ some (found ∷ [])
  | none ↦ parse_lines loads (splitlines message)
]

-- the entries, if all of them are mappings
unfoldable pub mappings : List (Option Container) → Outcome EntryError (List Container)
mappings [] = ok []
mappings (none ∷ found) = raised attribute_error
mappings (some container ∷ found) = elim (mappings found) [
  | ok containers ↦ ok (container ∷ containers)
  | raised e ↦ raised e
]

abbrev pub has_state : List String → Container → Bool
has_state names container = any (λ name. lower container.state == codes name) names

abbrev pub has_failed : Container → Bool
has_failed container =
    has_state ("dead" ∷ "failed" ∷ []) container || not (container.exit_code == 0)

abbrev pub is_unhealthy : Container → Bool
is_unhealthy container = lower container.health == codes "unhealthy"

abbrev pub is_empty : List Container → Bool
is_empty [] = true
is_empty (_ ∷ _) = false

-- the chain of tests on the states of the containers
unfoldable pub project_status : List Container → ApplicationStatus
unfolding lower
project_status containers =
    if any has_failed containers
    then failed
    else if any is_unhealthy containers
    then unhealthy
    else if not (is_empty containers) && all (has_state ("running" ∷ [])) containers
    then running
    else if is_empty containers
        || all (has_state ("exited" ∷ "created" ∷ "stopped" ∷ [])) containers
    then stopped
    else unknown

abbrev unreadable : ComposeAdapter → Text → Reported
unreadable adapter message = ok (record {
  status = unknown;
  runtime_identifier = identifier adapter;
  metadata = none;
  error_message = some message;
})

abbrev reported : ComposeAdapter → List Container → Reported
reported adapter containers = ok (record {
  status = project_status containers;
  runtime_identifier = identifier adapter;
  metadata = some containers;
  error_message = none;
})

-- the state by what has been parsed
unfoldable pub state_of_entries : ComposeAdapter → Option (List (Option Container)) → Reported
unfolding identifier project_status mappings
state_of_entries adapter none = unreadable adapter (codes "Docker Compose returned invalid JSON")
state_of_entries adapter (some found) = elim (mappings found) [
  | raised e ↦ raised e
  | ok containers ↦ reported adapter containers
]

-- what `status` makes of the answer of `docker compose ps`
unfoldable pub project_state : ComposeAdapter → CommandResult → Reported
unfolding identifier parse_containers state_of_entries
project_state adapter result =
    if not result.succeeded
    then unreadable adapter (or_text result.message "Unable to read Compose state")
    else elim result.message [
      | [] ↦ ok (record {
        status = stopped;
        runtime_identifier = identifier adapter;
        metadata = none;
        error_message = none;
      })
      | _ ∷ _ ↦ state_of_entries adapter (parse_containers adapter.loads result.message)
    ]

-- `status`
unfoldable pub compose_status :
    Shell
    → ComposeAdapter
    → Exec (List (List Text)) EntryError (ObservedState (Option (List Container)))
unfolding compose_run project_state
compose_status shell adapter = do
  result ← compose_run shell adapter (map codes ("ps" ∷ "--format" ∷ "json" ∷ []))
  lift (project_state adapter result)

-- `logs`, which raises a RuntimeError with a message
unfoldable pub project_logs :
    Shell → ComposeAdapter → ℕ → List (List Text) → Outcome Text (List Text)
unfolding base_command run_command splitlines
project_logs shell adapter lines runs =
    let result =
      run_command shell (some adapter.working_directory)
        (base_command adapter
          ++ (map codes ("logs" ∷ "--no-color" ∷ "--tail" ∷ []) ++ decimal lines ∷ []))
        runs in
    if result.succeeded
    then ok (splitlines result.message)
    else raised (or_text result.message "Unable to read Docker logs")
