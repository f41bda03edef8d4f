-- ===== src/Lib.antt =====
-- MachineDeck: the backend that registers applications of one host, starts and stops them through
-- systemd or Docker Compose, watches their ports, and lets one administrator in. This library
-- models its core and proves what keeps it correct. Paths below are from the root of the
-- repository.
--
-- The parts and their files. Base has tests on numbers and texts, lists, and the effect of a
-- method that may raise (Base/Effects.antt: `Exec`, whose state comes back beside the exception
-- too). Text.antt has Python's `strip`, `split`, `partition` on lists of codes, and Json.antt has
-- the details of an audit event. Status.antt is backend/app/orchestration/state_machine.py;
-- Status/Graph.antt makes its table a step relation. Manifest.antt and Manifest/Paths.antt are
-- backend/app/schemas/applications.py. Database.antt is backend/app/database/models.py; a table
-- is the list of its rows, in the order in which they were added, and Database/Rows.antt has the
-- reads and writes of a row by its key. World.antt is what one request works on: `db` is the
-- session's view of the tables, `saved` what the last commit made durable; the clock is a
-- function that each reading advances.
--
-- Network.antt passes on its children, which are the first half of backend/app/security/auth.py,
-- from `_address` to `client_is_trusted_network`: forwarding headers and trusted proxies.
-- Authentication.antt and its children Sessions and Login are the rest of that file, and
-- Authentication/Requests.antt is backend/app/api/auth.py. Registry.antt is
-- backend/app/services/applications.py, and Audit.antt the query for a page of
-- backend/app/audit/service.py, with the order in Audit/Order.antt; `walk` of Audit/Walk.antt is
-- a client that follows the cursors.
--
-- Ports.antt, Ports/Conflicts.antt, Ports/Views.antt and Ports/Service.antt are `PortService` of
-- backend/app/orchestration/ports.py. Lifecycle.antt and Lifecycle/Perform.antt are
-- `LifecycleService` of backend/app/orchestration/lifecycle_service.py: `run_action` is `action`,
-- which asks the ports for conflicts, moves the state through the table, calls the adapter and
-- confirms what it reports. The steps of one action are composed in the order of the code, every
-- commit included.
--
-- Units.antt and its children Validation, Rendering, Files and Manager are
-- backend/app/systemd/user_units.py: the text of a unit, its validation, and a manager that works
-- on the directory of the units, a list of files beside the commands that were run. A text is a
-- list of code points and a file holds its UTF-8 bytes (Text/Encoding.antt). Logs.antt has the
-- events of backend/app/logging/models.py; Logs/Lines.antt and Logs/Adapters.antt are the journal
-- reader of backend/app/logging/adapters.py, Logs/Messages.antt is `bounded_message`,
-- Logs/Service.antt is backend/app/logging/service.py, and Logs/Query.antt and
-- Logs/Connection.antt are backend/app/api/log_websocket.py: the producer, the queue and the loop
-- that sends are the steps of a relation, in whatever order they run, each from one await to the
-- next.
--
-- Adapters.antt is `run_command` of backend/app/adapters/runtime.py, and Adapters/Systemd.antt
-- and Adapters/Compose.antt are its two adapters: the one of systemd installs the unit with the
-- manager of Units/Manager.antt, runs the action, asks for the state, and rolls the installation
-- back where the unit is not up. Lifecycle.antt takes an adapter as a parameter, so that its
-- theorems hold of any.
--
-- Configuration.antt has the values that backend/app/config.py reads, Configuration/Server.antt
-- its mode, address, port and cookie, Configuration/Lists.antt the trusted networks and origins,
-- and Configuration/Loading.antt the settings as a whole.
--
-- Deployment.antt is `deploy` of scripts/machinedeck_deploy.py, the installation and the upgrade
-- of MachineDeck itself, with `_current_target`, `_switch_current`, `_backup_database`,
-- `_restore_database` and `_remove_database`: what is on the host is a record, each step of the
-- block may fail, and the handler puts back what the block has changed.
--
-- What comes from outside is a parameter: `Host` (settings, file system, ipaddress, YAML),
-- `Discovery` (psutil and the Docker clients), `RuntimeAdapter` (systemctl and docker compose;
-- its answer may depend on the calls before), `Addresses` and `Libraries` (ipaddress, hashlib,
-- secrets, argon2, urllib), `AuditCodec` (base64 and JSON of a cursor, the order of identifiers
-- as texts), `Surroundings` (systemctl and systemd-analyze, the names of `mkstemp`) `Journal`
-- (journalctl and `json.loads`), `ConfigSource` (the environment, the parsed TOML file, ipaddress
-- and urllib), `Shell` and `ComposeAdapter` (how a process ends, `json.loads` of what docker
-- compose tells) and `Deployment` (which steps of a deployment fail, the rendered texts, the
-- migration, and what systemctl does to the service). No assumption is made on them beyond the
-- hypotheses of a theorem.
--
-- Bounds. Every loop of the modelled code is over a list and is structural recursion, except two:
-- `read_chunks` has one turn more than the file has bytes, and `decimal` one more than the
-- number, and each turn of them takes at least one byte or one digit. An instant is a number of
-- microseconds, an identifier of `uuid4` is the number of the draw, so that two draws differ.
--
-- Not modelled: the concurrent interleaving of two requests (an action holds the lock of its
-- application; a second session shows only in `saved`), the failure of a commit other than the
-- ones the code handles, the case that SQLAlchemy finds no column changed and leaves `updated_at`
-- alone, the text of an endpoint URL, messages of errors that are not stored, an error of the
-- operating system other than the ones the code handles, the reader of compose logs, the ending
-- of a subprocess, the redaction of a log message, a line of journalctl that is JSON and no
-- object, a lone surrogate in a log message, an error inside the handler of `deploy`, the removal
-- of MachineDeck, and the other components: port discovery, dashboard, redaction of audit
-- details, and the paths and limits of the configuration.
pub mod Base
pub mod Text
pub mod Json
pub mod Status
pub mod Manifest
pub mod Host
pub mod Network
pub mod Database
pub mod World
pub mod Ports
pub mod Lifecycle
pub mod Registry
pub mod Authentication
pub mod Audit
pub mod Units
pub mod Logs
pub mod Adapters
pub mod Configuration
pub mod Deployment
pub mod Samples
