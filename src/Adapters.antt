-- ===== src/Adapters.antt =====
-- The commands that the adapters of backend/app/adapters/runtime.py run, and what an adapter
-- answers. The children are the adapter of systemd user units and the one of Docker Compose.
pub mod Systemd
pub mod Started
pub mod Compose
pub mod Listing
pub mod Health
use machine_deck.Base.{
  Equality, ltb, leb, if◌then◌else◌, ltb→lt, leb→le, Bool-cases, Option-cases, nat_beq_iff, nat_eq,
  string_eq, ◌==◌, option_beq, option_beq_iff, is_none, is_some, or_else, length, take, drop, any,
  all, filter, find?, All, length-append, length-take, length-drop, take-append-drop, All-append,
  drop-append, drop-nil, drop-drop, All-filter, length-filter, find?-some, contains, Outcome, ok,
  raised, is_ok, Exec, pure, raise, lift, gets, modify, raise_if, continue, ◌>>=◌, ◌>>◌,
  handle_errors, continue-keeps, continue-raised, continue-eq-ok, Returns, continue-Returns, Ends,
  continue-Ends, ℕ, zero, suc, ◌+◌, ◌-◌, ◌*◌, ◌/◌, ◌%◌, ◌^◌, ◌≤◌, ◌<◌, min, String, ◌≡◌, refl, sym,
  ap, ◌∙◌, ◌≢◌, ◌↔◌, ◌⊎◌, inl, inr, Bool, true, false, not, ◌&&◌, ◌||◌, Option, none, some, List,
  [], ◌∷◌, ◌++◌, map, arith, eq_iff, eq_refl,
}
use machine_deck.Text.{
  Text, codes, text_beq, text_beq_iff, text_eq, is_space, is_digit, lower_char, lower, lstrip,
  rstrip, strip_by, strip, strip_quotes, partition, rpartition, split_parts, split, join_rest, join,
  starts_with, all_digits, join-split,
}
use machine_deck.Text.Encoding.{
  Bytes, replace, ends_with, utf8_char, encode, is_line_break, splitlines, text_leb, item_leb,
  insert_item, sorted,
}
use machine_deck.Manifest.{
  Protocol, http, https, tcp, udp, Runtime, process, compose, PortDefinition, ApplicationManifest,
  FilePath, is_web, working_dir, runtime_type,
}
use machine_deck.Status.{
  ApplicationStatus, stopped, queued, checking, starting, running, unhealthy, stopping, failed,
  unknown, disabled, ExecutionStatus, InvalidStateTransition, invalid_transition, ordinal,
  status_beq_iff, status_eq, allowed_transitions, require_transition,
}
use machine_deck.Units.{
  UnitError, unsafe_unit_name, not_process, unit_too_large, invalid_control_characters,
  unexpected_sections, control_characters, invalid_paths, unsupported_directive, required_directive,
  directory_missing, directory_not_real, directory_not_owned, directory_writable,
  target_not_regular, target_unsafe, cannot_read, existing_too_large, verification_failed,
  reload_failed, max_unit_bytes, is_unit_char, unit_name_for, has_control_characters,
  reject_control_characters, escaped, quote, is_path_byte, hex_digit, escape_byte, escape_bytes,
  escape_path,
}
use machine_deck.Units.Files.{
  FileKind, symlink, directory, regular, other_kind, ManagerError, unit_error, file_exists,
  Metadata, Disk, CommandOutcome, Surroundings, Files, Managing, unit_failure, unit_result, file_at,
  put_file, remove_file, writable_by_others, is_directory, leads_to_directory, is_regular,
  is_symlink, make_directory, checked_directory, trusted_directory, checked_target, target_path,
  read_chunks, join_bytes, joined, read_regular, temporary_name, written_file, with_files,
  atomic_replace,
}

-- `process.returncode`, which is negative for a signal
pub data ReturnCode : Type 0 where
  exited killed : ℕ → ReturnCode

-- how a process ends: it does not start, for which there is a message, its time runs out, or it
-- ends with its two outputs
pub data ProcessEnd : Type 0 where
  not_started : Text → ProcessEnd
  out_of_time : ProcessEnd
  ended : Bytes → Bytes → ReturnCode → ProcessEnd

-- How a command ends, after the commands before it, newest first, in a working directory;
-- `bytes.decode(errors="replace")`, and the message of an error of the units.
pub record Shell : Type 0 where
  pub process_of : Option FilePath → List Text → List (List Text) → ProcessEnd
  pub decode_replace : Bytes → Text
  pub message_of : UnitError → Text

pub data AdapterCode : Type 0 where
  runtime_unavailable runtime_timeout runtime_command_failed unit_install_failed unit_start_failed :
      AdapterCode

-- `AdapterResult`, with its message as a list of code points
pub record CommandResult : Type 0 where
  pub succeeded : Bool
  pub message : Text
  pub exit_code : Option ReturnCode
  pub error_code : Option AdapterCode

-- `RuntimeState`
pub record ObservedState (M : Type 0) : Type 0 where
  pub status : ApplicationStatus
  pub runtime_identifier : Text
  pub metadata : M
  pub error_message : Option Text

abbrev pub is_success : ReturnCode → Bool
is_success (exited code) = code == 0
is_success (killed _) = false

-- `run_command`, from how the process ends
unfoldable pub result_of : Shell → ProcessEnd → CommandResult
unfolding strip
result_of shell (not_started message) = record {
  succeeded = false;
  message = message;
  exit_code = none;
  error_code = some runtime_unavailable;
}
result_of shell out_of_time = record {
  succeeded = false;
  message = codes "Runtime command timed out";
  exit_code = none;
  error_code = some runtime_timeout;
}
result_of shell (ended stdout stderr return_code) = record {
  succeeded = is_success return_code;
  message = strip (shell.decode_replace (stdout ++ stderr));
  exit_code = some return_code;
  error_code = if is_success return_code then none else some runtime_command_failed;
}

unfoldable pub run_command : Shell → Option FilePath → List Text → List (List Text) → CommandResult
unfolding result_of
run_command shell cwd command runs = result_of shell (shell.process_of cwd command runs)

-- what the manager of units reads of the answer
abbrev pub outcome_of : CommandResult → CommandOutcome
outcome_of result = record { succeeded = result.succeeded; message = result.message }

-- the surroundings of the manager, with `run_command` as its runner
unfoldable pub with_shell : Shell → Surroundings → Surroundings
unfolding run_command
with_shell shell around = record around {
  runner = λ command runs. outcome_of (run_command shell none command runs);
}

-- `message or "..."`
abbrev pub or_text : Text → String → Text
or_text [] default = codes default
or_text (c ∷ message) default = c ∷ message
