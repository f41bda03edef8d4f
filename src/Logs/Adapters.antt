-- ===== src/Logs/Adapters.antt =====
-- The readers of backend/app/logging/adapters.py. A generator is the list of what it yields and the
-- error that ends it, if one does. The subprocess, `run_command`, `json.loads` and the regular
-- expression of a compose line are parameters; the removal of a process that still runs when its
-- reader is closed is not modelled.
pub mod Newest
pub mod Refined
use machine_deck.Base.{
  Equality, ltb, leb, if◌then◌else◌, ltb→lt, leb→le, Bool-cases, Option-cases, nat_beq_iff, nat_eq,
  string_eq, ◌==◌, option_beq, option_beq_iff, is_none, is_some, or_else, length, take, drop, any,
  all, filter, find?, All, length-append, length-take, length-drop, take-append-drop, All-append,
  drop-append, drop-nil, drop-drop, All-filter, length-filter, find?-some, contains, Outcome, ok,
  raised, is_ok, Exec, pure, raise, lift, gets, modify, raise_if, continue, ◌>>=◌, ◌>>◌,
  handle_errors, continue-keeps, continue-raised, continue-eq-ok, Returns, continue-Returns, ℕ,
  zero, suc, ◌+◌, ◌-◌, ◌*◌, ◌/◌, ◌%◌, ◌^◌, ◌≤◌, ◌<◌, min, String, ◌≡◌, refl, sym, ap, ◌∙◌, ◌≢◌, ◌↔◌,
  ◌⊎◌, inl, inr, Bool, true, false, not, ◌&&◌, ◌||◌, Option, none, some, List, [], ◌∷◌, ◌++◌, map,
  arith, eq_iff, eq_refl,
}
use machine_deck.Text.{
  Text, codes, text_beq, text_beq_iff, text_eq, is_space, is_digit, lower_char, lower, lstrip,
  rstrip, strip_by, strip, strip_quotes, partition, rpartition, split_parts, split, join_rest, join,
  starts_with, all_digits, join-split,
}
use machine_deck.Text.Encoding.{
  Bytes, replace, ends_with, utf8_char, encode, is_line_break, splitlines, text_leb, item_leb,
  insert_item, sorted,
}
use machine_deck.Manifest.{
  Protocol, http, https, tcp, udp, Runtime, process, compose, PortDefinition, ApplicationManifest,
  FilePath, is_web, working_dir, runtime_type,
}
use machine_deck.Units.{
  UnitError, unsafe_unit_name, not_process, unit_too_large, invalid_control_characters,
  unexpected_sections, control_characters, invalid_paths, unsupported_directive, required_directive,
  directory_missing, directory_not_real, directory_not_owned, directory_writable,
  target_not_regular, target_unsafe, cannot_read, existing_too_large, verification_failed,
  reload_failed, max_unit_bytes, is_unit_char, unit_name_for, has_control_characters,
  reject_control_characters, escaped, quote, is_path_byte, hex_digit, escape_byte, escape_bytes,
  escape_path,
}
use machine_deck.Logs.{
  LogSource, from_journal, from_docker, LogStream, out_stream, error_stream, unknown_stream,
  LogEvent, max_log_line_bytes,
}
use machine_deck.Logs.Lines.{Line, no_line, add_byte, scan_chunk, last_line, bounded_lines}
use machine_deck.Logs.Messages.{decode_from, decode_ignore, bounded_message}

pub data LogSourceError : Type 0 where
  invalid_cursor : LogSourceError
  unit_unavailable : Text → LogSourceError
  not_started : LogSourceError
  reader_failed : Text → LogSourceError
  reader_exited : ℕ → LogSourceError

-- What a reader process does: it does not start, or it gives its output in chunks, its error output
-- and its return code; a process that a signal ends has a code that is not zero.
pub data Process : Type 0 where
  os_failure : Process
  finished : List Bytes → Text → ℕ → Process

pub record Stream {ℓ} (A : Type ℓ) : Type ℓ where
  pub yielded : List A
  pub ended : Option LogSourceError

-- what `json.loads` and the conversions of the fields make of a journal entry
pub record Payload : Type 0 where
  pub realtime_timestamp : ℕ
  pub message : Text
  pub priority : ℕ
  pub cursor : Option Text

pub record Journal : Type 0 where
  pub process_of : List Text → Process
  pub run_command : List Text → Bool × Text
  pub payload_of : Bytes → Option Payload
  pub decode_replace : Bytes → Text
  pub iso_utc : ℕ → Text
  pub now : ℕ

-- `cursor is None` passes; an empty cursor does not.
unfoldable pub safe_cursor : Option Text → Outcome LogSourceError (Option Text)
safe_cursor none = ok none
safe_cursor (some cursor) =
    if text_beq cursor []
      || (ltb 2048 (length cursor) || any (λ c. contains cursor c) (10 ∷ 13 ∷ 0 ∷ []))
    then raised invalid_cursor
    else ok (some cursor)

abbrev pub exit_error : Text → ℕ → Option LogSourceError
exit_error stderr zero = none
exit_error [] (suc code) = some (reader_exited (suc code))
exit_error (c ∷ stderr) (suc code) = some (reader_failed (c ∷ stderr))

unfoldable pub stream_command : Process → Stream Line
unfolding bounded_lines strip
stream_command os_failure = record { yielded = []; ended = some not_started }
stream_command (finished chunks stderr return_code) = record {
  yielded = bounded_lines max_log_line_bytes chunks no_line;
  ended = exit_error (strip stderr) return_code;
}

-- `needle in text`
unfoldable pub has_substring : Text → Text → Bool
unfolding starts_with
has_substring needle [] = starts_with needle []
has_substring needle (c ∷ s) = starts_with needle (c ∷ s) || has_substring needle s

abbrev pub show_unit : Text → List Text
show_unit unit =
    map codes ("systemctl" ∷ "--user" ∷ "show" ∷ [])
    ++ unit ∷ map codes ("--property=LoadState" ∷ "--no-pager" ∷ [])

unfoldable pub ensure_unit : Journal → Text → Outcome LogSourceError (Unit {0})
unfolding has_substring
ensure_unit journal unit =
    let (succeeded, message) = journal.run_command (show_unit unit) in
    if not succeeded || has_substring (codes "LoadState=not-found") message
    then raised (unit_unavailable unit)
    else ok tt

-- `_parse`, with the event of an entry that is not valid
unfoldable pub parse_entry : Journal → Text → Line → LogEvent
unfolding bounded_message
parse_entry journal application_id line = elim (journal.payload_of line.prefix) [
  | none ↦ record {
    application_id = application_id;
    timestamp = journal.now;
    source = from_journal;
    stream = unknown_stream;
    message = journal.decode_replace line.prefix;
    service = none;
    container_id = none;
    cursor = none;
    sequence = none;
    truncated = line.truncated;
    original_size = some line.original_size;
  }
  | some payload ↦
      let (message, (shortened, size)) = bounded_message payload.message max_log_line_bytes in
      record {
        application_id = application_id;
        timestamp =
            if payload.realtime_timestamp == 0 then journal.now else payload.realtime_timestamp;
        source = from_journal;
        stream = if leb payload.priority 3 then error_stream else unknown_stream;
        message = message;
        service = none;
        container_id = none;
        cursor = payload.cursor;
        sequence = none;
        truncated = line.truncated || shortened;
        original_size = some (if line.truncated then line.original_size else size);
      }
]

-- `deque(maxlen=limit).append(event)`
unfoldable pub append_bounded {ℓ} : {A : Type ℓ} → ℕ → List A → A → List A
append_bounded limit events event =
    let longer = events ++ event ∷ [] in if ltb limit (length longer) then drop 1 longer else longer

abbrev pub is_blank : Bytes → Bool
is_blank [] = true
is_blank (_ ∷ _) = false

-- the loop of `history` over the lines
unfoldable pub collect : ℕ → (Line → LogEvent) → List Line → List LogEvent → List LogEvent
unfolding append_bounded
collect limit parse [] events = events
collect limit parse (line ∷ lines) events =
    let skipped = collect limit parse lines events in
    let added = collect limit parse lines (append_bounded limit events (parse line)) in
    if is_blank line.prefix then skipped else added

abbrev pub collected : ℕ → (Line → LogEvent) → Stream Line → Outcome LogSourceError (List LogEvent)
collected limit parse stream = elim stream.ended [
  | none ↦ ok (collect limit parse stream.yielded [])
  | some e ↦ raised e
]

-- `str(n)`, by the last digits that the first number counts
unfoldable pub digits : ℕ → ℕ → Text → Text
digits zero n after = after
digits (suc turns) n after =
    let more = digits turns (n / 10) ((b'0' + n % 10) ∷ after) in
    if ltb n 10 then (b'0' + n) ∷ after else more

unfoldable pub decimal : ℕ → Text
unfolding digits
decimal n = digits (n + 1) n []

abbrev pub option_texts {ℓ} : {A : Type ℓ} → String → (A → Text) → Option A → List Text
option_texts name show none = []
option_texts name show (some value) = codes name ∷ show value ∷ []

unfoldable pub journal_command : Journal → Text → ℕ → Option ℕ → Option Text → List Text
unfolding decimal
journal_command journal unit limit since cursor =
    map codes ("journalctl" ∷ "--user" ∷ "--unit" ∷ [])
    ++ unit
      ∷ (map codes ("--output=json" ∷ "--no-pager" ∷ "--lines" ∷ [])
          ++ decimal limit
            ∷ (option_texts "--since" journal.iso_utc since
                ++ option_texts "--after-cursor" (λ c. c) cursor))

-- `JournalLogAdapter.history`
unfoldable pub journal_history :
    Journal → Text → Text → ℕ → Option ℕ → Option Text → Outcome LogSourceError (List LogEvent)
unfolding ensure_unit safe_cursor journal_command stream_command collect parse_entry
journal_history journal application_id unit limit since cursor = elim (ensure_unit journal unit) [
  | raised e ↦ raised e
  | ok _ ↦ elim (safe_cursor cursor) [
    | raised e ↦ raised e
    | ok checked ↦
        collected limit (parse_entry journal application_id)
          (stream_command (journal.process_of (journal_command journal unit limit since checked)))
  ]
]

-- the loop of `follow` over the lines
unfoldable pub parsed : (Line → LogEvent) → List Line → List LogEvent
parsed parse [] = []
parsed parse (line ∷ lines) =
    let rest = parsed parse lines in if is_blank line.prefix then rest else parse line ∷ rest

abbrev pub follow_command : Text → Option Text → List Text
follow_command unit cursor =
    map codes ("journalctl" ∷ "--user" ∷ "--unit" ∷ [])
    ++ unit
      ∷ (map codes ("--output=json" ∷ "--follow" ∷ "--lines=0" ∷ [])
          ++ option_texts "--after-cursor" (λ c. c) cursor)

-- `JournalLogAdapter.follow`
unfoldable pub journal_follow : Journal → Text → Text → Option Text → Stream LogEvent
unfolding ensure_unit safe_cursor stream_command parsed parse_entry
journal_follow journal application_id unit cursor = elim (ensure_unit journal unit) [
  | raised e ↦ record { yielded = []; ended = some e }
  | ok _ ↦ elim (safe_cursor cursor) [
    | raised e ↦ record { yielded = []; ended = some e }
    | ok checked ↦
        let stream = stream_command (journal.process_of (follow_command unit checked)) in
        record {
          yielded = parsed (parse_entry journal application_id) stream.yielded;
          ended = stream.ended;
        }
  ]
]
