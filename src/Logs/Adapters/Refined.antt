-- ===== src/Logs/Adapters/Refined.antt =====
-- The history that a journal reader gives, from the output of its process.
use machine_deck.Base.{All, Outcome, ok, raised, ℕ, ◌≡◌, refl, ap, Option, none, some, List, map}
use machine_deck.Text.{Text, strip}
use machine_deck.Text.Encoding.{Bytes}
use machine_deck.Logs.{LogEvent, max_log_line_bytes}
use machine_deck.Logs.Lines.{Line}
use machine_deck.Logs.Lines.Cutting.{
  cut, content_lines, concat, IsChunk, bounded_lines-content_lines,
}
use machine_deck.Logs.Adapters.{
  LogSourceError, finished, Journal, safe_cursor, exit_error, stream_command, ensure_unit,
  parse_entry, collected, journal_command, journal_history, parsed,
}
use machine_deck.Logs.Adapters.Newest.{newest, collect-parsed}

-- the events of an output, each from its line, cut to the bytes of a log line
abbrev pub events_in : Journal → Text → Bytes → List LogEvent
events_in journal application_id output =
    parsed (parse_entry journal application_id)
      (map (cut max_log_line_bytes) (content_lines output))

abbrev pub history_in :
    Option LogSourceError → ℕ → List LogEvent → Outcome LogSourceError (List LogEvent)
history_in none limit events = ok (newest limit events)
history_in (some e) limit events = raised e

collected-history_in :
    (limit : ℕ) (parse : Line → LogEvent) (lines : List Line) (ended : Option LogSourceError)
    → collected limit parse (record { yielded = lines; ended = ended })
      ≡ history_in ended limit (parsed parse lines)
collected-history_in limit parse lines none = ap ok (collect-parsed limit parse lines)
collected-history_in limit parse lines (some e) = refl

-- Where the unit is there, the cursor is accepted and the process starts, the history is the newest
-- events of the whole output of the process, however it came in chunks: one for each line that is
-- not empty, cut to 64 KiB, and no more than the limit. If the process ends with another code than
-- zero there is no history but the error that names its error output or its code.
pub journal_history-newest :
    (journal : Journal) (application_id unit : Text) (limit : ℕ) (since : Option ℕ)
    (cursor : Option Text) (chunks : List Bytes) (errors : Text) (code : ℕ)
    → ensure_unit journal unit ≡ ok tt
    → safe_cursor cursor ≡ ok cursor
    → All IsChunk chunks
    → journal.process_of (journal_command journal unit limit since cursor)
      ≡ finished chunks errors code
    → journal_history journal application_id unit limit since cursor
      ≡ history_in
          (exit_error (strip errors) code)
          limit
          (events_in journal application_id (concat chunks))
unfolding journal_history stream_command
journal_history-newest journal application_id unit limit since cursor chunks errors code u c h p =
    rw (u, journal_history, c, p, bounded_lines-content_lines max_log_line_bytes chunks h)
      (collected-history_in limit (parse_entry journal application_id)
        (map (cut max_log_line_bytes) (content_lines (concat chunks)))
        (exit_error (strip errors) code))
