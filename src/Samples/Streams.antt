-- ===== src/Samples/Streams.antt =====
-- The theorems on logs, on small streams.
use machine_deck.Base.{
  ltb, length, All, ok, String, ◌≡◌, refl, true, false, none, some, List, [], ◌∷◌, arith,
}
use machine_deck.Text.{codes, strip}
use machine_deck.Text.Encoding.{Bytes, encode}
use machine_deck.Logs.{from_journal, unknown_stream, LogEvent}
use machine_deck.Logs.Lines.Cutting.{concat, IsChunk}
use machine_deck.Logs.Messages.{bounded_message}
use machine_deck.Logs.Messages.Fitting.{fit, bounded_message-fit}
use machine_deck.Logs.Adapters.{
  finished, Journal, safe_cursor, exit_error, ensure_unit, journal_history,
}
use machine_deck.Logs.Adapters.Refined.{events_in, history_in, journal_history-newest}
use machine_deck.Logs.Query.{LogQuery, QueryParams, parse_query}
use machine_deck.Logs.Query.Accepted.{IsServable, parse_query-IsServable}
use machine_deck.Logs.Connection.{
  event_item, got, read, taken, delivered, closed, Run, start, step, Connection, after_history,
  produce, deliver,
}
use machine_deck.Logs.Connection.Numbers.{sequences_of, counted, Run-IsNumbered}

-- "one\ntwo\nthree", in two chunks
abbrev sample_chunks : List Bytes
sample_chunks = codes "one\ntw" ∷ codes "o\nthree" ∷ []

chunks-IsChunk : All IsChunk sample_chunks
chunks-IsChunk = (omega arith, (omega arith, tt))

abbrev sample_journal : Journal
sample_journal = record {
  process_of = λ _. finished sample_chunks [] 0;
  run_command = λ _. (true, codes "LoadState=loaded");
  payload_of = λ _. none;
  decode_replace = λ bytes. bytes;
  iso_utc = λ _. codes "2026-01-01T00:00:00+00:00";
  now = 5;
}

loaded_run : ensure_unit sample_journal (codes "machinedeck-demo.service") ≡ ok tt
unfolding ensure_unit
loaded_run = refl

cursor_run : safe_cursor (some (codes "s=1")) ≡ ok (some (codes "s=1"))
unfolding safe_cursor
cursor_run = refl

journal_history-newest_example :
    journal_history sample_journal
      (codes "demo")
      (codes "machinedeck-demo.service")
      2
      none
      (some (codes "s=1"))
    ≡ history_in
        (exit_error (strip []) 0)
        2
        (events_in sample_journal (codes "demo") (concat sample_chunks))
journal_history-newest_example =
    journal_history-newest sample_journal (codes "demo") (codes "machinedeck-demo.service") 2 none
      (some (codes "s=1")) sample_chunks [] 0 loaded_run cursor_run chunks-IsChunk refl

bounded_message-fit_example : bounded_message (97 ∷ 8364 ∷ []) 3 ≡ (
  fit 3 (97 ∷ 8364 ∷ []),
  (ltb 3 (length (encode (97 ∷ 8364 ∷ []))), length (encode (97 ∷ 8364 ∷ []))),
)
bounded_message-fit_example =
    bounded_message-fit (97 ∷ 8364 ∷ []) 3 (omega arith, (omega arith, tt))

abbrev sample_params : QueryParams
sample_params = (codes "history", codes "50") ∷ (codes "services", codes "web,db") ∷ []

abbrev sample_query : LogQuery
sample_query = record {
  history = 50;
  should_follow = true;
  since = none;
  cursor = none;
  services = codes "web" ∷ codes "db" ∷ [];
}

query_run : parse_query (λ _. none) sample_params ≡ ok sample_query
unfolding parse_query
query_run = refl

parse_query-IsServable_example : IsServable sample_query
parse_query-IsServable_example = parse_query-IsServable (λ _. none) sample_params query_run

abbrev sample_event : String → LogEvent
sample_event message = record {
  application_id = codes "demo";
  timestamp = 1;
  source = from_journal;
  stream = unknown_stream;
  message = codes message;
  service = none;
  container_id = none;
  cursor = none;
  sequence = none;
  truncated = false;
  original_size = none;
}

-- an event of the history, then one that is read and sent, and one that is taken and discarded
abbrev sample_history : List LogEvent
sample_history = sample_event "before" ∷ []

abbrev read_connection : Connection
read_connection = produce (sample_event "now") (after_history sample_history)

abbrev sent_connection : Connection
sent_connection =
    deliver (event_item (sample_event "now"))
      (record read_connection { queue = []; hand = got (event_item (sample_event "now")) })

abbrev later_connection : Connection
later_connection = produce (sample_event "later") sent_connection

abbrev held_connection : Connection
held_connection = record later_connection {
  queue = [];
  hand = got (event_item (sample_event "later"));
}

abbrev closed_connection : Connection
closed_connection = record held_connection { is_open = false }

sample-sent : Run sample_history (sample_event "now" ∷ []) sent_connection
unfolding after_history produce
sample-sent =
    step (sample_event "now" ∷ []) []
      (record read_connection { queue = []; hand = got (event_item (sample_event "now")) })
      sent_connection
      (step (sample_event "now" ∷ []) [] read_connection _
        (step [] (sample_event "now" ∷ []) (after_history sample_history) read_connection start
          (read (sample_event "now") (after_history sample_history) refl))
        (taken (event_item (sample_event "now")) [] read_connection refl refl refl))
      (delivered (event_item (sample_event "now")) _ refl refl)

abbrev sample_events : List LogEvent
sample_events = sample_event "now" ∷ sample_event "later" ∷ []

sample-Run : Run sample_history sample_events closed_connection
unfolding after_history produce deliver
sample-Run =
    step sample_events [] held_connection closed_connection
      (step sample_events [] later_connection held_connection
        (step (sample_event "now" ∷ []) (sample_event "later" ∷ []) sent_connection later_connection
          sample-sent (read (sample_event "later") sent_connection refl))
        (taken (event_item (sample_event "later")) [] later_connection refl refl refl))
      (closed held_connection refl)

Run-IsNumbered_example : sequences_of closed_connection.sent ≡ counted closed_connection.sequence
Run-IsNumbered_example = Run-IsNumbered sample_history sample_events closed_connection sample-Run
