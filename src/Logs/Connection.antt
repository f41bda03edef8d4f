-- ===== src/Logs/Connection.antt =====
-- The connection of `application_logs` in backend/app/api/log_websocket.py: its queue, its messages
-- and the order in which its tasks may run. A task runs between two of its awaits without another
-- one, so that each step below is what happens between two awaits. A message counts as sent when it
-- is handed to the socket; one that cannot be sent ends the connection.
pub mod Queue
pub mod Accounting
pub mod Numbers
use machine_deck.Base.{
  Equality, ltb, leb, if◌then◌else◌, ltb→lt, leb→le, Bool-cases, Option-cases, nat_beq_iff, nat_eq,
  string_eq, ◌==◌, option_beq, option_beq_iff, is_none, is_some, or_else, length, take, drop, any,
  all, filter, find?, All, length-append, length-take, length-drop, take-append-drop, All-append,
  drop-append, drop-nil, drop-drop, All-filter, length-filter, find?-some, contains, Outcome, ok,
  raised, is_ok, Exec, pure, raise, lift, gets, modify, raise_if, continue, ◌>>=◌, ◌>>◌,
  handle_errors, continue-keeps, continue-raised, continue-eq-ok, Returns, continue-Returns, Ends,
  continue-Ends, ℕ, zero, suc, ◌+◌, ◌-◌, ◌*◌, ◌/◌, ◌%◌, ◌^◌, ◌≤◌, ◌<◌, min, String, ◌≡◌, refl, sym,
  ap, ◌∙◌, ◌≢◌, ◌↔◌, ◌⊎◌, inl, inr, Bool, true, false, not, ◌&&◌, ◌||◌, Option, none, some, List,
  [], ◌∷◌, ◌++◌, map, arith, eq_iff, eq_refl,
}
use machine_deck.Text.{
  Text, codes, text_beq, text_beq_iff, text_eq, is_space, is_digit, lower_char, lower, lstrip,
  rstrip, strip_by, strip, strip_quotes, partition, rpartition, split_parts, split, join_rest, join,
  starts_with, all_digits, join-split,
}
use machine_deck.Logs.{
  LogSource, from_journal, from_docker, LogStream, out_stream, error_stream, unknown_stream,
  LogEvent, max_log_line_bytes,
}

abbrev pub log_queue_size : ℕ
log_queue_size = 1000

pub data EofReason : Type 0 where
  history_complete log_source_closed : EofReason

-- `LogEnvelope`; the sequence stands in the event of a log.
pub data Envelope : Type 0 where
  status_connected : Envelope
  log_envelope : LogEvent → Envelope
  warning_dropped : ℕ → Envelope
  error_envelope : Text → Envelope
  eof_envelope : EofReason → Envelope

-- what stands in the queue
pub data Item : Type 0 where
  event_item : LogEvent → Item
  envelope_item : Envelope → Item

-- The item that has left the queue: none, the result of the task `queued`, or the item that waits
-- for the warning before it to be sent.
pub data Hand : Type 0 where
  empty : Hand
  got kept : Item → Hand

-- The queue with its oldest item first, the item in hand, `dropped[0]`, the sequence, what was sent
-- with the oldest message first, whether the producer still reads, and whether the loop goes on.
pub record Connection : Type 0 where
  pub queue : List Item
  pub hand : Hand
  pub dropped : ℕ
  pub sequence : ℕ
  pub sent : List Envelope
  pub producing : Bool
  pub is_open : Bool

unfoldable pub enqueue_bounded : Item → List Item × ℕ → List Item × ℕ
enqueue_bounded item (queue, dropped) =
    if leb log_queue_size (length queue)
    then (drop 1 queue ++ item ∷ [], dropped + 1)
    else (queue ++ item ∷ [], dropped)

abbrev enqueued : Item → Connection → Connection
enqueued item c =
    let (queue, dropped) = enqueue_bounded item (c.queue, c.dropped) in
    record c { queue = queue; dropped = dropped }

-- `event.model_copy(update={"sequence": sequence})`
abbrev pub numbered : ℕ → LogEvent → LogEvent
numbered sequence event = record event { sequence = some sequence }

-- the history, numbered from the number given
unfoldable pub numbered_from : ℕ → List LogEvent → List Envelope
numbered_from sequence [] = []
numbered_from sequence (event ∷ events) =
    log_envelope (numbered (sequence + 1) event) ∷ numbered_from (sequence + 1) events

-- after the history has been sent
unfoldable pub after_history : List LogEvent → Connection
unfolding numbered_from
after_history history = record {
  queue = [];
  hand = empty;
  dropped = 0;
  sequence = length history;
  sent = status_connected ∷ numbered_from 0 history;
  producing = true;
  is_open = true;
}

-- the last message where the client does not follow
unfoldable pub without_following : List LogEvent → List Envelope
unfolding after_history
without_following history = (after_history history).sent ++ eof_envelope history_complete ∷ []

-- `next((event.cursor for event in reversed(history) if event.cursor), requested_cursor)`
unfoldable pub resume_cursor : List LogEvent → Option Text → Option Text
resume_cursor [] requested = requested
resume_cursor (event ∷ events) requested =
    resume_cursor events
      (elim event.cursor [ some (c ∷ cursor) ↦ some (c ∷ cursor) | _ ↦ requested ])

-- the producer: an event of the reader, and its end
unfoldable pub produce : LogEvent → Connection → Connection
unfolding enqueue_bounded
produce event c = enqueued (event_item event) c

unfoldable pub finish : Envelope → Connection → Connection
unfolding enqueue_bounded
finish envelope c = record (enqueued (envelope_item envelope) c) { producing = false }

abbrev is_last : Envelope → Bool
is_last (error_envelope _) = true
is_last (eof_envelope _) = true
is_last _ = false

-- sending the item in hand
unfoldable pub send_item : Item → Connection → Connection
send_item (event_item event) c = record c {
  hand = empty;
  sequence = c.sequence + 1;
  sent = c.sent ++ log_envelope (numbered (c.sequence + 1) event) ∷ [];
}
send_item (envelope_item envelope) c = record c {
  hand = empty;
  sent = c.sent ++ envelope ∷ [];
  is_open = not (is_last envelope);
}

-- `if dropped[0]`: the warning, with the item that waits for it
abbrev pub warn : Item → Connection → Connection
warn item c = record c {
  hand = kept item;
  dropped = 0;
  sent = c.sent ++ warning_dropped c.dropped ∷ [];
}

-- the loop with the item that it got: the warning where messages were dropped, or else the item
unfoldable pub deliver : Item → Connection → Connection
unfolding send_item
deliver item c = if c.dropped == 0 then send_item item c else warn item c

-- What may happen: the reader gives an event, ends or fails; the task `queued` takes an item from
-- the queue; the loop goes on with this item, or with the item after the warning is sent; the session
-- ends or the client leaves, and what the loop has in hand is discarded. The item is in the hand of
-- the closed connection then. A step is marked with the event that was read.
pub data Step : List LogEvent → Connection → Connection → Type 0 where
  read :
      (event : LogEvent) (c : Connection)
      → c.producing ≡ true
      → Step (event ∷ []) c (produce event c)
  source_closed :
      (c : Connection) → c.producing ≡ true → Step [] c (finish (eof_envelope log_source_closed) c)
  source_failed :
      (message : Text) (c : Connection)
      → c.producing ≡ true
      → Step [] c (finish (error_envelope message) c)
  taken :
      (item : Item) (rest : List Item) (c : Connection)
      → c.queue ≡ item ∷ rest
      → c.hand ≡ empty
      → c.is_open ≡ true
      → Step [] c (record c { queue = rest; hand = got item })
  delivered :
      (item : Item) (c : Connection)
      → c.hand ≡ got item
      → c.is_open ≡ true
      → Step [] c (deliver item c)
  resumed :
      (item : Item) (c : Connection)
      → c.hand ≡ kept item
      → c.is_open ≡ true
      → Step [] c (send_item item c)
  closed : (c : Connection) → c.is_open ≡ true → Step [] c (record c { is_open = false })

-- The runs of a connection after its history, with the events that were read.
pub data Run (history : List LogEvent) : List LogEvent → Connection → Type 0 where
  start : Run history [] (after_history history)
  step :
      (produced events : List LogEvent) (c c' : Connection)
      → Run history produced c
      → Step events c c'
      → Run history (produced ++ events) c'
