-- ===== src/Logs/Connection/Queue.antt =====
-- The items of the queue, and what putting one into it leaves.

use machine_deck.Base.{
  leb, Bool-cases, length, drop, all, length-append, ℕ, ◌+◌, ◌-◌, ◌≤◌, ◌<◌, ◌≡◌, refl, ap, inl, inr,
  Bool, true, false, ◌&&◌, List, [], ◌∷◌, ◌++◌, arith,
}
use machine_deck.Logs.{LogEvent}
use machine_deck.Logs.Connection.{
  is_last, Envelope, status_connected, log_envelope, warning_dropped, error_envelope, eof_envelope,
  Item, event_item, envelope_item, Hand, empty, got, kept, Connection, log_queue_size,
  enqueue_bounded, numbered_from,
}

abbrev pub is_event : Item → Bool
is_event (event_item _) = true
is_event (envelope_item _) = false

-- an event, or a message after which the loop ends
abbrev pub is_queued : Item → Bool
is_queued (event_item _) = true
is_queued (envelope_item envelope) = is_last envelope

unfoldable pub events_of : List Item → List LogEvent
events_of [] = []
events_of (event_item event ∷ queue) = event ∷ events_of queue
events_of (envelope_item _ ∷ queue) = events_of queue

-- the sum of the counts of the warnings
unfoldable pub warned : List Envelope → ℕ
warned [] = 0
warned (warning_dropped count ∷ sent) = count + warned sent
warned (_ ∷ sent) = warned sent

abbrev pub held : Hand → List Item
held empty = []
held (got item) = item ∷ []
held (kept item) = item ∷ []

-- The number of events that have left the queue: they were sent, counted in a warning, dropped since
-- the last warning, or are in hand.
abbrev pub gone : List LogEvent → Connection → ℕ
gone history c =
    c.sequence - length history + warned c.sent + c.dropped + length (events_of (held c.hand))

pub events_of-append : (xs ys : List Item) → events_of (xs ++ ys) ≡ events_of xs ++ events_of ys
unfolding events_of
events_of-append [] ys = refl
events_of-append (event_item event ∷ xs) ys = ap (λ r. event ∷ r) (events_of-append xs ys)
events_of-append (envelope_item _ ∷ xs) ys = events_of-append xs ys

pub warned-append : (xs ys : List Envelope) → warned (xs ++ ys) ≡ warned xs + warned ys
unfolding warned
warned-append [] ys = omega arith
warned-append (warning_dropped count ∷ xs) ys = ground (arith, warned-append xs ys)
warned-append (status_connected ∷ xs) ys = warned-append xs ys
warned-append (log_envelope _ ∷ xs) ys = warned-append xs ys
warned-append (error_envelope _ ∷ xs) ys = warned-append xs ys
warned-append (eof_envelope _ ∷ xs) ys = warned-append xs ys

pub warned-numbered_from : (n : ℕ) (history : List LogEvent) → warned (numbered_from n history) ≡ 0
unfolding warned numbered_from
warned-numbered_from n [] = refl
warned-numbered_from n (event ∷ history) = warned-numbered_from (n + 1) history

all-append : (p : Item → Bool) (xs ys : List Item) → all p (xs ++ ys) ≡ all p xs && all p ys
all-append p [] ys = refl
all-append p (x ∷ xs) ys = ground (arith, all-append p xs ys)

all-is_queued : (queue : List Item) → all is_event queue ≡ true → all is_queued queue ≡ true
all-is_queued [] h = refl
all-is_queued (event_item event ∷ queue) h = all-is_queued queue h
all-is_queued (envelope_item envelope ∷ queue) h = ground arith

-- what putting an item into a queue of events leaves
abbrev pub Kept : Item → List Item → ℕ → List Item × ℕ → Type 0
Kept item queue dropped (queue', dropped') =
    (events_of queue' ≡ drop (dropped' - dropped) (events_of queue) ++ events_of (item ∷ []))
    × (dropped ≤ dropped')
    × (dropped' - dropped ≤ length (events_of queue))
    × (length queue' ≤ log_queue_size)
    × (all is_event queue' ≡ is_event item)
    × (all is_queued queue' ≡ is_queued item)

dropped-Kept :
    (item : Item) (event : LogEvent) (queue : List Item) (dropped : ℕ)
    → all is_event queue ≡ true
    → length queue + 1 ≤ log_queue_size
    → Kept item (event_item event ∷ queue) dropped (queue ++ item ∷ [], dropped + 1)
unfolding events_of
dropped-Kept item event queue dropped e l =
    let one : dropped + 1 - dropped ≡ 1 = omega arith in
    (
      rw (one, events_of-append queue (item ∷ [])) refl,
      omega arith,
      omega (arith, one),
      omega (arith, l, length-append queue (item ∷ [])),
      ground (arith, all-append is_event queue (item ∷ [])),
      ground (arith, all-append is_queued queue (item ∷ []), all-is_queued queue e),
    )

added-Kept :
    (item : Item) (queue : List Item) (dropped : ℕ)
    → all is_event queue ≡ true
    → length queue < log_queue_size
    → Kept item queue dropped (queue ++ item ∷ [], dropped)
unfolding events_of
added-Kept item queue dropped e l =
    let none_more : dropped - dropped ≡ 0 = omega arith in
    (
      rw (none_more, events_of-append queue (item ∷ [])) refl,
      omega arith,
      omega (arith, none_more),
      omega (arith, l, length-append queue (item ∷ [])),
      ground (arith, all-append is_event queue (item ∷ [])),
      ground (arith, all-append is_queued queue (item ∷ []), all-is_queued queue e),
    )

pub enqueue_bounded-Kept :
    (item : Item) (queue : List Item) (dropped : ℕ)
    → all is_event queue ≡ true
    → length queue ≤ log_queue_size
    → Kept item queue dropped (enqueue_bounded item (queue, dropped))
unfolding enqueue_bounded
enqueue_bounded-Kept item [] dropped e l = added-Kept item [] dropped e (omega arith)
enqueue_bounded-Kept item (envelope_item envelope ∷ queue) dropped e l = ground arith
enqueue_bounded-Kept item (event_item event ∷ queue) dropped e l =
    elim (Bool-cases (leb log_queue_size (length (event_item event ∷ queue)))) [
      | inl full ↦ rw full (dropped-Kept item event queue dropped e (omega (arith, l)))
      | inr room ↦ rw room (added-Kept item (event_item event ∷ queue) dropped e (ground arith))
    ]
