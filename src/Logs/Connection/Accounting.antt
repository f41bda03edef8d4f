-- ===== src/Logs/Connection/Accounting.antt =====
-- Every event that the reader gives is accounted for.
use machine_deck.Logs.Connection.Queue.{
  is_event, is_queued, events_of, warned, held, gone, warned-append, warned-numbered_from,
  enqueue_bounded-Kept,
}
use mathlib.Core.List.{append-nil}
use machine_deck.Base.{
  Bool-cases, nat_eq, string_eq, ◌==◌, length, drop, all, length-append, length-drop, drop-append,
  drop-nil, drop-drop, ℕ, ◌+◌, ◌-◌, ◌≤◌, ◌≡◌, refl, sym, ap, ◌∙◌, inl, inr, Bool, true, false, not,
  ◌||◌, List, [], ◌∷◌, ◌++◌, arith,
}
use machine_deck.Logs.{LogEvent}
use machine_deck.Logs.Connection.{
  enqueued, is_last, log_source_closed, Envelope, status_connected, log_envelope, warning_dropped,
  error_envelope, eof_envelope, Item, event_item, envelope_item, empty, got, Step, read,
  source_closed, source_failed, taken, delivered, resumed, closed, Run, start, step, Connection,
  log_queue_size, enqueue_bounded, numbered, after_history, produce, finish, send_item, warn,
  deliver,
}

abbrev pub IsAccounted : List LogEvent → List LogEvent → Connection → Type 0
IsAccounted history produced c =
    (events_of c.queue ≡ drop (gone history c) produced)
    × (gone history c ≤ length produced)
    × (length history ≤ c.sequence)
    × (length c.queue ≤ log_queue_size)
    × (all is_queued c.queue ≡ true)
    × (all is_queued (held c.hand) ≡ true)
    × (not c.producing || all is_event c.queue ≡ true)

start-IsAccounted : (history : List LogEvent) → IsAccounted history [] (after_history history)
unfolding after_history events_of warned
start-IsAccounted history =
    let none_gone : gone history (after_history history) ≡ 0 =
      omega (arith, warned-numbered_from 0 history) in
    (
      sym (drop-nil (gone history (after_history history))),
      omega (arith, none_gone),
      omega arith,
      omega arith,
      refl,
      refl,
      refl,
    )

enqueued-IsAccounted :
    (history produced : List LogEvent) (item : Item) (c : Connection) (b : Bool)
    → c.producing ≡ true
    → is_queued item ≡ true
    → not b || is_event item ≡ true
    → IsAccounted history produced c
    → IsAccounted history
        (produced ++ events_of (item ∷ []))
        (record (enqueued item c) { producing = b })
enqueued-IsAccounted history produced item c b p u v (q, k, h, l, a, b', e) =
    let before : ℕ = c.dropped in
    let after : ℕ = (enqueue_bounded item (c.queue, c.dropped)).1 in
    let n : ℕ = gone history c in
    let m : ℕ =
      c.sequence - length history + warned c.sent + after + length (events_of (held c.hand)) in
    let events : all is_event c.queue ≡ true = ground (arith, p, e) in
    let (q', le, fits, l', e', a') = enqueue_bounded-Kept item c.queue before events l in
    let left : length (events_of c.queue) ≡ length produced - n =
      ap length q ∙ length-drop n produced in
    let sum : n + (after - before) ≡ m = omega (arith, le) in
    let within : m ≤ length produced = omega (arith, le, fits, left, k) in
    (
      q'
          ∙ ap (λ xs. drop (after - before) xs ++ events_of (item ∷ [])) q
          ∙ ap (λ xs. xs ++ events_of (item ∷ [])) (drop-drop (after - before) n produced)
          ∙ ap (λ i. drop i produced ++ events_of (item ∷ [])) sum
          ∙ sym (drop-append m produced (events_of (item ∷ [])) within),
      omega (arith, within, length-append produced (events_of (item ∷ []))),
      h,
      l',
      a' ∙ u,
      b',
      rw e' v,
    )

-- what sending an item leaves of the numbers, and of the count of warnings
send_item-balance :
    (item : Item) (c : Connection)
    → is_queued item ≡ true
    → ((send_item item c).queue ≡ c.queue)
      × ((send_item item c).producing ≡ c.producing)
      × ((send_item item c).sequence ≡ c.sequence + length (events_of (item ∷ [])))
      × (warned (send_item item c).sent + (send_item item c).dropped ≡ warned c.sent + c.dropped)
      × ((send_item item c).hand ≡ empty)
unfolding send_item events_of warned
send_item-balance (event_item event) c u =
    let sent = warned-append c.sent (log_envelope (numbered (c.sequence + 1) event) ∷ []) in
    (refl, refl, refl, omega (arith, sent), refl)
send_item-balance (envelope_item (error_envelope message)) c u = (
  refl,
  refl,
  omega arith,
  omega (arith, warned-append c.sent (error_envelope message ∷ [])),
  refl,
)
send_item-balance (envelope_item (eof_envelope reason)) c u =
    (refl, refl, omega arith, omega (arith, warned-append c.sent (eof_envelope reason ∷ [])), refl)
send_item-balance (envelope_item status_connected) c u = ground arith
send_item-balance (envelope_item (log_envelope event)) c u = ground arith
send_item-balance (envelope_item (warning_dropped count)) c u = ground arith

-- the events of the queue after its first item
events_of-rest :
    (item : Item) (rest : List Item)
    → (events_of rest ≡ drop (length (events_of (item ∷ []))) (events_of (item ∷ rest)))
      × (length (events_of (item ∷ [])) ≤ length (events_of (item ∷ rest)))
unfolding events_of
events_of-rest (event_item event) rest = (refl, omega arith)
events_of-rest (envelope_item envelope) rest = (refl, omega arith)

taken-IsAccounted :
    (history produced : List LogEvent) (item : Item) (rest : List Item) (c : Connection)
    → c.queue ≡ item ∷ rest
    → c.hand ≡ empty
    → IsAccounted history produced c
    → IsAccounted history produced (record c { queue = rest; hand = got item })
unfolding events_of
taken-IsAccounted history produced item rest c t none_held (q, k, h, l, a, b, e) =
    let n : ℕ = gone history c in
    let m : ℕ = length (events_of (item ∷ [])) in
    let after : Connection = record c { queue = rest; hand = got item } in
    let queued : all is_queued (item ∷ rest) ≡ true = ap (all is_queued) (sym t) ∙ a in
    let events : not c.producing || all is_event (item ∷ rest) ≡ true =
      ap (λ xs. not c.producing || all is_event xs) (sym t) ∙ e in
    let kept_events : events_of (item ∷ rest) ≡ drop n produced = ap events_of (sym t) ∙ q in
    let size : length (events_of (item ∷ rest)) ≡ length produced - n =
      ap length kept_events ∙ length-drop n produced in
    let (others, one) = events_of-rest item rest in
    let free : length (events_of (held c.hand)) ≡ 0 =
      ap (λ hand. length (events_of (held hand))) none_held in
    let left : gone history after ≡ n + m = omega (arith, free) in
    (
      rw left (others ∙ ap (drop m) kept_events ∙ drop-drop m n produced),
      omega (arith, left, one, size, k),
      h,
      omega (arith, l, ap length t),
      ground (arith, queued),
      ground (arith, queued),
      ground (arith, events),
    )

-- A connection that agrees with another one in what is counted is accounted for as the other is.
same-IsAccounted :
    (history produced : List LogEvent) (c c' : Connection)
    → c'.queue ≡ c.queue
    → c'.producing ≡ c.producing
    → length history ≤ c'.sequence
    → gone history c' ≡ gone history c
    → all is_queued (held c'.hand) ≡ true
    → IsAccounted history produced c
    → IsAccounted history produced c'
same-IsAccounted history produced c c' same_queue same_producing le same_gone b'
      (q, k, h, l, a, b, e) =
    (
      rw (same_queue, same_gone) q,
      rw same_gone k,
      le,
      rw same_queue l,
      rw same_queue a,
      b',
      rw (same_producing, same_queue) e,
    )

sent-IsAccounted :
    (history produced : List LogEvent) (item : Item) (c : Connection)
    → held c.hand ≡ item ∷ []
    → IsAccounted history produced c
    → IsAccounted history produced (send_item item c)
unfolding events_of
sent-IsAccounted history produced item c in_hand (q, k, h, l, a, b, e) =
    let first : is_queued item ≡ true = ground (arith, ap (all is_queued) (sym in_hand) ∙ b) in
    let (q', p', s', b', n') = send_item-balance item c first in
    let before : length (events_of (held c.hand)) ≡ length (events_of (item ∷ [])) =
      ap (λ xs. length (events_of xs)) in_hand in
    let after : length (events_of (held (send_item item c).hand)) ≡ 0 =
      ap (λ hand. length (events_of (held hand))) n' in
    same-IsAccounted history produced c (send_item item c) q' p' (omega (arith, s', h))
      (omega (arith, s', b', h, before, after)) (ap (λ hand. all is_queued (held hand)) n')
      (q, k, h, l, a, b, e)

warn-IsAccounted :
    (history produced : List LogEvent) (item : Item) (c : Connection)
    → c.hand ≡ got item
    → IsAccounted history produced c
    → IsAccounted history produced (warn item c)
unfolding warned
warn-IsAccounted history produced item c in_hand (q, k, h, l, a, b, e) =
    let same : length (events_of (held c.hand)) ≡ length (events_of (item ∷ [])) =
      ap (λ hand. length (events_of (held hand))) in_hand in
    same-IsAccounted history produced c (warn item c) refl refl h
      (omega (arith, same, warned-append c.sent (warning_dropped c.dropped ∷ [])))
      (ap (λ hand. all is_queued (held hand)) (sym in_hand) ∙ b) (q, k, h, l, a, b, e)

delivered-IsAccounted :
    (history produced : List LogEvent) (item : Item) (c : Connection)
    → c.hand ≡ got item
    → IsAccounted history produced c
    → IsAccounted history produced (deliver item c)
unfolding deliver warned
delivered-IsAccounted history produced item c in_hand i = elim (Bool-cases (c.dropped == 0)) [
  | inl nothing_dropped ↦
      rw nothing_dropped (sent-IsAccounted history produced item c (ap held in_hand) i)
  | inr some_dropped ↦ rw some_dropped (warn-IsAccounted history produced item c in_hand i)
]

finish-IsAccounted :
    (history produced : List LogEvent) (envelope : Envelope) (c : Connection)
    → c.producing ≡ true
    → is_last envelope ≡ true
    → IsAccounted history produced c
    → IsAccounted history (produced ++ []) (finish envelope c)
unfolding finish events_of
finish-IsAccounted history produced envelope c p u i =
    enqueued-IsAccounted history produced (envelope_item envelope) c false p u refl i

Step-IsAccounted :
    (history produced events : List LogEvent) (c c' : Connection)
    → Step events c c'
    → IsAccounted history produced c
    → IsAccounted history (produced ++ events) c'
unfolding produce events_of
Step-IsAccounted history produced events c c' (read event _ p) i =
    enqueued-IsAccounted history produced (event_item event) c c.producing p refl (ground arith) i
Step-IsAccounted history produced events c c' (source_closed _ p) i =
    finish-IsAccounted history produced (eof_envelope log_source_closed) c p refl i
Step-IsAccounted history produced events c c' (source_failed message _ p) i =
    finish-IsAccounted history produced (error_envelope message) c p refl i
Step-IsAccounted history produced events c c' (taken item rest _ t n o) i =
    rw (append-nil produced) (taken-IsAccounted history produced item rest c t n i)
Step-IsAccounted history produced events c c' (delivered item _ t o) i =
    rw (append-nil produced) (delivered-IsAccounted history produced item c t i)
Step-IsAccounted history produced events c c' (resumed item _ t o) i =
    rw (append-nil produced) (sent-IsAccounted history produced item c (ap held t) i)
Step-IsAccounted history produced events c c' (closed _ o) i = rw (append-nil produced) i

pub Run-IsAccounted :
    (history produced : List LogEvent) (c : Connection)
    → Run history produced c
    → IsAccounted history produced c
Run-IsAccounted history produced c start = start-IsAccounted history
Run-IsAccounted history produced c (step before events c1 _ run s) =
    Step-IsAccounted history before events c1 c s (Run-IsAccounted history before c1 run)

-- After any run the queue holds at most 1000 items, whatever the reader gives.
pub length-Run :
    (history produced : List LogEvent) (c : Connection)
    → Run history produced c
    → length c.queue ≤ log_queue_size
length-Run history produced c run =
    let (_, _, _, l, _, _, _) = Run-IsAccounted history produced c run in l
