-- ===== src/Logs/Connection/Numbers.antt =====
-- The sequence numbers of the logs that were sent.
use mathlib.Core.List.{append-nil, append_assoc}
use machine_deck.Base.{
  Bool-cases, nat_eq, string_eq, ◌==◌, length, all, ℕ, zero, suc, ◌+◌, ◌≡◌, refl, sym, ap, ◌∙◌, inl,
  inr, true, Option, some, List, [], ◌∷◌, ◌++◌, arith,
}
use machine_deck.Logs.{LogEvent}
use machine_deck.Logs.Connection.{
  Envelope, status_connected, log_envelope, warning_dropped, error_envelope, eof_envelope, Item,
  event_item, envelope_item, Step, read, source_closed, source_failed, taken, delivered, resumed,
  closed, Run, start, step, Connection, numbered, numbered_from, after_history, produce, finish,
  send_item, deliver,
}
use machine_deck.Logs.Connection.Queue.{is_queued, held}
use machine_deck.Logs.Connection.Accounting.{Run-IsAccounted}

abbrev pub sequences_of : List Envelope → List (Option ℕ)
sequences_of [] = []
sequences_of (log_envelope event ∷ sent) = event.sequence ∷ sequences_of sent
sequences_of (_ ∷ sent) = sequences_of sent

-- the numbers from one to the given one
abbrev pub counted : ℕ → List (Option ℕ)
counted zero = []
counted (suc n) = counted n ++ some (suc n) ∷ []

counted-add_one : (n : ℕ) → counted (n + 1) ≡ counted n ++ some (n + 1) ∷ []
counted-add_one n = let e : n + 1 ≡ suc n = omega arith in rw e refl

sequences_of-append :
    (xs ys : List Envelope) → sequences_of (xs ++ ys) ≡ sequences_of xs ++ sequences_of ys
sequences_of-append [] ys = refl
sequences_of-append (log_envelope event ∷ xs) ys =
    ap (λ r. event.sequence ∷ r) (sequences_of-append xs ys)
sequences_of-append (status_connected ∷ xs) ys = sequences_of-append xs ys
sequences_of-append (warning_dropped _ ∷ xs) ys = sequences_of-append xs ys
sequences_of-append (error_envelope _ ∷ xs) ys = sequences_of-append xs ys
sequences_of-append (eof_envelope _ ∷ xs) ys = sequences_of-append xs ys

-- the numbers after the first ones
numbered_from-counted :
    (n : ℕ) (history : List LogEvent)
    → counted n ++ sequences_of (numbered_from n history) ≡ counted (n + length history)
unfolding numbered_from
numbered_from-counted n [] = let e : n + 0 ≡ n = omega arith in rw (e, append-nil (counted n)) refl
numbered_from-counted n (event ∷ history) =
    let e : n + suc (length history) ≡ n + 1 + length history = omega arith in
    rw
      (
        e,
        sym (numbered_from-counted (n + 1) history),
        counted-add_one n,
        append_assoc (counted n) (some (n + 1) ∷ []) (sequences_of (numbered_from (n + 1) history)),
      )
      refl

abbrev IsNumbered : Connection → Type 0
IsNumbered c = sequences_of c.sent ≡ counted c.sequence

send_item-IsNumbered :
    (item : Item) (c : Connection)
    → is_queued item ≡ true
    → IsNumbered c
    → IsNumbered (send_item item c)
unfolding send_item
send_item-IsNumbered (event_item event) c u h =
    rw
      (
        sequences_of-append c.sent (log_envelope (numbered (c.sequence + 1) event) ∷ []),
        counted-add_one c.sequence,
        h,
      )
      refl
send_item-IsNumbered (envelope_item (error_envelope message)) c u h =
    rw (sequences_of-append c.sent (error_envelope message ∷ []), append-nil (sequences_of c.sent))
      h
send_item-IsNumbered (envelope_item (eof_envelope reason)) c u h =
    rw (sequences_of-append c.sent (eof_envelope reason ∷ []), append-nil (sequences_of c.sent)) h
send_item-IsNumbered (envelope_item status_connected) c u h = ground arith
send_item-IsNumbered (envelope_item (log_envelope event)) c u h = ground arith
send_item-IsNumbered (envelope_item (warning_dropped count)) c u h = ground arith

deliver-IsNumbered :
    (item : Item) (c : Connection)
    → is_queued item ≡ true
    → IsNumbered c
    → IsNumbered (deliver item c)
unfolding deliver
deliver-IsNumbered item c u h = elim (Bool-cases (c.dropped == 0)) [
  | inl nothing_dropped ↦ rw nothing_dropped (send_item-IsNumbered item c u h)
  | inr some_dropped ↦
      rw
        (
          some_dropped,
          sequences_of-append c.sent (warning_dropped c.dropped ∷ []),
          append-nil (sequences_of c.sent),
        )
        h
]

Step-IsNumbered :
    (events : List LogEvent) (c c' : Connection)
    → Step events c c'
    → all is_queued (held c.hand) ≡ true
    → IsNumbered c
    → IsNumbered c'
unfolding produce finish
Step-IsNumbered events c c' (read event _ p) a h = h
Step-IsNumbered events c c' (source_closed _ p) a h = h
Step-IsNumbered events c c' (source_failed message _ p) a h = h
Step-IsNumbered events c c' (taken item rest _ t n o) a h = h
Step-IsNumbered events c c' (delivered item _ t o) a h =
    let queued : all is_queued (item ∷ []) ≡ true =
      ap (λ hand. all is_queued (held hand)) (sym t) ∙ a in
    deliver-IsNumbered item c (ground (arith, queued)) h
Step-IsNumbered events c c' (resumed item _ t o) a h =
    let queued : all is_queued (item ∷ []) ≡ true =
      ap (λ hand. all is_queued (held hand)) (sym t) ∙ a in
    send_item-IsNumbered item c (ground (arith, queued)) h
Step-IsNumbered events c c' (closed _ o) a h = h

-- After any run of a connection, the logs that were sent, those of the history included, carry the
-- numbers from one on in their order, and the last of them is the sequence of the connection.
pub Run-IsNumbered :
    (history produced : List LogEvent) (c : Connection)
    → Run history produced c
    → sequences_of c.sent ≡ counted c.sequence
unfolding after_history
Run-IsNumbered history produced c start =
    let e : 0 + length history ≡ length history = omega arith in
    numbered_from-counted 0 history ∙ ap counted e
Run-IsNumbered history produced c (step before events c1 _ run s) =
    let (_, _, _, _, _, a, _) = Run-IsAccounted history before c1 run in
    Step-IsNumbered events c1 c s a (Run-IsNumbered history before c1 run)
