-- ===== src/Logs/Adapters/Newest.antt =====
-- The deque of `history` against the newest events.
use mathlib.Core.List.{append-nil, append_assoc}
use machine_deck.Base.{
  ltb, ltb→lt, Bool-cases, length, drop, length-append, length-drop, drop-append, drop-drop, ℕ, ◌+◌,
  ◌-◌, ◌≤◌, ◌≡◌, refl, sym, ap, ◌∙◌, inl, inr, List, [], ◌∷◌, ◌++◌, arith,
}
use machine_deck.Logs.{LogEvent}
use machine_deck.Logs.Lines.{Line}
use machine_deck.Logs.Adapters.{append_bounded, collect, parsed}

-- the last ones of a list
abbrev pub newest {ℓ} : {A : Type ℓ} → ℕ → List A → List A
newest limit events = drop (length events - limit) events

module _ {ℓ} {A : Type ℓ} where
  -- Only the newest events matter for what is newest later.
  pub newest-append :
      (limit : ℕ) (xs ys : List A) → newest limit (newest limit xs ++ ys) ≡ newest limit (xs ++ ys)
  newest-append limit xs ys =
      let k : ℕ = length xs - limit in
      let j : ℕ = length (drop k (xs ++ ys)) - limit in
      let sum : k + j ≡ length (xs ++ ys) - limit =
        omega (arith, length-append xs ys, length-drop k (xs ++ ys)) in
      rw (sym (drop-append k xs ys (omega arith)), drop-drop j k (xs ++ ys), sum) refl

  append_bounded-newest :
      (limit : ℕ) (events : List A) (event : A)
      → length events ≤ limit
      → append_bounded limit events event ≡ newest limit (events ++ event ∷ [])
  unfolding append_bounded
  append_bounded-newest limit events event h =
      let longer : List A = events ++ event ∷ [] in
      let size : length longer ≡ length events + 1 = length-append events (event ∷ []) in
      elim (Bool-cases (ltb limit (length longer))) [
        | inl t ↦
            let one : length longer - limit ≡ 1 =
              omega (arith, h, size, ltb→lt limit (length longer) t) in
            rw (t, one) refl
        | inr f ↦
            let none_more : length longer - limit ≡ 0 = ground (arith, size) in
            rw (f, none_more) refl
      ]

  length-newest : (limit : ℕ) (events : List A) → length (newest limit events) ≤ limit
  length-newest limit events = omega (arith, length-drop (length events - limit) events)

collect-newest :
    (limit : ℕ) (parse : Line → LogEvent) (lines : List Line) (events : List LogEvent)
    → length events ≤ limit
    → collect limit parse lines events ≡ newest limit (events ++ parsed parse lines)
unfolding collect parsed
collect-newest limit parse [] events h =
    let small : length events - limit ≡ 0 = omega (arith, h) in rw (append-nil events, small) refl
collect-newest limit parse (line ∷ lines) events h =
    let next : List LogEvent = newest limit (events ++ parse line ∷ []) in
    let added : collect limit parse lines next
        ≡ newest limit (events ++ parse line ∷ parsed parse lines) =
      collect-newest limit parse lines next (length-newest limit (events ++ parse line ∷ []))
      ∙ newest-append limit (events ++ parse line ∷ []) (parsed parse lines)
      ∙ ap (newest limit) (append_assoc events (parse line ∷ []) (parsed parse lines)) in
    ground (
      arith,
      append_bounded-newest limit events (parse line) h,
      added,
      collect-newest limit parse lines events h,
    )

-- What is collected is the newest events of the lines that are not blank, in their order, and no
-- more of them than the limit.
pub collect-parsed :
    (limit : ℕ) (parse : Line → LogEvent) (lines : List Line)
    → collect limit parse lines [] ≡ newest limit (parsed parse lines)
collect-parsed limit parse lines = collect-newest limit parse lines [] (omega arith)
