-- ===== src/Audit/Walk.antt =====
-- The pages of a query, one after the other: `list` of backend/app/audit/service.py as a client calls
-- it.
use mathlib.Core.Path.{subst}
use mathlib.Core.List.{append_assoc}
use machine_deck.Base.{
  ltb, leb, Bool-cases, nat_eq, string_eq, ◌==◌, length, take, drop, filter, All, length-take,
  length-drop, take-append-drop, ok, raised, ℕ, zero, suc, ◌+◌, ◌≤◌, ◌<◌, String, ◌≡◌, refl, sym,
  ap, ◌∙◌, inl, inr, Bool, true, false, ◌&&◌, Option, none, some, List, [], ◌∷◌, ◌++◌, arith,
}
use machine_deck.Database.{AuditEventRecord}
use machine_deck.Audit.{
  AuditCodec, AuditFilters, selected, sort_events, cursor_of, last_event, page_of, time_valid,
  list_events,
}
use machine_deck.Audit.Order.{HasDistinctKeys}
use machine_deck.Audit.Pages.{all_selected, list_events-resumes}

take-take {ℓ} : {A : Type ℓ} (n : ℕ) (xs : List A) → take n (take (suc n) xs) ≡ take n xs
take-take zero xs = refl
take-take (suc n) [] = refl
take-take (suc n) (x ∷ xs) = ap (λ r. x ∷ r) (take-take n xs)

take-take_one {ℓ} : {A : Type ℓ} (n : ℕ) (xs : List A) → take n (take (n + 1) xs) ≡ take n xs
take-take_one n xs = let e : n + 1 ≡ suc n = omega arith in rw e (take-take n xs)

take_all {ℓ} : {A : Type ℓ} (n : ℕ) (xs : List A) → length xs ≤ n → take n xs ≡ xs
take_all zero [] h = refl
take_all zero (x ∷ xs) h = ground (arith, h)
take_all (suc n) [] h = refl
take_all (suc n) (x ∷ xs) h = ap (λ r. x ∷ r) (take_all n xs (omega (arith, h)))

All-middle {ℓ κ} :
    {A : Type ℓ} (P : A → Type κ) (xs : List A) (y : A) (ys : List A) → All P (xs ++ y ∷ ys) → P y
All-middle P [] y ys h = h.0
All-middle P (x ∷ xs) y ys h = All-middle P xs y ys h.1

-- a list cut behind its first elements
cut_again {ℓ} : {A : Type ℓ} (n : ℕ) (xs ys : List A) → xs ++ ys ≡ (xs ++ take n ys) ++ drop n ys
cut_again n xs ys =
    ap (λ r. xs ++ r) (sym (take-append-drop n ys)) ∙ sym (append_assoc xs (take n ys) (drop n ys))

cut_at_last {ℓ} :
    {A : Type ℓ} (n : ℕ) (xs ys before : List A) (y : A)
    → take n ys ≡ before ++ y ∷ []
    → xs ++ ys ≡ (xs ++ before) ++ y ∷ drop n ys
cut_at_last n xs ys before y h =
    cut_again n xs ys
    ∙ ap (λ r. (xs ++ r) ++ drop n ys) h
    ∙ ap (λ r. r ++ drop n ys) (sym (append_assoc xs before (y ∷ [])))
    ∙ append_assoc (xs ++ before) (y ∷ []) (drop n ys)

filter-true :
    (p : AuditEventRecord → Bool) (rows : List AuditEventRecord)
    → filter (λ row. p row && true) rows ≡ filter p rows
filter-true p [] = refl
filter-true p (row ∷ rows) = ground (arith, filter-true p rows)

module _ (codec : AuditCodec) where
  -- A cursor is not empty, and is read back as it was written.
  abbrev pub IsReadable : AuditEventRecord → Type 0
  IsReadable row =
      ((cursor_of codec row == "") ≡ false)
      × (codec.decode_cursor (cursor_of codec row) ≡ some (row.created_at, row.id))

  -- The events that a client gets which asks for a page, and with its `next_cursor` for the next one
  -- until there is none. The number bounds the pages.
  unfoldable pub walk : ℕ → AuditFilters → List AuditEventRecord → List AuditEventRecord
  walk zero filters rows = []
  walk (suc turns) filters rows = elim (list_events codec filters rows) [
    | raised _ ↦ []
    | ok page ↦ elim page.next_cursor [
      | none ↦ page.events
      | some cursor ↦ page.events ++ walk turns (record filters { cursor = some cursor }) rows
    ]
  ]

  last_event-split :
      (first : AuditEventRecord) (events : List AuditEventRecord)
      → (before : List AuditEventRecord) × (row : AuditEventRecord) × (last_event codec
            (first ∷ events)
          ≡ some row)
        × (first ∷ events ≡ before ++ row ∷ [])
  unfolding last_event
  last_event-split first [] = ([], first, refl, refl)
  last_event-split first (next ∷ events) =
      let (before, row, last, split) = last_event-split next events in
      (first ∷ before, row, last, ap (λ r. first ∷ r) split)

  split_at_last :
      (events : List AuditEventRecord)
      → 1 ≤ length events
      → (before : List AuditEventRecord) × (row : AuditEventRecord) × (last_event codec events
          ≡ some row)
        × (events ≡ before ++ row ∷ [])
  split_at_last [] h = ground (arith, h)
  split_at_last (first ∷ events) h = last_event-split first events

  -- the page of events that fit into it, and of more events
  page_of-last :
      (limit : ℕ) (events : List AuditEventRecord)
      → length events ≤ limit
      → page_of codec limit (take (limit + 1) events)
        ≡ record { events = events; has_more = false; next_cursor = none }
  unfolding page_of
  page_of-last limit events h =
      let whole : take (limit + 1) events ≡ events =
        take_all (limit + 1) events (omega (arith, h)) in
      let fits : ltb limit (length events) ≡ false = ground (arith, h) in
      rw (whole, fits, take_all limit events h) refl

  page_of-more :
      (limit : ℕ) (events : List AuditEventRecord)
      → 1 ≤ limit
      → limit < length events
      → (before : List AuditEventRecord) × (row : AuditEventRecord) × (take limit events
          ≡ before ++ row ∷ [])
        × (page_of codec limit (take (limit + 1) events) ≡ record {
          events = take limit events;
          has_more = true;
          next_cursor = some (cursor_of codec row);
        })
  unfolding page_of
  page_of-more limit events p h =
      let some_taken : 1 ≤ length (take limit events) =
        omega (arith, p, h, length-take limit events) in
      let (before, row, last, split) = split_at_last (take limit events) some_taken in
      let longer : ltb limit (length (take (limit + 1) events)) ≡ true =
        ground (arith, p, h, length-take (limit + 1) events) in
      (before, row, split, rw (longer, take-take_one limit events, last) refl)

  module _ (filters : AuditFilters) (rows : List AuditEventRecord) where
    first-page :
        time_valid codec filters ≡ true
        → list_events codec (record filters { cursor = none }) rows
          ≡ ok (
              page_of codec filters.limit
                (take (filters.limit + 1) (all_selected codec filters rows)))
    unfolding list_events selected
    first-page timely = rw timely (
        ap (λ l. ok (page_of codec filters.limit (take (filters.limit + 1) (sort_events codec l))))
          (filter-true (selected filters) rows))

    walk-last :
        (turns : ℕ) (events : List AuditEventRecord) (cursor : Option String)
        → list_events codec (record filters { cursor = cursor }) rows
          ≡ ok (record { events = events; has_more = false; next_cursor = none })
        → walk (suc turns) (record filters { cursor = cursor }) rows ≡ events
    unfolding walk
    walk-last turns events cursor page = rw (walk, page) refl

    walk-next :
        (turns : ℕ) (events : List AuditEventRecord) (cursor : Option String) (next : String)
        → list_events codec (record filters { cursor = cursor }) rows
          ≡ ok (record { events = events; has_more = true; next_cursor = some next })
        → walk (suc turns) (record filters { cursor = cursor }) rows
          ≡ events ++ walk turns (record filters { cursor = some next }) rows
    unfolding walk
    walk-next turns events cursor next page = rw (walk, page) refl

    walk-older :
        (turns : ℕ) (newer older_rows : List AuditEventRecord) (cursor : Option String)
        → HasDistinctKeys codec rows
        → time_valid codec filters ≡ true
        → All IsReadable (all_selected codec filters rows)
        → 1 ≤ filters.limit
        → all_selected codec filters rows ≡ newer ++ older_rows
        → length older_rows ≤ turns
        → list_events codec (record filters { cursor = cursor }) rows
          ≡ ok (page_of codec filters.limit (take (filters.limit + 1) older_rows))
        → walk (suc turns) (record filters { cursor = cursor }) rows ≡ older_rows
    walk-older zero newer [] cursor d timely readable p split enough page =
        walk-last zero [] cursor (page ∙ ap ok (page_of-last filters.limit [] (omega arith)))
    walk-older zero newer (row ∷ older_rows) cursor d timely readable p split enough page =
        ground (arith, enough)
    walk-older (suc turns) newer older_rows cursor d timely readable p split enough page =
        elim (Bool-cases (leb (length older_rows) filters.limit)) [
          | inl fits ↦
              walk-last (suc turns) older_rows cursor
                (page ∙ ap ok (page_of-last filters.limit older_rows (ground (arith, fits))))
          | inr longer ↦
              let (before, row, last, more) =
                page_of-more filters.limit older_rows p (ground (arith, longer)) in
              let rest : List AuditEventRecord = drop filters.limit older_rows in
              let at_row : all_selected codec filters rows ≡ (newer ++ before) ++ row ∷ rest =
                split ∙ cut_at_last filters.limit newer older_rows before row last in
              let (nonempty, decoded) =
                All-middle IsReadable (newer ++ before) row rest
                  (subst (All IsReadable) at_row readable) in
              let next_page =
                list_events-resumes codec filters rows (newer ++ before) row rest d timely nonempty
                  decoded at_row in
              walk-next (suc turns) (take filters.limit older_rows) cursor (cursor_of codec row)
                (page ∙ ap ok more)
              ∙ ap (λ r. take filters.limit older_rows ++ r)
                  (walk-older turns (newer ++ take filters.limit older_rows) rest
                    (some (cursor_of codec row)) d timely readable p
                    (split ∙ cut_again filters.limit newer older_rows)
                    (omega (arith, p, enough, length-drop filters.limit older_rows)) next_page)
              ∙ take-append-drop filters.limit older_rows
        ]

-- A client that follows `next_cursor` from page to page gets every event that the query selects, in
-- the order of the query, newest first, each once and none else, in at most as many pages as there
-- are events, and one. Where a page has room for an event, no two events share instant and
-- identifier, and the cursor of an event that the query selects is not empty and is read back as it
-- was written.
pub walk-all_selected :
    (codec : AuditCodec) (filters : AuditFilters) (rows : List AuditEventRecord)
    → HasDistinctKeys codec rows
    → time_valid codec filters ≡ true
    → All (IsReadable codec) (all_selected codec filters rows)
    → 1 ≤ filters.limit
    → walk codec
        (suc (length (all_selected codec filters rows)))
        (record filters { cursor = none })
        rows
      ≡ all_selected codec filters rows
walk-all_selected codec filters rows d timely readable p =
    walk-older codec filters rows (length (all_selected codec filters rows)) []
      (all_selected codec filters rows) none d timely readable p refl (omega arith)
      (first-page codec filters rows timely)
