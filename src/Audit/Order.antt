-- ===== src/Audit/Order.antt =====
-- The order of the events of the audit log: what `ORDER BY` gives, before and after a condition.
use machine_deck.Base.{
  if◌then◌else◌, Bool-cases, filter, All, ◌≡◌, refl, ap, ◌∙◌, inl, inr, Bool, true, false, ◌||◌,
  List, [], ◌∷◌, ◌++◌, arith,
}
use machine_deck.Database.{AuditEventRecord}
use machine_deck.Audit.{AuditCodec, event_key, key_before, insert_event, sort_events}

module _ (codec : AuditCodec) where
  abbrev pub older : AuditEventRecord → AuditEventRecord → Bool
  older a b = key_before codec (event_key codec a) (event_key codec b)

  older_trans : (a b c : AuditEventRecord) → older a b ≡ true → older b c ≡ true → older a c ≡ true
  unfolding key_before
  older_trans a b c h k = ground arith

  -- newest first, and no two events under one key
  abbrev pub Descending : List AuditEventRecord → Type 0
  Descending [] = Unit
  Descending (row ∷ rows) = All (λ r. older r row ≡ true) rows × Descending rows

  -- No two events have the same key.
  abbrev pub HasDistinctKeys : List AuditEventRecord → Type 0
  HasDistinctKeys [] = Unit
  HasDistinctKeys (row ∷ rows) =
      All (λ r. (older r row || older row r) ≡ true) rows × HasDistinctKeys rows

  All-if :
      (P : AuditEventRecord → Type 0) (b : Bool) (row : AuditEventRecord)
      (xs ys : List AuditEventRecord)
      → All P xs
      → All P ys
      → All P (if b then xs else ys)
  All-if P true row xs ys h k = h
  All-if P false row xs ys h k = k

  insert_event-All :
      (P : AuditEventRecord → Type 0) (row : AuditEventRecord) (rows : List AuditEventRecord)
      → P row
      → All P rows
      → All P (insert_event codec row rows)
  unfolding insert_event
  insert_event-All P row [] p h = (p, tt)
  insert_event-All P row (r ∷ rows) p (q, h) =
      All-if P (older row r) row _ _ (q, insert_event-All P row rows p h) (p, (q, h))

  sort_events-All :
      (P : AuditEventRecord → Type 0) (rows : List AuditEventRecord)
      → All P rows
      → All P (sort_events codec rows)
  unfolding sort_events
  sort_events-All P [] h = tt
  sort_events-All P (row ∷ rows) (p, h) =
      insert_event-All P row (sort_events codec rows) p (sort_events-All P rows h)

  All-older :
      (a b : AuditEventRecord) (rows : List AuditEventRecord)
      → older a b ≡ true
      → All (λ r. older r a ≡ true) rows
      → All (λ r. older r b ≡ true) rows
  All-older a b [] h k = tt
  All-older a b (r ∷ rows) h (p, k) = (older_trans r a b p h, All-older a b rows h k)

  Descending-if :
      (b : Bool) (xs ys : List AuditEventRecord)
      → (b ≡ true → Descending xs)
      → (b ≡ false → Descending ys)
      → Descending (if b then xs else ys)
  Descending-if true xs ys h k = h refl
  Descending-if false xs ys h k = k refl

  insert_event-Descending :
      (row : AuditEventRecord) (rows : List AuditEventRecord)
      → Descending rows
      → All (λ r. (older r row || older row r) ≡ true) rows
      → Descending (insert_event codec row rows)
  unfolding insert_event
  insert_event-Descending row [] d distinct = (tt, tt)
  insert_event-Descending row (r ∷ rows) (below, d) (q, distinct) =
      Descending-if (older row r) _ _
        (λ h. (
          insert_event-All (λ e. older e r ≡ true) row rows h below,
          insert_event-Descending row rows d distinct,
        ))
        (λ h.
          let r_older : older r row ≡ true = ground (arith, q, h) in
          ((r_older, All-older r row rows r_older below), (below, d)))

  pub sort_events-Descending :
      (rows : List AuditEventRecord) → HasDistinctKeys rows → Descending (sort_events codec rows)
  unfolding sort_events
  sort_events-Descending [] d = tt
  sort_events-Descending (row ∷ rows) (distinct, d) =
      insert_event-Descending row _ (sort_events-Descending rows d)
        (sort_events-All _ rows distinct)

  insert_event-first :
      (row : AuditEventRecord) (rows : List AuditEventRecord)
      → All (λ r. older row r ≡ false) rows
      → insert_event codec row rows ≡ row ∷ rows
  unfolding insert_event
  insert_event-first row [] h = refl
  insert_event-first row (r ∷ rows) (p, h) = ground (arith, p)

  All-kept :
      (P : AuditEventRecord → Type 0) (q : AuditEventRecord → Bool) (rows : List AuditEventRecord)
      → All P rows
      → All P (filter q rows)
  All-kept P q [] h = tt
  All-kept P q (r ∷ rows) (p, h) =
      All-if P (q r) r _ _ (p, All-kept P q rows h) (All-kept P q rows h)

  not_older :
      (row r : AuditEventRecord) (rows : List AuditEventRecord)
      → older row r ≡ false
      → All (λ e. older e r ≡ true) rows
      → All (λ e. older row e ≡ false) rows
  not_older row r [] h k = tt
  not_older row r (e ∷ rows) h (p, k) = (
    elim (Bool-cases (older row e)) [
      | inl above ↦ ground (arith, older_trans row e r above p)
      | inr below ↦ below
    ],
    not_older row r rows h k,
  )

  filter-insert_event :
      (q : AuditEventRecord → Bool) (row : AuditEventRecord) (rows : List AuditEventRecord)
      → Descending rows
      → filter q (insert_event codec row rows)
        ≡ (if q row then insert_event codec row (filter q rows) else filter q rows)
  unfolding insert_event
  filter-insert_event q row [] d = ground arith
  filter-insert_event q row (r ∷ rows) (below, d) = elim (Bool-cases (older row r)) [
    | inl above ↦ ground (arith, above, filter-insert_event q row rows d)
    | inr first ↦
        let kept = insert_event-first row (filter q (r ∷ rows)) (
          All-kept (λ e. older row e ≡ false) q (r ∷ rows)
            (first, not_older row r rows first below)) in
        ground (arith, first, kept)
  ]

  insert_event-if :
      (b : Bool) (row : AuditEventRecord) (rows sorted : List AuditEventRecord)
      → sorted ≡ sort_events codec rows
      → (if b then insert_event codec row sorted else sorted)
        ≡ sort_events codec (if b then row ∷ rows else rows)
  unfolding sort_events
  insert_event-if true row rows sorted h = ap (insert_event codec row) h
  insert_event-if false row rows sorted h = h

  older_asym : (a b : AuditEventRecord) → older a b ≡ true → older b a ≡ false
  unfolding key_before
  older_asym a b h = ground arith

  older_irrefl : (a : AuditEventRecord) → older a a ≡ false
  unfolding key_before
  older_irrefl a = ground arith

  filter_everything :
      (q : AuditEventRecord → Bool) (rows : List AuditEventRecord)
      → All (λ r. q r ≡ true) rows
      → filter q rows ≡ rows
  filter_everything q [] h = refl
  filter_everything q (r ∷ rows) (p, h) = ground (arith, p, filter_everything q rows h)

  All-at :
      (P : AuditEventRecord → Type 0) (before : List AuditEventRecord) (row : AuditEventRecord)
      (after : List AuditEventRecord)
      → All P (before ++ row ∷ after)
      → P row
  All-at P [] row after (p, h) = p
  All-at P (e ∷ before) row after (p, h) = All-at P before row after h

  HasDistinctKeys-if :
      (b : Bool) (row : AuditEventRecord) (rows : List AuditEventRecord)
      → All (λ r. (older r row || older row r) ≡ true) rows
      → HasDistinctKeys rows
      → HasDistinctKeys (if b then row ∷ rows else rows)
  HasDistinctKeys-if true row rows h d = (h, d)
  HasDistinctKeys-if false row rows h d = d

  -- Sorting and a condition may change places.
  pub filter-sort_events :
      (q : AuditEventRecord → Bool) (rows : List AuditEventRecord)
      → HasDistinctKeys rows
      → filter q (sort_events codec rows) ≡ sort_events codec (filter q rows)
  unfolding sort_events
  filter-sort_events q [] d = refl
  filter-sort_events q (row ∷ rows) (distinct, d) =
      filter-insert_event q row (sort_events codec rows) (sort_events-Descending rows d)
      ∙ insert_event-if (q row) row (filter q rows) _ (filter-sort_events q rows d)

  -- what lies after an event in the order is what is older
  pub filter-older :
      (newer : List AuditEventRecord) (row : AuditEventRecord) (rows : List AuditEventRecord)
      → Descending (newer ++ row ∷ rows)
      → filter (λ e. older e row) (newer ++ row ∷ rows) ≡ rows
  filter-older [] row rows (below, d) =
      ground (arith, older_irrefl row, filter_everything (λ e. older e row) rows below)
  filter-older (e ∷ newer) row rows (below, d) =
      ground
        (arith, older_asym row e (All-at _ newer row rows below), filter-older newer row rows d)

  pub HasDistinctKeys-filter :
      (q : AuditEventRecord → Bool) (rows : List AuditEventRecord)
      → HasDistinctKeys rows
      → HasDistinctKeys (filter q rows)
  HasDistinctKeys-filter q [] d = tt
  HasDistinctKeys-filter q (row ∷ rows) (distinct, d) =
      HasDistinctKeys-if (q row) row (filter q rows) (All-kept _ q rows distinct)
        (HasDistinctKeys-filter q rows d)
