-- ===== src/Audit/Pages.antt =====
-- Where a cursor resumes a query: `list` of backend/app/audit/service.py.
use machine_deck.Base.{
  nat_eq, string_eq, ◌==◌, take, filter, ok, ◌+◌, ◌≡◌, refl, sym, ap, ◌∙◌, Bool, true, false, ◌&&◌,
  some, List, [], ◌∷◌, ◌++◌, arith,
}
use machine_deck.Database.{AuditEventRecord}
use machine_deck.Audit.{
  AuditCodec, AuditFilters, selected, before_cursor, sort_events, cursor_of, page_of, time_valid,
  list_events,
}
use machine_deck.Audit.Order.{
  older, HasDistinctKeys, sort_events-Descending, filter-sort_events, filter-older,
  HasDistinctKeys-filter,
}

filter-both :
    (p q : AuditEventRecord → Bool) (rows : List AuditEventRecord)
    → filter (λ row. p row && q row) rows ≡ filter q (filter p rows)
filter-both p q [] = refl
filter-both p q (row ∷ rows) = ground (arith, filter-both p q rows)

module _ (codec : AuditCodec) where
  -- the events that a query without a cursor selects, in their order
  abbrev pub all_selected : AuditFilters → List AuditEventRecord → List AuditEventRecord
  all_selected filters rows = sort_events codec (filter (selected filters) rows)

  sort_events-after :
      (filters : AuditFilters) (rows newer : List AuditEventRecord) (row : AuditEventRecord)
      (older_rows : List AuditEventRecord)
      → HasDistinctKeys codec rows
      → all_selected filters rows ≡ newer ++ row ∷ older_rows
      → sort_events codec (filter (λ r. selected filters r && older codec r row) rows) ≡ older_rows
  sort_events-after filters rows newer row older_rows d h =
      let d' = HasDistinctKeys-filter codec (selected filters) rows d in
      ap (sort_events codec) (filter-both (selected filters) (λ r. older codec r row) rows)
      ∙ sym (filter-sort_events codec (λ r. older codec r row) (filter (selected filters) rows) d')
      ∙ ap (filter (λ r. older codec r row)) h
      ∙ filter-older codec newer row older_rows (rw (sym h) (sort_events-Descending codec _ d'))

  -- The page at the cursor of an event that a query selects is that of the events after it.
  pub list_events-resumes :
      (filters : AuditFilters) (rows newer : List AuditEventRecord) (row : AuditEventRecord)
      (older_rows : List AuditEventRecord)
      → HasDistinctKeys codec rows
      → time_valid codec filters ≡ true
      → (cursor_of codec row == "") ≡ false
      → codec.decode_cursor (cursor_of codec row) ≡ some (row.created_at, row.id)
      → all_selected filters rows ≡ newer ++ row ∷ older_rows
      → list_events codec (record filters { cursor = some (cursor_of codec row) }) rows
        ≡ ok (page_of codec filters.limit (take (filters.limit + 1) older_rows))
  unfolding list_events before_cursor
  list_events-resumes filters rows newer row older_rows d timely nonempty decoded split =
      rw (timely, nonempty, decoded)
        (ap (λ l. ok (page_of codec filters.limit (take (filters.limit + 1) l)))
          (sort_events-after filters rows newer row older_rows d split))
