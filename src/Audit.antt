-- ===== src/Audit.antt =====
-- The pages of the audit log: `AuditService.list` of backend/app/audit/service.py, with the
-- category of an event.
pub mod Order
pub mod Pages
pub mod Walk
pub mod Categories
use machine_deck.Base.{
  ltb, leb, if◌then◌else◌, nat_eq, string_eq, ◌==◌, length, take, filter, contains, Outcome, ok,
  raised, ℕ, ◌+◌, String, Bool, true, false, not, ◌&&◌, ◌||◌, Option, none, some, List, [], ◌∷◌,
  ◌++◌,
}
use machine_deck.Text.{codes, text_eq, lower, starts_with}
use machine_deck.Json.{Value, number, get}
use machine_deck.Database.{AuditEventRecord}
use mathlib.Core.Option

pub data AuditCategory : Type 0 where
  authentication application_registry application_lifecycle system other : AuditCategory

abbrev pub category_number : AuditCategory → ℕ
category_number authentication = 0
category_number application_registry = 1
category_number application_lifecycle = 2
category_number system = 3
category_number other = 4

abbrev pub registry_actions : List String
registry_actions = "application.create" ∷ "application.update" ∷ "application.delete" ∷ []

abbrev pub lifecycle_actions : List String
lifecycle_actions = "application.start" ∷ "application.stop" ∷ "application.restart" ∷ []

-- `category_for`
unfoldable pub category_for : String → String → AuditCategory
category_for action target_type =
    if starts_with (codes "auth.") (codes action) || target_type == "authentication"
    then authentication
    else if contains registry_actions action
    then application_registry
    else if contains lifecycle_actions action
    then application_lifecycle
    else if starts_with (codes "system.") (codes action) || target_type == "system"
    then system
    else other

-- `like("auth.%")`, which SQLite reads without the case of letters
unfoldable pub like_prefix : String → String → Bool
like_prefix prefix text = starts_with (codes prefix) (lower (codes text))

-- `_category_condition`
unfoldable pub category_condition : AuditCategory → AuditEventRecord → Bool
unfolding like_prefix
category_condition authentication row =
    like_prefix "auth." row.action || row.target_type == "authentication"
category_condition application_registry row = contains registry_actions row.action
category_condition application_lifecycle row = contains lifecycle_actions row.action
category_condition system row = like_prefix "system." row.action || row.target_type == "system"
category_condition other row = not (
    like_prefix "auth." row.action
    || (contains (registry_actions ++ lifecycle_actions) row.action
        || like_prefix "system." row.action))

-- A cursor is the instant and the identifier of an event. Identifiers are compared as texts, in an
-- order that `rank` gives. `rest` is the condition on the action and on the keyword.
pub record AuditCodec : Type 0 where
  pub encode_cursor : ℕ × ℕ → String
  pub decode_cursor : String → Option (ℕ × ℕ)
  pub rank : ℕ → ℕ

pub record AuditFilters : Type 0 where
  pub limit : ℕ
  pub cursor : Option String
  pub start : Option ℕ
  pub end : Option ℕ
  pub application_id : Option String
  pub actor : Option String
  pub result : Option String
  pub category : Option AuditCategory
  pub execution_id : Option ℕ
  pub rest : AuditEventRecord → Bool

pub data AuditQueryError : Type 0 where
  time_invalid cursor_invalid : AuditQueryError

pub record AuditEventPage : Type 0 where
  pub events : List AuditEventRecord
  pub has_more : Bool
  pub next_cursor : Option String

-- a condition that is there only where the filter has a value
abbrev pub when_given {ℓ} : {A : Type ℓ} → Option A → (A → Bool) → Bool
when_given none condition = true
when_given (some a) condition = condition a

-- a text filter, which counts as missing where it is empty
abbrev pub when_text : Option String → (String → Bool) → Bool
when_text none condition = true
when_text (some text) condition = text == "" || condition text

abbrev execution_is : ℕ → Option Value → Bool
execution_is id (some (number n)) = n == id
execution_is id _ = false

-- the conditions without the cursor
unfoldable pub selected : AuditFilters → AuditEventRecord → Bool
unfolding category_condition
selected filters row =
    when_given filters.start (λ t. leb t row.created_at)
    && (when_given filters.end (λ t. leb row.created_at t)
        && (when_text filters.application_id
              (λ id. row.target_type == "application" && row.target_id == id)
            && (when_text filters.actor (λ actor. row.actor == actor)
                && (when_text filters.result (λ result. row.result == result)
                    && (when_given filters.category (λ c. category_condition c row)
                        && (when_given filters.execution_id
                              (λ id. execution_is id (get "execution_id" row.details_json))
                            && filters.rest row))))))

module _ (codec : AuditCodec) where
  -- the key by which the events are ordered, newest first
  abbrev pub event_key : AuditEventRecord → ℕ × ℕ
  event_key row = (row.created_at, codec.rank row.id)

  unfoldable pub key_before : ℕ × ℕ → ℕ × ℕ → Bool
  key_before (t, i) (u, j) = ltb t u || (t == u && ltb i j)

  -- the condition of the cursor
  unfoldable pub before_cursor : ℕ × ℕ → AuditEventRecord → Bool
  unfolding key_before
  before_cursor (timestamp, id) row = key_before (event_key row) (timestamp, codec.rank id)

  -- `order_by(created_at.desc(), id.desc())`
  unfoldable pub insert_event : AuditEventRecord → List AuditEventRecord → List AuditEventRecord
  unfolding key_before
  insert_event row [] = row ∷ []
  insert_event row (r ∷ rows) =
      let rest = insert_event row rows in
      if key_before (event_key row) (event_key r) then r ∷ rest else row ∷ r ∷ rows

  unfoldable pub sort_events : List AuditEventRecord → List AuditEventRecord
  unfolding insert_event
  sort_events [] = []
  sort_events (row ∷ rows) = insert_event row (sort_events rows)

  abbrev pub cursor_of : AuditEventRecord → String
  cursor_of row = codec.encode_cursor (row.created_at, row.id)

  unfoldable pub last_event : List AuditEventRecord → Option AuditEventRecord
  last_event [] = none
  last_event (row ∷ []) = some row
  last_event (_ ∷ r ∷ rows) = last_event (r ∷ rows)

  -- from the records that the statement returns, at most `limit + 1`
  unfoldable pub page_of : ℕ → List AuditEventRecord → AuditEventPage
  unfolding last_event
  page_of limit records =
      let has_more = ltb limit (length records) in
      let page_records = take limit records in
      record {
        events = page_records;
        has_more = has_more;
        next_cursor =
            if has_more then Option.map (λ row. cursor_of row) (last_event page_records) else none;
      }

  unfoldable pub time_valid : AuditFilters → Bool
  time_valid filters = when_given filters.start (λ s. when_given filters.end (λ e. leb s e))

  -- the condition of the cursor, where the filter has one; `none` is CURSOR_INVALID
  unfoldable pub cursor_condition : Option String → Option (AuditEventRecord → Bool)
  cursor_condition none = some (λ _. true)
  cursor_condition (some cursor) =
      if cursor == ""
      then some (λ _. true)
      else Option.map (λ c. before_cursor c) (codec.decode_cursor cursor)

  -- `list`, with the instants of the filter already aware of their zone
  unfoldable pub list_events :
      AuditFilters → List AuditEventRecord → Outcome AuditQueryError AuditEventPage
  unfolding time_valid cursor_condition selected sort_events page_of
  list_events filters rows =
      if not (time_valid filters)
      then raised time_invalid
      else elim (cursor_condition filters.cursor) [
        | none ↦ raised cursor_invalid
        | some condition ↦ ok (
            page_of filters.limit (
              take (filters.limit + 1)
                (sort_events (filter (λ row. selected filters row && condition row) rows))))
      ]
