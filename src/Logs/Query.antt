-- ===== src/Logs/Query.antt =====
-- `_parse_query` of backend/app/api/log_websocket.py. The query parameters are given by their names;
-- `datetime.fromisoformat` is a parameter that gives the time and whether it has a time zone.
pub mod Accepted
use mathlib.Core.Option
use machine_deck.Base.{
  Equality, ltb, leb, if◌then◌else◌, ltb→lt, leb→le, Bool-cases, Option-cases, ◌==◌, nat_beq_iff,
  nat_eq, string_eq, option_beq, option_beq_iff, is_none, is_some, or_else, length, take, drop, any,
  all, filter, find?, All, length-append, length-take, length-drop, take-append-drop, drop-append,
  drop-nil, drop-drop, All-append, All-filter, length-filter, find?-some, contains, Outcome, ok,
  raised, is_ok, ℕ, zero, suc, ◌+◌, ◌-◌, ◌*◌, ◌/◌, ◌%◌, ◌^◌, ◌≤◌, ◌<◌, min, String, ◌≡◌, refl, sym,
  ap, ◌∙◌, ◌≢◌, ◌↔◌, ◌⊎◌, inl, inr, Bool, true, false, not, ◌&&◌, ◌||◌, Option, none, some, List,
  [], ◌∷◌, ◌++◌, map, arith, eq_iff, eq_refl,
}
use machine_deck.Base.Results.{◌>>=◌, bind-eq-ok, bind-cases, guarded-eq-ok}
use machine_deck.Text.{
  Text, codes, text_beq, text_beq_iff, text_eq, is_space, is_digit, lower_char, lower, lstrip,
  rstrip, strip_by, strip, strip_quotes, partition, rpartition, split_parts, split, join_rest, join,
  starts_with, all_digits, join-split,
}
use machine_deck.Text.Encoding.{
  Bytes, replace, ends_with, utf8_char, encode, is_line_break, splitlines, text_leb, item_leb,
  insert_item, sorted,
}
use machine_deck.Logs.Service.{
  ApplicationLogError, query_invalid, app_not_found, config_invalid, validation_error, source_error,
  is_service_char, is_service, parse_service_filter, is_selected, prepare_event, prepared_events,
  log_context, log_history, follow,
}

abbrev pub QueryParams : Type 0
QueryParams = List (Text × Text)

-- `query.get(name)`, which gives the last value of a name
unfoldable pub param : QueryParams → Text → Option Text
param [] name = none
param ((key, value) ∷ params) name = elim (param params name) [
  | some later ↦ some later
  | none ↦ if key == name then some value else none
]

unfoldable pub parse_bool : Option Text → Bool → Outcome ApplicationLogError Bool
unfolding lower
parse_bool none default = ok default
parse_bool (some value) default =
    let normalized = lower value in
    if contains (codes "1" ∷ codes "true" ∷ codes "yes" ∷ []) normalized
    then ok true
    else if contains (codes "0" ∷ codes "false" ∷ codes "no" ∷ []) normalized
    then ok false
    else raised query_invalid

abbrev is_ascii_digit : ℕ → Bool
is_ascii_digit c = leb b'0' c && leb c b'9'

-- The digits of a number, between which single underscores may stand: whether an underscore was
-- just read or nothing was, and the value so far.
unfoldable pub number_from : Bool → ℕ → Text → Option ℕ
number_from needs_digit value [] = if needs_digit then none else some value
number_from needs_digit value (c ∷ s) =
    let digit = number_from false (10 * value + (c - b'0')) s in
    let underscore = number_from true value s in
    if is_ascii_digit c then digit else if c == b'_' && not needs_digit then underscore else none

-- `int(text)` for ASCII digits: a number with its sign
pub data Integer : Type 0 where
  positive negative : ℕ → Integer

unfoldable pub signed : Text → Option Integer
unfolding number_from
signed [] = none
signed (c ∷ s) =
    if c == b'-'
    then Option.map negative (number_from true 0 s)
    else if c == b'+'
    then Option.map positive (number_from true 0 s)
    else Option.map positive (number_from true 0 (c ∷ s))

unfoldable pub int_of : Text → Option Integer
unfolding signed strip
int_of text = signed (strip text)

-- `0 <= history <= 5000`, where an integer was read
unfoldable pub history_limit : Option Integer → Outcome ApplicationLogError ℕ
history_limit (some (positive n)) = if leb n 5000 then ok n else raised query_invalid
history_limit (some (negative zero)) = ok 0
history_limit (some (negative (suc n))) = raised query_invalid
history_limit none = raised query_invalid

abbrev pub allowed_parameters : List Text
allowed_parameters = map codes ("history" ∷ "follow" ∷ "since" ∷ "cursor" ∷ "services" ∷ [])

-- `since_text.replace("Z", "+00:00")`
unfoldable pub parse_since :
    (Text → Option (ℕ × Bool)) → Option Text → Outcome ApplicationLogError (Option ℕ)
unfolding replace
parse_since from_iso none = ok none
parse_since from_iso (some []) = ok none
parse_since from_iso (some (c ∷ text)) =
    elim (from_iso (replace b'Z' (codes "+00:00") (c ∷ text))) [
      | none ↦ raised query_invalid
      | some (time, has_zone) ↦ if has_zone then ok (some time) else raised query_invalid
    ]

unfoldable pub parse_cursor : Option Text → Outcome ApplicationLogError (Option Text)
parse_cursor none = ok none
parse_cursor (some cursor) =
    if text_beq cursor []
      || (ltb 2048 (length cursor) || any (λ c. contains cursor c) (10 ∷ 13 ∷ 0 ∷ []))
    then raised query_invalid
    else ok (some cursor)

pub record LogQuery : Type 0 where
  pub history : ℕ
  pub should_follow : Bool
  pub since : Option ℕ
  pub cursor : Option Text
  pub services : List Text

unfoldable pub parse_query :
    (Text → Option (ℕ × Bool)) → QueryParams → Outcome ApplicationLogError LogQuery
unfolding param int_of history_limit parse_bool parse_since parse_cursor parse_service_filter
parse_query from_iso query =
    if any (λ item. not (contains allowed_parameters item.0)) query
    then raised query_invalid
    else do
      limit ← history_limit (int_of (or_else (param query (codes "history")) (codes "200")))
      should_follow ← parse_bool (param query (codes "follow")) true
      since ← parse_since from_iso (param query (codes "since"))
      cursor ← parse_cursor (param query (codes "cursor"))
      services ← parse_service_filter (param query (codes "services"))
      ok (record {
        history = limit;
        should_follow = should_follow;
        since = since;
        cursor = cursor;
        services = services;
      })
