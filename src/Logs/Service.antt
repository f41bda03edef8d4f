-- ===== src/Logs/Service.antt =====
-- `ApplicationLogService` and `parse_service_filter` of backend/app/logging/service.py. The
-- redaction of a message and the reader of an application are parameters; a set of services is the
-- list that was given.
use machine_deck.Base.{
  ltb, leb, if◌then◌else◌, nat_eq, string_eq, ◌==◌, length, any, all, contains, Outcome, ok, raised,
  ℕ, Bool, false, not, ◌&&◌, ◌||◌, Option, none, some, List, [], ◌∷◌,
}
use machine_deck.Text.{Text, text_eq, split}
use machine_deck.Manifest.{ApplicationManifest}
use machine_deck.Manifest.Paths.{ValidationIssue, validate_manifest_paths}
use machine_deck.Host.{Host}
use machine_deck.Database.{ApplicationRecord}
use machine_deck.Logs.{LogEvent}
use machine_deck.Logs.Adapters.{LogSourceError, Stream}

pub data ApplicationLogError : Type 0 where
  query_invalid app_not_found : ApplicationLogError
  config_invalid : List ValidationIssue → ApplicationLogError
  validation_error : ApplicationLogError
  source_error : LogSourceError → ApplicationLogError

-- the characters of `SERVICE_PATTERN` after its first one
unfoldable pub is_service_char : ℕ → Bool
is_service_char c =
    (leb b'A' c && leb c b'Z')
    || ((leb b'a' c && leb c b'z')
        || ((leb b'0' c && leb c b'9') || (c == b'_' || (c == b'.' || c == b'-'))))

-- `SERVICE_PATTERN.fullmatch(item)`
unfoldable pub is_service : Text → Bool
unfolding is_service_char
is_service [] = false
is_service (c ∷ rest) =
    (is_service_char c && not (c == b'_' || (c == b'.' || c == b'-')))
    && (all is_service_char rest && leb (length rest) 127)

unfoldable pub parse_service_filter : Option Text → Outcome ApplicationLogError (List Text)
unfolding is_service split
parse_service_filter none = ok []
parse_service_filter (some []) = ok []
parse_service_filter (some (c ∷ value)) =
    let services = split b',' (c ∷ value) in
    if ltb 32 (length services) || any (λ item. not (is_service item)) services
    then raised query_invalid
    else ok services

-- `event.service in services`
abbrev pub is_selected : List Text → Option Text → Bool
is_selected services none = false
is_selected services (some service) = contains services service

-- `_prepare`
unfoldable pub prepare_event : (Text → Text) → List Text → LogEvent → Option LogEvent
prepare_event redact [] event = some (record event { message = redact event.message })
prepare_event redact (first ∷ services) event =
    if not (is_selected (first ∷ services) event.service)
    then none
    else some (record event { message = redact event.message })

-- the events that are not `None`
unfoldable pub prepared_events : (Text → Text) → List Text → List LogEvent → List LogEvent
unfolding prepare_event
prepared_events redact services [] = []
prepared_events redact services (event ∷ events) =
    let rest = prepared_events redact services events in
    elim (prepare_event redact services event) [ none ↦ rest | some e ↦ e ∷ rest ]

-- `_context`: the manifest of the application, whose paths are valid
unfoldable pub log_context :
    Host → Option ApplicationRecord → Outcome ApplicationLogError ApplicationManifest
unfolding validate_manifest_paths
log_context host none = raised app_not_found
log_context host (some row) = elim (host.load_manifest row.config_yaml) [
  | none ↦ raised validation_error
  | some manifest ↦
      let validation = validate_manifest_paths host manifest in
      if not validation.valid then raised (config_invalid validation.errors) else ok manifest
]

abbrev selected_history :
    (Text → Text)
    → List Text
    → Outcome LogSourceError (List LogEvent)
    → Outcome ApplicationLogError (List LogEvent)
selected_history redact services (ok events) = ok (prepared_events redact services events)
selected_history redact services (raised e) = raised (source_error e)

-- `history`, with the reader of the manifest and its redaction; a validation error of the stored
-- manifest and an error of the reader pass through.
unfoldable pub log_history :
    Host
    → (ApplicationManifest → Outcome LogSourceError (List LogEvent))
    → (ApplicationManifest → Text → Text)
    → Option ApplicationRecord
    → List Text
    → Outcome ApplicationLogError (List LogEvent)
unfolding log_context prepared_events
log_history host reader redaction row services = elim (log_context host row) [
  | raised e ↦ raised e
  | ok manifest ↦ selected_history (redaction manifest) services (reader manifest)
]

-- the events that `follow` yields, for those of the reader
unfoldable pub follow : (Text → Text) → List Text → Stream LogEvent → Stream LogEvent
unfolding prepared_events
follow redact services stream = record {
  yielded = prepared_events redact services stream.yielded;
  ended = stream.ended;
}
