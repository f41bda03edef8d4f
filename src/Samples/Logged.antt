-- ===== src/Samples/Logged.antt =====
-- The theorems on the audit log, on three events.
use mathlib.Core.Path.{subst⁻¹}
use machine_deck.Base.{
  if◌then◌else◌, nat_eq, string_eq, ◌==◌, length, All, ℕ, suc, ◌≡◌, refl, ◌↔◌, true, none, some,
  List, [], ◌∷◌, arith,
}
use machine_deck.Json.{no_fields}
use machine_deck.Database.{AuditEventRecord}
use machine_deck.Audit.{
  application_lifecycle, other, AuditCodec, AuditFilters, category_for, category_condition,
  selected, key_before, sort_events, time_valid,
}
use machine_deck.Audit.Order.{HasDistinctKeys}
use machine_deck.Audit.Pages.{all_selected}
use machine_deck.Audit.Walk.{IsReadable, walk, walk-all_selected}
use machine_deck.Audit.Categories.{start_event, category_condition_iff}

abbrev event : ℕ → ℕ → AuditEventRecord
event id created = record {
  id = id;
  actor = "admin";
  action = "application.start";
  target_type = "application";
  target_id = "demo";
  result = "success";
  details_json = no_fields;
  created_at = created;
}

abbrev sample_codec : AuditCodec
sample_codec = record {
  encode_cursor = λ c. if c.1 == 0 then "zero" else if c.1 == 1 then "one" else "two";
  decode_cursor = λ text.
      if text == "zero" then some (10, 0) else if text == "one" then some (20, 1) else some (20, 2);
  rank = λ n. n;
}

abbrev sample_events : List AuditEventRecord
sample_events = event 0 10 ∷ event 2 20 ∷ event 1 20 ∷ []

abbrev all_filters : AuditFilters
all_filters = record {
  limit = 1;
  cursor = none;
  start = none;
  end = some 100;
  application_id = some "demo";
  actor = none;
  result = none;
  category = some application_lifecycle;
  execution_id = none;
  rest = λ _. true;
}

sorted_run :
    all_selected sample_codec all_filters sample_events ≡ event 2 20 ∷ event 1 20 ∷ event 0 10 ∷ []
unfolding sort_events selected
sorted_run = refl

all_selected-IsReadable :
    All (IsReadable sample_codec) (all_selected sample_codec all_filters sample_events)
all_selected-IsReadable =
    subst⁻¹ (All (IsReadable sample_codec)) sorted_run
      ((refl, refl), ((refl, refl), ((refl, refl), tt)))

timely_run : time_valid sample_codec all_filters ≡ true
unfolding time_valid
timely_run = refl

distinct_run : HasDistinctKeys sample_codec sample_events
unfolding key_before
distinct_run = ((refl, (refl, tt)), ((refl, tt), (tt, tt)))

walk-all_selected_example :
    walk sample_codec
      (suc (length (all_selected sample_codec all_filters sample_events)))
      (record all_filters { cursor = none })
      sample_events
    ≡ all_selected sample_codec all_filters sample_events
walk-all_selected_example =
    walk-all_selected sample_codec all_filters sample_events distinct_run timely_run
      all_selected-IsReadable (omega arith)

category_condition_iff_example :
    (category_condition other (event 0 10) ≡ true)
    ↔ (category_for "application.start" "application" ≡ other)
category_condition_iff_example = category_condition_iff (event 0 10) start_event other refl refl
