-- ===== src/Audit/Categories.antt =====
-- The category that an event is shown with, and the condition of a query for a category.
use machine_deck.Base.{
  nat_eq, string_eq, ◌==◌, contains, String, ◌≡◌, refl, ◌↔◌, Bool, true, not, ◌||◌, ◌++◌, arith,
}
use machine_deck.Text.{text_eq, lower_char, lower, starts_with}
use machine_deck.Database.{AuditEventRecord}
use machine_deck.Audit.{
  AuditCategory, authentication, application_registry, application_lifecycle, system, other,
  category_number, registry_actions, lifecycle_actions, category_for, like_prefix,
  category_condition,
}

-- The events that the backend writes: what was done, and to what.
pub data EventKind : Type 0 where
  create_event update_event delete_event start_event stop_event restart_event setup_event
        login_event logout_event :
      EventKind

abbrev pub kind_action : EventKind → String
kind_action create_event = "application.create"
kind_action update_event = "application.update"
kind_action delete_event = "application.delete"
kind_action start_event = "application.start"
kind_action stop_event = "application.stop"
kind_action restart_event = "application.restart"
kind_action setup_event = "auth.setup"
kind_action login_event = "auth.login"
kind_action logout_event = "auth.logout"

abbrev pub kind_target : EventKind → String
kind_target setup_event = "authentication"
kind_target login_event = "authentication"
kind_target logout_event = "authentication"
kind_target _ = "application"

abbrev is_category : AuditCategory → AuditCategory → Bool
is_category c d = category_number c == category_number d

abbrev condition_of : AuditCategory → String → String → Bool
condition_of authentication action target = like_prefix "auth." action || target == "authentication"
condition_of application_registry action target = contains registry_actions action
condition_of application_lifecycle action target = contains lifecycle_actions action
condition_of system action target = like_prefix "system." action || target == "system"
condition_of other action target = not (
    like_prefix "auth." action
    || (contains (registry_actions ++ lifecycle_actions) action || like_prefix "system." action))

condition_of-row :
    (c : AuditCategory) (row : AuditEventRecord)
    → category_condition c row ≡ condition_of c row.action row.target_type
unfolding category_condition
condition_of-row authentication row = refl
condition_of-row application_registry row = refl
condition_of-row application_lifecycle row = refl
condition_of-row system row = refl
condition_of-row other row = refl

condition_of-kind :
    (k : EventKind) (c : AuditCategory)
    → condition_of c (kind_action k) (kind_target k)
      ≡ is_category c (category_for (kind_action k) (kind_target k))
unfolding category_for like_prefix starts_with lower lower_char
condition_of-kind create_event c = ground arith
condition_of-kind update_event c = ground arith
condition_of-kind delete_event c = ground arith
condition_of-kind start_event c = ground arith
condition_of-kind stop_event c = ground arith
condition_of-kind restart_event c = ground arith
condition_of-kind setup_event c = ground arith
condition_of-kind login_event c = ground arith
condition_of-kind logout_event c = ground arith

is_category_iff : (c d : AuditCategory) → (is_category c d ≡ true) ↔ (d ≡ c)
is_category_iff c d = ground arith

-- A query for a category selects, of the events that the backend writes, exactly those that are shown
-- with that category.
pub category_condition_iff :
    (row : AuditEventRecord) (k : EventKind) (c : AuditCategory)
    → row.action ≡ kind_action k
    → row.target_type ≡ kind_target k
    → (category_condition c row ≡ true) ↔ (category_for row.action row.target_type ≡ c)
category_condition_iff row k c action target =
    rw (condition_of-row c row, action, target, condition_of-kind k c) (is_category_iff c _)
