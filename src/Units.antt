-- ===== src/Units.antt =====
-- The text of a systemd user unit: `unit_name_for`, `_quote`, `_escape_path` and the errors of
-- backend/app/systemd/user_units.py. An error stands for its message.
pub mod Validation
pub mod Rendering
pub mod Quoting
pub mod Commands
pub mod Directories
pub mod Lines
pub mod Faithful
pub mod Accepted
pub mod Files
pub mod Manager
pub mod Reading
pub mod Contents
pub mod Installed
pub mod Install
pub mod Targets
pub mod Undone
use machine_deck.Base.{
  Equality, ltb, leb, if◌then◌else◌, ltb→lt, leb→le, Bool-cases, Option-cases, ◌==◌, nat_beq_iff,
  nat_eq, string_eq, option_beq, option_beq_iff, is_none, is_some, or_else, length, take, drop, any,
  all, filter, find?, All, length-append, length-take, length-drop, take-append-drop, All-append,
  All-filter, length-filter, find?-some, contains, Outcome, ok, raised, is_ok, ℕ, zero, suc, ◌+◌,
  ◌-◌, ◌*◌, ◌/◌, ◌%◌, ◌^◌, ◌≤◌, ◌<◌, min, String, ◌≡◌, refl, sym, ap, ◌∙◌, ◌≢◌, ◌↔◌, ◌⊎◌, inl, inr,
  Bool, true, false, not, ◌&&◌, ◌||◌, Option, none, some, List, [], ◌∷◌, ◌++◌, map, arith, eq_iff,
  eq_refl,
}
use machine_deck.Base.Results.{◌>>=◌, bind-eq-ok}
use machine_deck.Text.{
  Text, codes, text_beq, text_beq_iff, text_eq, is_space, is_digit, lower_char, lower, lstrip,
  rstrip, strip_by, strip, strip_quotes, partition, rpartition, split_parts, split, join_rest, join,
  starts_with, all_digits, join-split,
}
use machine_deck.Text.Encoding.{
  Bytes, replace, ends_with, utf8_char, encode, is_line_break, splitlines, text_leb, item_leb,
  insert_item, sorted,
}
use machine_deck.Manifest.Paths.{
  IssueCode, privileged_port_not_allowed, path_not_allowed, working_dir_not_found,
  executable_not_found, file_not_found, secrets_not_classified, IssueField, port_host_port,
  runtime_working_dir, runtime_command, runtime_compose_file, environment_field, ValidationIssue,
  ValidationResponse, is_relative_to, within_roots, privileged_issues, working_dir_issues,
  runtime_issues, is_empty, validate_manifest_paths,
}

abbrev pub max_unit_bytes : ℕ
max_unit_bytes = 65536

pub data UnitError : Type 0 where
  unsafe_unit_name not_process unit_too_large invalid_control_characters unexpected_sections :
      UnitError
  control_characters : Text → UnitError
  invalid_paths : List ValidationIssue → UnitError
  unsupported_directive required_directive : Text → UnitError
  directory_missing directory_not_real directory_not_owned directory_writable target_not_regular
        target_unsafe cannot_read existing_too_large :
      UnitError
  verification_failed reload_failed : Text → UnitError

-- the characters of `"abcdefghijklmnopqrstuvwxyz0123456789-"`
unfoldable pub is_unit_char : ℕ → Bool
is_unit_char c = (leb b'a' c && leb c b'z') || ((leb b'0' c && leb c b'9') || c == b'-')

unfoldable pub unit_name_for : Text → Outcome UnitError Text
unfolding is_unit_char ends_with
unit_name_for application_id =
    if text_beq application_id [] || any (λ c. not (is_unit_char c)) application_id
    then raised unsafe_unit_name
    else if starts_with (b'-' ∷ []) application_id || ends_with b'-' application_id
    then raised unsafe_unit_name
    else ok (codes "machinedeck-" ++ application_id ++ codes ".service")

unfoldable pub has_control_characters : Text → Bool
has_control_characters value = any (λ c. contains value c) (10 ∷ 13 ∷ 0 ∷ [])

unfoldable pub reject_control_characters : Text → Text → Outcome UnitError (Unit {0})
unfolding has_control_characters
reject_control_characters value field =
    if has_control_characters value then raised (control_characters field) else ok tt

unfoldable pub escaped : Bool → Text → Text
unfolding replace
escaped escape_dollar value =
    let text : Text =
      replace b'%' (b'%' ∷ b'%' ∷ [])
        (replace b'"' (b'\\' ∷ b'"' ∷ []) (replace b'\\' (b'\\' ∷ b'\\' ∷ []) value)) in
    if escape_dollar then replace b'$' (b'$' ∷ b'$' ∷ []) text else text

unfoldable pub quote : Bool → Text → Outcome UnitError Text
unfolding escaped reject_control_characters
quote escape_dollar value = do
  _ ← reject_control_characters value (codes "systemd value")
  ok (b'"' ∷ (escaped escape_dollar value ++ b'"' ∷ []))

-- the bytes of `safe`
unfoldable pub is_path_byte : ℕ → Bool
is_path_byte b =
    (leb b'a' b && leb b b'z')
    || ((leb b'A' b && leb b b'Z')
        || ((leb b'0' b && leb b b'9') || (b == b'/' || (b == b'.' || (b == b'_' || b == b'-')))))

unfoldable pub hex_digit : ℕ → ℕ
hex_digit d = if ltb d 10 then b'0' + d else b'a' + (d - 10)

unfoldable pub escape_byte : ℕ → Text
unfolding is_path_byte hex_digit
escape_byte b =
    if is_path_byte b
    then b ∷ []
    else if b == b'%'
    then b'%' ∷ b'%' ∷ []
    else b'\\' ∷ b'x' ∷ hex_digit (b / 16) ∷ hex_digit (b % 16) ∷ []

unfoldable pub escape_bytes : Bytes → Text
unfolding escape_byte
escape_bytes [] = []
escape_bytes (b ∷ bytes) = escape_byte b ++ escape_bytes bytes

unfoldable pub escape_path : Text → Outcome UnitError Text
unfolding escape_bytes encode reject_control_characters
escape_path value = do
  _ ← reject_control_characters value (codes "systemd path")
  ok (escape_bytes (encode value))
