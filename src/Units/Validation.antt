-- ===== src/Units/Validation.antt =====
-- `validate_rendered_unit` of backend/app/systemd/user_units.py.
use machine_deck.Base.{
  ltb, if◌then◌else◌, ◌==◌, nat_eq, string_eq, option_beq, is_none, length, contains, Outcome, ok,
  raised, ℕ, ◌+◌, Bool, true, false, not, ◌&&◌, ◌||◌, Option, none, some, List, [], ◌∷◌, ◌++◌, map,
}
use machine_deck.Base.Results.{◌>>=◌}
use machine_deck.Text.{Text, codes, text_beq, text_eq, partition, starts_with}
use machine_deck.Text.Encoding.{ends_with, encode, splitlines}
use machine_deck.Units.{
  UnitError, unit_too_large, invalid_control_characters, unexpected_sections, unsupported_directive,
  required_directive, max_unit_bytes,
}

unfoldable pub allowed_directives : List Text
allowed_directives = map codes (
    "Description" ∷ "After" ∷ "Wants" ∷ "Type" ∷ "WorkingDirectory" ∷ "ExecStart" ∷ "Environment"
    ∷ "KillMode" ∷ "TimeoutStartSec" ∷ "TimeoutStopSec" ∷ "Restart" ∷ "NoNewPrivileges" ∷ "WantedBy"
    ∷ [])

-- `key not in allowed`
unfoldable pub is_allowed : Text → Bool
unfolding allowed_directives
is_allowed key = contains allowed_directives key

abbrev pub Counts : Type 0
Counts = List (Text × ℕ)

-- `directives[key] = directives.get(key, 0) + 1`
unfoldable pub bump : Text → Counts → Counts
bump key [] = (key, 1) ∷ []
bump key ((k, n) ∷ counts) =
    let rest = bump key counts in if k == key then (k, n + 1) ∷ counts else (k, n) ∷ rest

-- `directives.get(key)`
unfoldable pub get_count : Text → Counts → Option ℕ
get_count key [] = none
get_count key ((k, n) ∷ counts) = if k == key then some n else get_count key counts

unfoldable pub is_section : Text → Bool
unfolding starts_with ends_with
is_section line = starts_with (b'[' ∷ []) line && ends_with b']' line

unfoldable pub is_skipped : Text → Bool
unfolding starts_with
is_skipped line = text_beq line [] || starts_with (b'#' ∷ []) line

-- The loop over the lines, with the sections and the directives seen so far.
unfoldable pub scan_lines : List Text → List Text → Counts → Outcome UnitError (List Text × Counts)
unfolding bump is_allowed is_skipped is_section partition
scan_lines [] sections directives = ok (sections, directives)
scan_lines (line ∷ lines) sections directives =
    let (key, separator) = partition b'=' line in
    let skipped = scan_lines lines sections directives in
    let in_section = scan_lines lines (sections ++ line ∷ []) directives in
    let counted = scan_lines lines sections (bump key directives) in
    if is_skipped line
    then skipped
    else if is_section line
    then in_section
    else if is_none separator || not (is_allowed key)
    then raised (unsupported_directive line)
    else counted

-- the loop over the directives that must stand exactly once
unfoldable pub check_required : List Text → Counts → Outcome UnitError (Unit {0})
unfolding get_count
check_required [] directives = ok tt
check_required (required ∷ others) directives =
    if option_beq (get_count required directives) (some 1)
    then check_required others directives
    else raised (required_directive required)

abbrev pub unit_sections : List Text
unit_sections = map codes ("[Unit]" ∷ "[Service]" ∷ "[Install]" ∷ [])

abbrev pub required_directives : List Text
required_directives = map codes ("WorkingDirectory" ∷ "ExecStart" ∷ "KillMode" ∷ [])

-- `a == b` on lists of texts
unfoldable pub texts_beq : List Text → List Text → Bool
texts_beq [] [] = true
texts_beq (s ∷ ss) (t ∷ ts) = s == t && texts_beq ss ts
texts_beq _ _ = false

unfoldable pub validate_rendered_unit : Text → Outcome UnitError (Unit {0})
unfolding scan_lines check_required texts_beq
validate_rendered_unit content =
    if ltb max_unit_bytes (length (encode content))
    then raised unit_too_large
    else if not (ends_with 10 content) || (contains content 13 || contains content 0)
    then raised invalid_control_characters
    else do
      (sections, directives) ← scan_lines (splitlines content) [] []
      if texts_beq sections unit_sections
          then check_required required_directives directives
          else raised unexpected_sections
