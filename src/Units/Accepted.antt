-- ===== src/Units/Accepted.antt =====
-- The loops of `validate_rendered_unit` against a description by filters and counts.
use mathlib.Core.List.{append-nil, append_assoc}
use machine_deck.Base.{
  if◌then◌else◌, Bool-cases, Option-cases, ◌==◌, nat_eq, string_eq, is_none, length, filter, find?,
  All, contains, Outcome, ok, raised, ℕ, ◌+◌, ◌≤◌, ◌≡◌, refl, ◌↔◌, inl, inr, Bool, true, false, not,
  ◌&&◌, ◌||◌, Option, none, some, List, [], ◌∷◌, ◌++◌, map, arith,
}
use machine_deck.Base.Results.{◌>>=◌}
use machine_deck.Text.{Text, text_beq_iff, text_eq, partition}
use machine_deck.Units.{
  ends_with, encode, splitlines, UnitError, unexpected_sections, unsupported_directive,
  max_unit_bytes,
}
use machine_deck.Units.Validation.{
  is_allowed, Counts, bump, get_count, is_section, is_skipped, scan_lines, check_required,
  unit_sections, required_directives, texts_beq, validate_rendered_unit,
}

-- the directive of a line, and the lines of each kind
abbrev key_of : Text → Text
key_of line = (partition b'=' line).0

abbrev is_heading : Text → Bool
is_heading line = not (is_skipped line) && is_section line

abbrev is_directive : Text → Bool
is_directive line = not (is_skipped line) && not (is_section line)

abbrev is_unsupported : Text → Bool
is_unsupported line =
    is_directive line && (is_none (partition b'=' line).1 || not (is_allowed (key_of line)))

abbrev count : Text → List Text → ℕ
count key [] = 0
count key (k ∷ keys) = let rest = count key keys in if k == key then 1 + rest else rest

abbrev tally : List Text → Counts → Counts
tally [] counts = counts
tally (key ∷ keys) counts = tally keys (bump key counts)

abbrev directives_of : List Text → List Text
directives_of lines = map key_of (filter is_directive lines)

-- What the loop gives: the error of the first line that is not supported, or the headings and the
-- counts of the directives.
abbrev scanned : List Text → List Text → Counts → Outcome UnitError (List Text × Counts)
scanned lines sections counts = elim (find? is_unsupported lines) [
  | some line ↦ raised (unsupported_directive line)
  | none ↦ ok (sections ++ filter is_heading lines, tally (directives_of lines) counts)
]

scan_lines-scanned :
    (lines sections : List Text) (counts : Counts)
    → scan_lines lines sections counts ≡ scanned lines sections counts
unfolding scan_lines
scan_lines-scanned [] sections counts = rw (append-nil sections) refl
scan_lines-scanned (line ∷ lines) sections counts = elim (Bool-cases (is_skipped line)) [
  | inl skipped ↦ ground (arith, scan_lines-scanned lines sections counts)
  | inr kept ↦ elim (Bool-cases (is_section line)) [
    | inl heading ↦ ground (
      arith,
      scan_lines-scanned lines (sections ++ line ∷ []) counts,
      append_assoc sections (line ∷ []) (filter is_heading lines),
    )
    | inr directive ↦ elim (Bool-cases (is_unsupported line)) [
      | inl unsupported ↦ ground arith
      | inr supported ↦
          ground (arith, scan_lines-scanned lines sections (bump (key_of line) counts))
    ]
  ]
]

abbrev or_zero : Option ℕ → ℕ
or_zero none = 0
or_zero (some n) = n

bump-count :
    (key k : Text) (counts : Counts)
    → or_zero (get_count key (bump k counts)) ≡ count key (k ∷ []) + or_zero (get_count key counts)
unfolding bump get_count
bump-count key k [] = ground arith
bump-count key k ((k', n) ∷ counts) =
    ground
      (arith, bump-count key k counts, text_beq_iff k' k, text_beq_iff k' key, text_beq_iff k key)

tally-count :
    (key : Text) (keys : List Text) (counts : Counts)
    → or_zero (get_count key (tally keys counts)) ≡ count key keys + or_zero (get_count key counts)
tally-count key [] counts = omega arith
tally-count key (k ∷ keys) counts =
    ground (arith, tally-count key keys (bump k counts), bump-count key k counts)

texts_beq_iff : (ss ts : List Text) → (texts_beq ss ts ≡ true) ↔ (ss ≡ ts)
unfolding texts_beq
texts_beq_iff [] [] = ground arith
texts_beq_iff [] (t ∷ ts) = ground arith
texts_beq_iff (s ∷ ss) [] = ground arith
texts_beq_iff (s ∷ ss) (t ∷ ts) = ground (arith, text_beq_iff s t, texts_beq_iff ss ts)

check_required-Once :
    (required keys : List Text)
    → (check_required required (tally keys []) ≡ ok tt) ↔ All (λ r. count r keys ≡ 1) required
unfolding check_required get_count
check_required-Once [] keys = ground arith
check_required-Once (r ∷ required) keys =
    ground (arith, tally-count r keys [], check_required-Once required keys)

supported-none :
    (lines : List Text)
    → (find? is_unsupported lines ≡ none) ↔ All (λ line. is_unsupported line ≡ false) lines
supported-none [] = ground arith
supported-none (line ∷ lines) = ground (arith, supported-none lines)

-- what follows the loop over the lines
abbrev verdict : List Text → List Text → List Text × Counts → Outcome UnitError (Unit {0})
verdict wanted required (sections, directives) =
    if texts_beq sections wanted
    then check_required required directives
    else raised unexpected_sections

verdict-scan_lines :
    (wanted required lines : List Text)
    → (scan_lines lines [] [] >>= verdict wanted required ≡ ok tt) ↔ (
        All (λ line. is_unsupported line ≡ false) lines
        × (filter is_heading lines ≡ wanted)
        × All (λ r. count r (directives_of lines) ≡ 1) required)
verdict-scan_lines wanted required lines =
    rw (scan_lines-scanned lines [] []) (elim (Option-cases (find? is_unsupported lines)) [
      | inl h ↦ ground (
        arith,
        h,
        supported-none lines,
        texts_beq_iff (filter is_heading lines) wanted,
        check_required-Once required (directives_of lines),
      )
      | inr (line, h) ↦ ground (arith, h, supported-none lines)
    ])

-- What a unit must be.
abbrev pub Accepted : Text → Type 0
Accepted content =
    (length (encode content) ≤ max_unit_bytes)
    × (ends_with 10 content ≡ true)
    × (contains content 13 ≡ false)
    × (contains content 0 ≡ false)
    × All (λ line. is_unsupported line ≡ false) (splitlines content)
    × (filter is_heading (splitlines content) ≡ unit_sections)
    × All (λ r. count r (directives_of (splitlines content)) ≡ 1) required_directives

-- A text is accepted as a unit exactly when it is at most 64 KiB long, ends in a newline, has no
-- carriage return and no null, every line of it that is not empty, a comment or a heading is an
-- assignment to one of the allowed directives, its headings are [Unit], [Service] and [Install] in
-- this order, and WorkingDirectory, ExecStart and KillMode are each assigned once.
pub validate_rendered_unit-iff-Accepted :
    (content : Text) → (validate_rendered_unit content ≡ ok tt) ↔ Accepted content
unfolding validate_rendered_unit
validate_rendered_unit-iff-Accepted content =
    ground (arith, verdict-scan_lines unit_sections required_directives (splitlines content))
