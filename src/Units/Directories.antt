-- ===== src/Units/Directories.antt =====
-- The `WorkingDirectory` and `Environment` lines of a rendered unit, read back.
use mathlib.Core.Option
use machine_deck.Base.{
  ltb, if◌then◌else◌, ◌==◌, nat_eq, string_eq, drop, ok, ℕ, ◌+◌, ◌-◌, ◌*◌, ◌≡◌, refl, false, Option,
  none, some, List, [], ◌∷◌, ◌++◌, map, arith,
}
use machine_deck.Base.Results.{bind-eq-ok}
use machine_deck.Text.{Text, codes, text_eq, starts_with}
use machine_deck.Text.Encoding.{Bytes}
use machine_deck.Units.{
  reject_control_characters, quote, is_path_byte, hex_digit, escape_byte, escape_bytes,
}
use machine_deck.Units.Rendering.{environment_lines}
use machine_deck.Units.Quoting.{read_quoted, read-escaped, quote_written}

-- what was read of an escape: its `%` or `\\`, the `x` after it, and the first hexadecimal digit
pub data Escape : Type 0 where
  no_escape percent backslash hex : Escape
  hex_after : ℕ → Escape

abbrev hex_value : ℕ → ℕ
hex_value c = if ltb c b'a' then c - b'0' else c - b'a' + 10

abbrev push_byte : ℕ → Option Bytes → Option Bytes
push_byte b bytes = Option.map (λ bs. b ∷ bs) bytes

-- systemd's reading of an unquoted value: `%%` is a percent sign, and `\\x` gives a byte by two
-- hexadecimal digits.
unfoldable pub read_path : Escape → Text → Option Bytes
read_path no_escape [] = some []
read_path _ [] = none
read_path no_escape (c ∷ s) =
    let plain = push_byte c (read_path no_escape s) in
    let after_percent = read_path percent s in
    let after_backslash = read_path backslash s in
    if c == b'%' then after_percent else if c == b'\\' then after_backslash else plain
read_path percent (c ∷ s) =
    let rest = push_byte b'%' (read_path no_escape s) in if c == b'%' then rest else none
read_path backslash (c ∷ s) = let rest = read_path hex s in if c == b'x' then rest else none
read_path hex (c ∷ s) = read_path (hex_after (hex_value c)) s
read_path (hex_after d) (c ∷ s) = push_byte (16 * d + hex_value c) (read_path no_escape s)

hex_value-hex_digit : (d : ℕ) → hex_value (hex_digit d) ≡ d
unfolding hex_digit
hex_value-hex_digit d = ground arith

read_path-escape_byte :
    (b : ℕ) (s : Text)
    → read_path no_escape (escape_byte b ++ s) ≡ push_byte b (read_path no_escape s)
unfolding read_path escape_byte is_path_byte
read_path-escape_byte b s = ground arith

-- The escaped bytes are read as they were.
pub read_path-escape_bytes : (bytes : Bytes) → read_path no_escape (escape_bytes bytes) ≡ some bytes
unfolding escape_bytes read_path
read_path-escape_bytes [] = refl
read_path-escape_bytes (b ∷ bytes) =
    rw (read_path-escape_byte b (escape_bytes bytes), read_path-escape_bytes bytes) refl

abbrev environment_prefix : Text
environment_prefix = codes "Environment=\""

-- The assignment that an `Environment` line makes.
unfoldable pub read_environment : Text → Option (Text × Text)
unfolding starts_with
read_environment line =
    if starts_with environment_prefix line then read_quoted false none (drop 13 line) else none

read_environment-quote :
    (assignment : Text) {quoted : Text}
    → quote false assignment ≡ ok quoted
    → read_environment (codes "Environment=" ++ quoted) ≡ some (assignment, [])
unfolding read_environment starts_with
read_environment-quote assignment h =
    rw (quote_written false assignment h, read-escaped false assignment []) refl

-- The lines of an environment are those of its first item and of the others.
pub environment_lines-cons :
    (name value : Text) (items : List (Text × Text)) {written : List Text}
    → environment_lines ((name, value) ∷ items) ≡ ok written
    → (quoted : Text) × (lines : List Text) × (quote false (name ++ b'=' ∷ value) ≡ ok quoted)
      × (environment_lines items ≡ ok lines)
      × (written ≡ (codes "Environment=" ++ quoted) ∷ lines)
unfolding environment_lines
environment_lines-cons name value items h =
    let (_, _, h1) =
      bind-eq-ok (reject_control_characters value (codes "environment variable " ++ name)) _ h in
    let (q, hq, h2) = bind-eq-ok (quote false (name ++ b'=' ∷ value)) _ h1 in
    let (rest, hr, h3) = bind-eq-ok (environment_lines items) _ h2 in
    (q, rest, hq, hr, ground arith)

-- Each line of the environment makes the assignment of its item, and nothing else stands on it.
pub read_environment-environment_lines :
    (environment : List (Text × Text)) {written : List Text}
    → environment_lines environment ≡ ok written
    → map read_environment written ≡ map (λ item. some (item.0 ++ b'=' ∷ item.1, [])) environment
unfolding environment_lines
read_environment-environment_lines [] h = ground arith
read_environment-environment_lines ((name, value) ∷ items) h =
    let (q, lines, hq, hl, e) = environment_lines-cons name value items h in
    rw
      (
        e,
        read_environment-quote (name ++ b'=' ∷ value) hq,
        read_environment-environment_lines items hl,
      )
      refl
