-- ===== src/Units/Lines.antt =====
-- What the manifest gives to a rendered unit stays on its line.
use machine_deck.Base.{
  nat_eq, string_eq, any, All, contains, ok, ℕ, ◌≡◌, refl, Bool, true, false, not, List, [], ◌∷◌,
  ◌++◌, arith,
}
use machine_deck.Text.{Text, codes, text_eq, join_rest, join}
use machine_deck.Text.Encoding.{Bytes, replace}
use machine_deck.Text.Joining.{contains-append}
use machine_deck.Units.{
  is_unit_char, unit_name_for, has_control_characters, reject_control_characters, escaped, quote,
  is_path_byte, hex_digit, escape_byte, escape_bytes,
}
use machine_deck.Units.Rendering.{quote_all, environment_lines}
use machine_deck.Units.Quoting.{quote_written}
use machine_deck.Units.Commands.{quote_all-cons}
use machine_deck.Units.Directories.{environment_lines-cons}

-- A text on one line.
abbrev pub IsLine : Text → Type 0
IsLine s = contains s 10 ≡ false

pub append-IsLine : (s t : Text) → IsLine s → IsLine t → IsLine (s ++ t)
append-IsLine s t h k = rw (contains-append 10 s t, h, k) refl

unit_chars-IsLine : (s : Text) → any (λ c. not (is_unit_char c)) s ≡ false → IsLine s
unfolding is_unit_char
unit_chars-IsLine [] h = refl
unit_chars-IsLine (c ∷ s) h = ground (arith, unit_chars-IsLine s)

pub unit_name_for-IsLine :
    (application_id : Text) {name : Text} → unit_name_for application_id ≡ ok name → IsLine name
unfolding unit_name_for
unit_name_for-IsLine application_id {name = name} h =
    let valid : any (λ c. not (is_unit_char c)) application_id ≡ false = ground arith in
    let written : name ≡ codes "machinedeck-" ++ application_id ++ codes ".service" =
      ground arith in
    rw written (
      append-IsLine (codes "machinedeck-" ++ application_id) (codes ".service")
        (append-IsLine (codes "machinedeck-") application_id refl
          (unit_chars-IsLine application_id valid))
        refl)

replace-IsLine : (old : ℕ) (new s : Text) → IsLine new → IsLine s → IsLine (replace old new s)
unfolding replace
replace-IsLine old new [] h k = refl
replace-IsLine old new (c ∷ s) h k =
    ground (arith, replace-IsLine old new s, contains-append 10 new (replace old new s))

escaped-IsLine : (dollar : Bool) (value : Text) → IsLine value → IsLine (escaped dollar value)
unfolding escaped
escaped-IsLine dollar value h = grind (arith, replace-IsLine)

pub quote-IsLine :
    (dollar : Bool) (value : Text) {quoted : Text} → quote dollar value ≡ ok quoted → IsLine quoted
unfolding quote reject_control_characters has_control_characters
quote-IsLine dollar value h =
    let one_line : IsLine value = ground arith in
    rw
      (
        quote_written dollar value h,
        contains-append 10 (escaped dollar value) (b'"' ∷ []),
        escaped-IsLine dollar value one_line,
      )
      refl

pub escape_bytes-IsLine : (bytes : Bytes) → IsLine (escape_bytes bytes)
unfolding escape_bytes escape_byte hex_digit is_path_byte
escape_bytes-IsLine [] = refl
escape_bytes-IsLine (b ∷ bytes) = ground (arith, escape_bytes-IsLine bytes)

join_rest-IsLine : (parts : List Text) → All IsLine parts → IsLine (join_rest b' ' parts)
unfolding join_rest
join_rest-IsLine [] h = refl
join_rest-IsLine (part ∷ parts) (h, hs) =
    append-IsLine part (join_rest b' ' parts) h (join_rest-IsLine parts hs)

pub join-IsLine : (parts : List Text) → All IsLine parts → IsLine (join b' ' parts)
unfolding join
join-IsLine [] h = refl
join-IsLine (part ∷ parts) (h, hs) =
    append-IsLine part (join_rest b' ' parts) h (join_rest-IsLine parts hs)

pub quote_all-IsLine :
    (arguments : List Text) {quoted : List Text}
    → quote_all arguments ≡ ok quoted
    → All IsLine quoted
unfolding quote_all
quote_all-IsLine [] {quoted = quoted} h = let e : quoted ≡ [] = ground arith in rw e tt
quote_all-IsLine (argument ∷ arguments) h =
    let (q, qs, hq, hqs, e) = quote_all-cons argument arguments h in
    rw e (quote-IsLine true argument hq, quote_all-IsLine arguments hqs)

pub environment_lines-IsLine :
    (environment : List (Text × Text)) {written : List Text}
    → environment_lines environment ≡ ok written
    → All IsLine written
unfolding environment_lines
environment_lines-IsLine [] {written = written} h = let e : written ≡ [] = ground arith in rw e tt
environment_lines-IsLine ((name, value) ∷ items) h =
    let (q, lines, hq, hl, e) = environment_lines-cons name value items h in
    rw e (
      append-IsLine (codes "Environment=") q refl (quote-IsLine false (name ++ b'=' ∷ value) hq),
      environment_lines-IsLine items hl,
    )
