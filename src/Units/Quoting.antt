-- ===== src/Units/Quoting.antt =====
-- Reading back what `quote` and `escape_path` of Units.antt write.
use mathlib.Core.List.{append_assoc}
use machine_deck.Base.{
  if◌then◌else◌, ◌==◌, nat_eq, string_eq, drop, ok, ℕ, ◌≡◌, refl, Bool, true, false, ◌&&◌, ◌||◌,
  Option, none, some, [], ◌∷◌, ◌++◌, arith,
}
use machine_deck.Text.{Text, text_eq, starts_with}
use machine_deck.Text.Encoding.{replace}
use machine_deck.Units.{reject_control_characters, escaped, quote}

-- Putting a character before what was read.
abbrev push : ℕ → Option (Text × Text) → Option (Text × Text)
push c none = none
push c (some (value, rest)) = some (c ∷ value, rest)

-- the characters that stand before another one in a quoted value
abbrev is_escape : Bool → ℕ → Bool
is_escape dollar c = c == b'\\' || (c == b'%' || (dollar && c == b'$'))

abbrev completes : ℕ → ℕ → Bool
completes p c = p == c || (p == b'\\' && c == b'"')

-- systemd's reading of a quoted value after its opening quote, with the escape that was just read:
-- the value up to the closing quote, and what stands after it. `%%`, `$$`, `\\` and `\"` stand for
-- the second of their characters; a specifier, a variable or another escape is refused.
unfoldable pub read_quoted : Bool → Option ℕ → Text → Option (Text × Text)
read_quoted dollar pending [] = none
read_quoted dollar (some p) (c ∷ s) =
    let rest = push c (read_quoted dollar none s) in if completes p c then rest else none
read_quoted dollar none (c ∷ s) =
    let plain = push c (read_quoted dollar none s) in
    let escape = read_quoted dollar (some c) s in
    if c == b'"' then some ([], s) else if is_escape dollar c then escape else plain

replace-append :
    (old : ℕ) (new s t : Text) → replace old new (s ++ t) ≡ replace old new s ++ replace old new t
unfolding replace
replace-append old new [] t = refl
replace-append old new (c ∷ s) t =
    ground
      (arith, replace-append old new s t, append_assoc new (replace old new s) (replace old new t))

replace-cons :
    (old : ℕ) (new : Text) (c : ℕ) (s : Text)
    → replace old new (c ∷ s) ≡ replace old new (c ∷ []) ++ replace old new s
replace-cons old new c s = replace-append old new (c ∷ []) s

-- The replacements are those of each character.
escaped-cons :
    (dollar : Bool) (c : ℕ) (s : Text)
    → escaped dollar (c ∷ s) ≡ escaped dollar (c ∷ []) ++ escaped dollar s
unfolding escaped
escaped-cons true c s =
    rw
      (
        replace-cons 92 (92 ∷ 92 ∷ []) c s,
        replace-append 34 (92 ∷ 34 ∷ []) (replace 92 (92 ∷ 92 ∷ []) (c ∷ []))
            (replace 92 (92 ∷ 92 ∷ []) s),
        replace-append 37 (37 ∷ 37 ∷ []),
        replace-append 36 (36 ∷ 36 ∷ []),
      )
      refl
escaped-cons false c s =
    rw
      (
        replace-cons 92 (92 ∷ 92 ∷ []) c s,
        replace-append 34 (92 ∷ 34 ∷ []),
        replace-append 37 (37 ∷ 37 ∷ []),
      )
      refl

read-escaped_char :
    (dollar : Bool) (c : ℕ) (s : Text)
    → read_quoted dollar none (escaped dollar (c ∷ []) ++ s) ≡ push c (read_quoted dollar none s)
unfolding read_quoted escaped replace
read-escaped_char dollar c s = ground arith

-- The escaped value, its closing quote and what follows read back.
pub read-escaped :
    (dollar : Bool) (value rest : Text)
    → read_quoted dollar none (escaped dollar value ++ b'"' ∷ rest) ≡ some (value, rest)
unfolding read_quoted escaped replace
read-escaped true [] rest = refl
read-escaped false [] rest = refl
read-escaped dollar (c ∷ value) rest =
    rw
      (
        escaped-cons dollar c value,
        append_assoc (escaped dollar (c ∷ [])) (escaped dollar value) (b'"' ∷ rest),
        read-escaped_char dollar c,
        read-escaped dollar value rest,
      )
      refl

pub quote_written :
    (dollar : Bool) (value : Text) {quoted : Text}
    → quote dollar value ≡ ok quoted
    → quoted ≡ b'"' ∷ (escaped dollar value ++ b'"' ∷ [])
unfolding quote reject_control_characters
quote_written dollar value h = ground arith

-- What a quoted value is read as, whatever stands after it.
pub read_quoted-quote :
    (dollar : Bool) (value : Text) {quoted : Text} (rest : Text)
    → quote dollar value ≡ ok quoted
    → starts_with (b'"' ∷ []) quoted ≡ true
      × (read_quoted dollar none (drop 1 quoted ++ rest) ≡ some (value, rest))
unfolding starts_with
read_quoted-quote dollar value rest h =
    rw (quote_written dollar value h, append_assoc (escaped dollar value) (b'"' ∷ []) rest)
      (refl, read-escaped dollar value rest)
