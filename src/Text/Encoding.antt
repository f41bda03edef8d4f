-- ===== src/Text/Encoding.antt =====
-- Python's `str` methods on whole texts, and the bytes of a text: `replace`, `endswith`,
-- `splitlines`, the order of texts, and `encode("utf-8")`. A lone surrogate, on which `encode`
-- raises, does not occur in a text that was read from JSON or YAML.
use machine_deck.Base.{
  ltb, if◌then◌else◌, nat_eq, string_eq, ◌==◌, ℕ, ◌+◌, ◌/◌, ◌%◌, Bool, true, false, ◌&&◌, ◌||◌,
  List, [], ◌∷◌, ◌++◌,
}
use machine_deck.Text.{Text, text_eq, starts_with}

abbrev pub Bytes : Type 0
Bytes = List ℕ

-- `s.replace(old, new)` at one character
unfoldable pub replace : ℕ → Text → Text → Text
replace old new [] = []
replace old new (c ∷ s) = let rest = replace old new s in if c == old then new ++ rest else c ∷ rest

-- `s.endswith(c)` at one character
unfoldable pub ends_with : ℕ → Text → Bool
ends_with c [] = false
ends_with c (d ∷ []) = c == d
ends_with c (_ ∷ e ∷ s) = ends_with c (e ∷ s)

unfoldable pub utf8_char : ℕ → Bytes
utf8_char c =
    if ltb c 128
    then c ∷ []
    else if ltb c 2048
    then (192 + c / 64) ∷ (128 + c % 64) ∷ []
    else if ltb c 65536
    then (224 + c / 4096) ∷ (128 + c / 64 % 64) ∷ (128 + c % 64) ∷ []
    else (240 + c / 262144) ∷ (128 + c / 4096 % 64) ∷ (128 + c / 64 % 64) ∷ (128 + c % 64) ∷ []

-- `s.encode("utf-8")`
unfoldable pub encode : Text → Bytes
unfolding utf8_char
encode [] = []
encode (c ∷ s) = utf8_char c ++ encode s

-- the line boundaries of `splitlines` other than the line feed and the carriage return
unfoldable pub is_line_break : ℕ → Bool
is_line_break c =
    c == 11
    || (c == 12 || (c == 28 || (c == 29 || (c == 30 || (c == 133 || (c == 8232 || c == 8233))))))

-- the line that stands before what is already cut into lines
abbrev extend_line : ℕ → List Text → List Text
extend_line c [] = (c ∷ []) ∷ []
extend_line c (line ∷ lines) = (c ∷ line) ∷ lines

-- `s.splitlines()`: a carriage return and the line feed after it end one line.
unfoldable pub splitlines : Text → List Text
unfolding is_line_break
splitlines [] = []
splitlines (c ∷ s) =
    let lines = splitlines s in
    if c == 13 && starts_with (10 ∷ []) s
    then lines
    else if c == 10 || (c == 13 || is_line_break c)
    then [] ∷ lines
    else extend_line c lines

-- the order of texts, and of pairs of texts
unfoldable pub text_leb : Text → Text → Bool
text_leb [] t = true
text_leb (a ∷ s) [] = false
text_leb (a ∷ s) (b ∷ t) = ltb a b || (a == b && text_leb s t)

unfoldable pub item_leb : Text × Text → Text × Text → Bool
unfolding text_leb
item_leb (name, value) (name', value') =
    if name == name' then text_leb value value' else text_leb name name'

unfoldable pub insert_item : Text × Text → List (Text × Text) → List (Text × Text)
unfolding item_leb
insert_item item [] = item ∷ []
insert_item item (first ∷ items) =
    let rest = insert_item item items in
    if item_leb item first then item ∷ first ∷ items else first ∷ rest

-- `sorted(d.items())`
unfoldable pub sorted : List (Text × Text) → List (Text × Text)
unfolding insert_item
sorted [] = []
sorted (item ∷ items) = insert_item item (sorted items)
