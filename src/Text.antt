-- ===== src/Text.antt =====
-- Texts that the program takes apart, as lists of code points: Python's `str` methods, exact for the
-- code points below 256, which is what header values decode to.
pub mod Encoding
pub mod Joining
use Prim.Native.Char.{code}
use machine_deck.Base.{
  Equality, leb, if◌then◌else◌, ◌==◌, nat_eq, string_eq, all, ℕ, ◌+◌, String, ◌≡◌, refl, ◌↔◌, Bool,
  true, false, not, ◌&&◌, ◌||◌, Option, none, some, List, [], ◌∷◌, ◌++◌, map, arith,
}

abbrev pub Text : Type 0
Text = List ℕ

-- the code points of a literal
abbrev pub codes : String → Text
codes String.[] = []
codes (String.◌∷◌ c s) = code c ∷ codes s

abbrev pub text_beq : Text → Text → Bool
text_beq [] [] = true
text_beq (a ∷ s) (b ∷ t) = a == b && text_beq s t
text_beq _ _ = false

pub text_beq_iff : (s t : Text) → (text_beq s t ≡ true) ↔ (s ≡ t)
text_beq_iff [] [] = ground arith
text_beq_iff [] (b ∷ t) = ground arith
text_beq_iff (a ∷ s) [] = ground arith
text_beq_iff (a ∷ s) (b ∷ t) = ground (arith, text_beq_iff s t)

instance abbrev pub text_eq : Equality Text
text_eq = record { same = text_beq; same_iff = text_beq_iff }

-- `str.isspace` of one character
unfoldable pub is_space : ℕ → Bool
is_space c = (leb 9 c && leb c 13) || (leb 28 c && leb c 32) || c == 133 || c == 160

-- `str.isdigit` of one character; the superscripts are digits to it.
unfoldable pub is_digit : ℕ → Bool
is_digit c = (leb b'0' c && leb c b'9') || c == 178 || c == 179 || c == 185

unfoldable pub lower_char : ℕ → ℕ
lower_char c =
    if (leb b'A' c && leb c b'Z') || (leb 192 c && (leb c 222 && not (c == 215))) then c + 32 else c

unfoldable pub lower : Text → Text
unfolding lower_char
lower = map lower_char

unfoldable pub lstrip : (ℕ → Bool) → Text → Text
lstrip p [] = []
lstrip p (c ∷ s) = let rest = lstrip p s in if p c then rest else c ∷ s

unfoldable pub rstrip : (ℕ → Bool) → Text → Text
rstrip p [] = []
rstrip p (c ∷ s) = elim (rstrip p s) [ [] ↦ if p c then [] else c ∷ [] | d ∷ rest ↦ c ∷ d ∷ rest ]

-- `s.strip()` and `s.strip('"')`
unfoldable pub strip_by : (ℕ → Bool) → Text → Text
unfolding lstrip rstrip
strip_by p s = rstrip p (lstrip p s)

unfoldable pub strip : Text → Text
unfolding strip_by is_space
strip s = strip_by is_space s

unfoldable pub strip_quotes : Text → Text
unfolding strip_by
strip_quotes s = strip_by (λ c. c == b'"') s

-- `s.partition(sep)` at one character: what stands before the first one, and after it if there is one
unfoldable pub partition : ℕ → Text → Text × Option Text
partition sep [] = ([], none)
partition sep (c ∷ s) =
    let (before, after) = partition sep s in if c == sep then ([], some s) else (c ∷ before, after)

-- `s.rpartition(sep)`: what stands before the last one, and after it
unfoldable pub rpartition : ℕ → Text → Option (Text × Text)
rpartition sep [] = none
rpartition sep (c ∷ s) = elim (rpartition sep s) [
  | some (before, after) ↦ some (c ∷ before, after)
  | none ↦ if c == sep then some ([], s) else none
]

-- `s.split(sep)`: its first part and the others, so that it is never empty
unfoldable pub split_parts : ℕ → Text → Text × List Text
split_parts sep [] = ([], [])
split_parts sep (c ∷ s) =
    let (part, parts) = split_parts sep s in
    if c == sep then ([], part ∷ parts) else (c ∷ part, parts)

unfoldable pub split : ℕ → Text → List Text
unfolding split_parts
split sep s = let (part, parts) = split_parts sep s in part ∷ parts

-- `sep.join(parts)` for one character
unfoldable pub join_rest : ℕ → List Text → Text
join_rest sep [] = []
join_rest sep (part ∷ parts) = sep ∷ (part ++ join_rest sep parts)

unfoldable pub join : ℕ → List Text → Text
unfolding join_rest
join sep [] = []
join sep (part ∷ parts) = part ++ join_rest sep parts

unfoldable pub starts_with : Text → Text → Bool
starts_with [] s = true
starts_with (p ∷ prefix) [] = false
starts_with (p ∷ prefix) (c ∷ s) = p == c && starts_with prefix s

-- `s.isdigit()`
unfoldable pub all_digits : Text → Bool
unfolding is_digit
all_digits [] = false
all_digits (c ∷ s) = all is_digit (c ∷ s)

join-split_parts :
    (sep : ℕ) (s : Text) → let (part, parts) = split_parts sep s in part ++ join_rest sep parts ≡ s
unfolding join_rest split_parts
join-split_parts sep [] = refl
join-split_parts sep (c ∷ s) = ground (arith, join-split_parts sep s)

-- Joining what was split gives the text back.
pub join-split : (sep : ℕ) (s : Text) → join sep (split sep s) ≡ s
unfolding join split
join-split sep s = join-split_parts sep s
