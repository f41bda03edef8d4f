-- ===== src/Text/Joining.antt =====
-- Splitting what was joined.
use mathlib.Core.List.{append-nil}
use machine_deck.Base.{
  nat_eq, string_eq, All, contains, ℕ, ◌≡◌, refl, false, ◌||◌, List, [], ◌∷◌, ◌++◌, arith,
}
use machine_deck.Text.{Text, text_eq, split_parts, split, join_rest, join}

pub contains-append : (c : ℕ) (s t : Text) → contains (s ++ t) c ≡ contains s c || contains t c
contains-append c [] t = refl
contains-append c (d ∷ s) t = ground (arith, contains-append c s t)

split-absent :
    (sep : ℕ) (part : Text) → contains part sep ≡ false → split_parts sep part ≡ (part, [])
unfolding split_parts
split-absent sep [] h = refl
split-absent sep (c ∷ part) h = ground (arith, split-absent sep part)

split-append :
    (sep : ℕ) (part rest : Text)
    → contains part sep ≡ false
    → split_parts sep (part ++ sep ∷ rest)
      ≡ (let (next, parts) = split_parts sep rest in (part, next ∷ parts))
unfolding split_parts
split-append sep [] rest h = ground arith
split-append sep (c ∷ part) rest h = ground (arith, split-append sep part rest)

split_parts-join :
    (sep : ℕ) (part : Text) (parts : List Text)
    → All (λ p. contains p sep ≡ false) (part ∷ parts)
    → split_parts sep (join sep (part ∷ parts)) ≡ (part, parts)
unfolding join join_rest
split_parts-join sep part [] (h, _) = rw (append-nil part, split-absent sep part h) refl
split_parts-join sep part (next ∷ parts) (h, hs) =
    rw (split-append sep part (join sep (next ∷ parts)) h, split_parts-join sep next parts hs) refl

-- Texts without the separator are what splitting the joined text gives.
pub split-join :
    (sep : ℕ) (part : Text) (parts : List Text)
    → All (λ p. contains p sep ≡ false) (part ∷ parts)
    → split sep (join sep (part ∷ parts)) ≡ part ∷ parts
unfolding split
split-join sep part parts h = rw (split_parts-join sep part parts h) refl
