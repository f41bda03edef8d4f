-- ===== src/Units/Commands.antt =====
-- The `ExecStart` line of a rendered unit, read back into the arguments of the command.
use mathlib.Core.Option
use mathlib.Core.List.{append_assoc}
use machine_deck.Base.{
  if◌then◌else◌, length, drop, ok, ℕ, zero, suc, ◌≡◌, refl, true, Option, none, some, List, [], ◌∷◌,
  ◌++◌, arith,
}
use machine_deck.Base.Results.{bind-eq-ok}
use machine_deck.Text.{Text, join_rest, join, starts_with}
use machine_deck.Units.{escaped, quote}
use machine_deck.Units.Rendering.{quote_all}
use machine_deck.Units.Quoting.{read_quoted, read-escaped, quote_written}

abbrev after_space : Text → Text
after_space s = if starts_with (b' ' ∷ []) s then drop 1 s else s

-- The words of a command line, which are quoted and have a space between them. The number is that
-- of the words to read, and no text may be left after them.
unfoldable pub read_words : ℕ → Text → Option (List Text)
unfolding starts_with
read_words zero [] = some []
read_words zero (c ∷ s) = none
read_words (suc n) s =
    if starts_with (b'"' ∷ []) s
    then elim (read_quoted true none (drop 1 s)) [
      | none ↦ none
      | some (word, rest) ↦ Option.map (λ words. word ∷ words) (read_words n (after_space rest))
    ]
    else none

after_space-join_rest : (parts : List Text) → after_space (join_rest b' ' parts) ≡ join b' ' parts
unfolding join join_rest starts_with
after_space-join_rest [] = refl
after_space-join_rest (part ∷ parts) = refl

read_words-cons :
    (n : ℕ) (argument : Text) {quoted : Text} (rest : Text)
    → quote true argument ≡ ok quoted
    → read_words (suc n) (quoted ++ rest)
      ≡ Option.map (λ words. argument ∷ words) (read_words n (after_space rest))
unfolding read_words starts_with
read_words-cons n argument rest h =
    rw
      (
        quote_written true argument h,
        append_assoc (escaped true argument) (b'"' ∷ []) rest,
        read-escaped true argument rest,
      )
      refl

pub quote_all-cons :
    (argument : Text) (arguments : List Text) {quoted : List Text}
    → quote_all (argument ∷ arguments) ≡ ok quoted
    → (q : Text) × (qs : List Text) × (quote true argument ≡ ok q)
      × (quote_all arguments ≡ ok qs)
      × (quoted ≡ q ∷ qs)
unfolding quote_all
quote_all-cons argument arguments h =
    let (q, hq, h') = bind-eq-ok (quote true argument) _ h in
    let (qs, hqs, h'') = bind-eq-ok (quote_all arguments) _ h' in (q, qs, hq, hqs, ground arith)

-- The quoted arguments, joined by spaces, are read as the arguments: none is split, joined to
-- another, expanded or ended early by what it holds.
pub read_words-quote_all :
    (arguments : List Text) {quoted : List Text}
    → quote_all arguments ≡ ok quoted
    → read_words (length arguments) (join b' ' quoted) ≡ some arguments
unfolding join quote_all read_words
read_words-quote_all [] h = ground arith
read_words-quote_all (argument ∷ arguments) h =
    let (q, qs, hq, hqs, e) = quote_all-cons argument arguments h in
    rw
      (
        e,
        read_words-cons (length arguments) argument (join_rest b' ' qs) hq,
        after_space-join_rest qs,
        read_words-quote_all arguments hqs,
      )
      refl
