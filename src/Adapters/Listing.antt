-- ===== src/Adapters/Listing.antt =====
-- What the answer of `docker compose ps` lists, and that it is read so.
use mathlib.Core.Option
use mathlib.Core.Path.{subst}
use machine_deck.Base.{
  nat_eq, string_eq, Outcome, ok, raised, ℕ, ◌≡◌, refl, sym, ap, ◌∙◌, ◌↔◌, Option, none, some, List,
  [], ◌∷◌, map,
}
use machine_deck.Text.{Text, text_eq}
use machine_deck.Text.Encoding.{splitlines}
use machine_deck.Adapters.Compose.{
  Payload, entries, entry, EntryError, Container, parse_lines, parse_containers, mappings,
}

-- The lines of a text, each of which is blank or one container.
pub data Lines (loads : Text → Option Payload) : List Text → List Container → Type 0 where
  no_line : Lines loads [] []
  blank_line :
      (lines : List Text) (containers : List Container)
      → Lines loads lines containers
      → Lines loads ([] ∷ lines) containers
  container_line :
      (c : ℕ) (line : Text) (lines : List Text) (container : Container)
      (containers : List Container)
      → loads (c ∷ line) ≡ some (entry (some container))
      → Lines loads lines containers
      → Lines loads ((c ∷ line) ∷ lines) (container ∷ containers)

-- What a text lists: a JSON list of containers, one container, or, where it is not JSON, one
-- container on each line.
pub data Lists (loads : Text → Option Payload) (message : Text) : List Container → Type 0 where
  as_list :
      (containers : List Container)
      → loads message ≡ some (entries (map some containers))
      → Lists loads message containers
  as_one :
      (container : Container)
      → loads message ≡ some (entry (some container))
      → Lists loads message (container ∷ [])
  as_lines :
      (containers : List Container)
      → loads message ≡ none
      → Lines loads (splitlines message) containers
      → Lists loads message containers

-- a line that is not blank, by what it is parsed as and what the other lines give
one_line : Option Payload → Option (List (Option Container)) → Option (List (Option Container))
one_line known rest = elim known [
  | none ↦ none
  | some (entries _) ↦ Option.map (λ found. none ∷ found) rest
  | some (entry found) ↦ Option.map (λ others. found ∷ others) rest
]

one_line-container :
    (known : Option Payload) (rest : Option (List (Option Container))) (containers : List Container)
    → one_line known rest ≡ some (map some containers)
    → (first : Container) × (others : List Container) × (containers ≡ first ∷ others)
      × (known ≡ some (entry (some first)))
      × (rest ≡ some (map some others))
unfolding one_line
one_line-container none rest containers h = cc
one_line-container (some (entries found)) none containers h = cc
one_line-container (some (entries found)) (some r) [] h = cc
one_line-container (some (entries found)) (some r) (c ∷ cs) h = cc
one_line-container (some (entry found)) none containers h = cc
one_line-container (some (entry none)) (some r) [] h = cc
one_line-container (some (entry none)) (some r) (c ∷ cs) h = cc
one_line-container (some (entry (some first))) (some r) [] h = cc
one_line-container (some (entry (some first))) (some r) (c ∷ cs) h = (c, cs, refl, cc, cc)

parse_lines-Lines :
    (loads : Text → Option Payload) (lines : List Text) (containers : List Container)
    → parse_lines loads lines ≡ some (map some containers)
    → Lines loads lines containers
unfolding parse_lines one_line
parse_lines-Lines loads [] [] h = no_line
parse_lines-Lines loads [] (c ∷ cs) h = cc
parse_lines-Lines loads ([] ∷ lines) containers h =
    blank_line lines containers (parse_lines-Lines loads lines containers h)
parse_lines-Lines loads ((c ∷ line) ∷ lines) containers h =
    let (first, others, e, known, rest) =
      one_line-container (loads (c ∷ line)) (parse_lines loads lines) containers h in
    subst (Lines loads ((c ∷ line) ∷ lines)) (sym e)
      (container_line c line lines first others known (parse_lines-Lines loads lines others rest))

Lines-parse_lines :
    (loads : Text → Option Payload) (lines : List Text) (containers : List Container)
    → Lines loads lines containers
    → parse_lines loads lines ≡ some (map some containers)
unfolding parse_lines
Lines-parse_lines loads lines containers no_line = refl
Lines-parse_lines loads lines containers (blank_line rest _ h) =
    Lines-parse_lines loads rest containers h
Lines-parse_lines loads lines containers (container_line c line rest first others known h) =
    rw (parse_lines, known, Lines-parse_lines loads rest others h) refl

read_by : (Text → Option Payload) → Text → Option Payload → Option (List (Option Container))
read_by loads message known = elim known [
  | some (entries found) ↦ some found
  | some (entry found) ↦ some (found ∷ [])
  | none ↦ parse_lines loads (splitlines message)
]

read_by-Lists :
    (loads : Text → Option Payload) (message : Text) (known : Option Payload)
    (containers : List Container)
    → loads message ≡ known
    → read_by loads message known ≡ some (map some containers)
    → Lists loads message containers
unfolding read_by
read_by-Lists loads message (some (entries found)) containers k h = as_list containers (cc)
read_by-Lists loads message (some (entry found)) [] k h = cc
read_by-Lists loads message (some (entry none)) (c ∷ cs) k h = cc
read_by-Lists loads message (some (entry (some first))) (c ∷ []) k h = as_one c cc
read_by-Lists loads message (some (entry (some first))) (c ∷ (d ∷ cs)) k h = cc
read_by-Lists loads message none containers k h =
    as_lines containers k (parse_lines-Lines loads (splitlines message) containers h)

Lists-parse_containers :
    (loads : Text → Option Payload) (message : Text) (containers : List Container)
    → Lists loads message containers
    → parse_containers loads message ≡ some (map some containers)
unfolding parse_containers
Lists-parse_containers loads message containers (as_list _ k) = rw (parse_containers, k) refl
Lists-parse_containers loads message containers (as_one first k) = rw (parse_containers, k) refl
Lists-parse_containers loads message containers (as_lines _ k h) =
    rw (parse_containers, k) (Lines-parse_lines loads (splitlines message) containers h)

pub parse_containers-iff-Lists :
    (loads : Text → Option Payload) (message : Text) (containers : List Container)
    → (parse_containers loads message ≡ some (map some containers)) ↔ Lists loads message containers
unfolding parse_containers read_by
parse_containers-iff-Lists loads message containers = (
  read_by-Lists loads message (loads message) containers refl,
  Lists-parse_containers loads message containers,
)

pub mappings-map : (containers : List Container) → mappings (map some containers) ≡ ok containers
unfolding mappings
mappings-map [] = refl
mappings-map (c ∷ cs) = rw (mappings-map cs) refl

mappings_cons :
    (c : Container) (found : List (Option Container)) (read : Outcome EntryError (List Container))
    (containers : List Container)
    → ((cs : List Container) → read ≡ ok cs → found ≡ map some cs)
    → elim read [ ok cs ↦ ok (c ∷ cs) | raised e ↦ raised e ] ≡ ok containers
    → some c ∷ found ≡ map some containers
mappings_cons c found (raised e) containers k h = cc
mappings_cons c found (ok cs) [] k h = cc
mappings_cons c found (ok cs) (d ∷ ds) k h =
    let same : c ∷ cs ≡ d ∷ ds = cc in ap (λ xs. some c ∷ xs) (k cs refl) ∙ ap (map some) same

pub mappings-ok :
    (found : List (Option Container)) (containers : List Container)
    → mappings found ≡ ok containers
    → found ≡ map some containers
unfolding mappings
mappings-ok [] [] h = refl
mappings-ok [] (c ∷ cs) h = cc
mappings-ok (none ∷ found) containers h = cc
mappings-ok (some c ∷ found) containers h =
    mappings_cons c found (mappings found) containers (λ cs e. mappings-ok found cs e) h
