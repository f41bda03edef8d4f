-- ===== src/Network/Headers.antt =====
-- The chains of forwarding headers: `_forwarded_chain` and `_x_forwarded_chain` of
-- backend/app/security/auth.py.
use machine_deck.Base.{
  ltb, leb, if◌then◌else◌, nat_eq, string_eq, ◌==◌, is_some, or_else, length, any, ℕ, Bool, not,
  ◌&&◌, ◌||◌, Option, none, some, List, [], ◌∷◌, ◌++◌, map,
}
use machine_deck.Text.{Text, codes, text_eq, lower, strip, strip_quotes, partition, split}
use mathlib.Core.Option
use machine_deck.Network.Address.{is_nil}
use machine_deck.Network.Address.{Addresses, address}

-- the characters that no forwarded host may hold
abbrev pub forbidden_in_host : ℕ → Bool
forbidden_in_host c =
    c == b'/' || c == 92 || c == b'@' || c == b'#' || c == b'?' || c == 13 || c == 10

-- `_valid_forwarded_host`
unfoldable pub valid_forwarded_host : Text → Option Text
valid_forwarded_host value =
    let host = strip_quotes (strip value) in
    if is_nil host || ltb 255 (length host) || any forbidden_in_host host then none else some host

-- the dictionary of one element of `Forwarded`
abbrev pub Parameters : Type 0
Parameters = List (Text × Text)

unfoldable pub parameter : Text → Parameters → Option Text
parameter key [] = none
parameter key ((k, v) ∷ rest) = if k == key then some v else parameter key rest

-- `for part in element.split(";")`
unfoldable pub add_parameter : Text → Parameters → Option Parameters
add_parameter part parameters =
    let (key, value) = partition b'=' (strip part) in
    elim value [
      | none ↦ none
      | some raw ↦
          if is_nil key || is_nil raw || is_some (parameter (lower key) parameters)
          then none
          else some (parameters ++ (lower key, strip raw) ∷ [])
    ]

unfoldable pub parse_parameters : List Text → Parameters → Option Parameters
unfolding add_parameter
parse_parameters [] parameters = some parameters
parse_parameters (part ∷ parts) parameters = elim (add_parameter part parameters) [
  | none ↦ none
  | some parameters' ↦ parse_parameters parts parameters'
]

-- what the loop keeps of one element: its parameters and the text of its address
unfoldable pub parse_element : Addresses → Text → Option (Parameters × Text)
unfolding parse_parameters
parse_element addresses element = elim (parse_parameters (split b';' element) []) [
  | none ↦ none
  | some parameters ↦ elim (parameter (codes "for") parameters) [
    | none ↦ none
    | some raw ↦ elim (address addresses raw) [
      | none ↦ none
      | some ip ↦ some (parameters, addresses.show ip)
    ]
  ]
]

unfoldable pub traverse {ℓ κ} :
    {A : Type ℓ} {B : Type κ} → (A → Option B) → List A → Option (List B)
traverse f [] = some []
traverse f (x ∷ xs) = elim (f x) [
  | none ↦ none
  | some y ↦ elim (traverse f xs) [ none ↦ none | some ys ↦ some (y ∷ ys) ]
]

-- `not elements or len(elements) > limit or any(not element for element in elements)` is false
unfoldable pub chain_length_valid : ℕ → List Text → Bool
chain_length_valid limit elements = leb (length elements) limit && not (any is_nil elements)

unfoldable pub protocol_valid : Text → Bool
protocol_valid proto = proto == codes "http" || proto == codes "https"

-- `none` inside is an absent value, `none` outside an error
unfoldable pub forwarded_proto : Option Text → Option (Option Text)
unfolding protocol_valid
forwarded_proto none = some none
forwarded_proto (some value) =
    let proto = lower (strip_quotes (strip value)) in
    if protocol_valid proto then some (some proto) else none

unfoldable pub forwarded_host : Option Text → Option (Option Text)
forwarded_host none = some none
forwarded_host (some []) = some none
forwarded_host (some (c ∷ host)) = Option.map some (valid_forwarded_host (c ∷ host))

-- a chain of addresses with the protocol and the host that go with it
pub record Chain : Type 0 where
  pub hops : List Text
  pub proto : Option Text
  pub host : Option Text

unfoldable pub chain_of : List Text → Option (Option Text) → Option (Option Text) → Option Chain
chain_of hops (some proto) (some host) = some (record { hops = hops; proto = proto; host = host })
chain_of hops _ _ = none

abbrev first_parameters : List (Parameters × Text) → Parameters
first_parameters [] = []
first_parameters ((parameters, _) ∷ _) = parameters

-- `_forwarded_chain`
unfoldable pub forwarded_chain : Addresses → Text → ℕ → Option Chain
unfolding parse_element traverse chain_length_valid forwarded_proto forwarded_host chain_of
forwarded_chain addresses value limit =
    let elements = map strip (split b',' value) in
    if chain_length_valid limit elements
    then elim (traverse (parse_element addresses) elements) [
      | none ↦ none
      | some parsed ↦
          let first = first_parameters parsed in
          chain_of (map (λ p. p.1) parsed) (forwarded_proto (parameter (codes "proto") first))
            (forwarded_host (parameter (codes "host") first))
    ]
    else none

abbrev has_comma : Text → Bool
has_comma = any (λ c. c == b',')

unfoldable pub x_proto : Option Text → Option (Option Text)
unfolding protocol_valid
x_proto none = some none
x_proto (some value) =
    let proto = lower (strip value) in
    if not (has_comma value) && protocol_valid proto then some (some proto) else none

unfoldable pub x_host : Option Text → Option (Option Text)
x_host none = some none
x_host (some value) = if has_comma value then none else Option.map some (valid_forwarded_host value)

-- `_x_forwarded_chain`; an empty `X-Forwarded-For` counts as an absent one.
unfoldable pub x_forwarded_chain : Addresses → (Text → Option Text) → ℕ → Option Chain
unfolding traverse chain_length_valid x_proto x_host chain_of
x_forwarded_chain addresses headers limit =
    let parts = map strip (split b',' (or_else (headers (codes "x-forwarded-for")) [])) in
    if is_nil (or_else (headers (codes "x-forwarded-for")) [])
      || not (chain_length_valid limit parts)
    then none
    else elim (traverse (λ part. Option.map addresses.show (address addresses part)) parts) [
      | none ↦ none
      | some hops ↦
          chain_of hops (x_proto (headers (codes "x-forwarded-proto")))
            (x_host (headers (codes "x-forwarded-host")))
    ]
