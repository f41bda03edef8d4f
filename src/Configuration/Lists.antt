-- ===== src/Configuration/Lists.antt =====
-- The trusted networks, proxies and origins of backend/app/config.py.
use machine_deck.Base.{
  ltb, if◌then◌else◌, nat_eq, string_eq, ◌==◌, is_none, or_else, any, contains, Outcome, ok, raised,
  String, Bool, not, ◌&&◌, none, some, List, [], ◌∷◌, ◌++◌, map,
}
use machine_deck.Text.{Text, text_beq, text_eq, rstrip, strip, split}
use machine_deck.Configuration.{
  Entry, one, array, ConfigError, origin_invalid, origin_not_exact, network_invalid,
  network_too_large, ConfiguredNetwork, UrlParts, ConfigSource, scalar_text, is_one_of,
}

-- `if not isinstance(values, list): values = [values]`
abbrev pub scalars : Entry → List Text
scalars (one found) = scalar_text found ∷ []
scalars (array _ found) = map scalar_text found

-- `configured.split(",") if configured else _value(...)`
unfoldable pub listed : ConfigSource → String → String → String → List Text → List Text
unfolding split
listed source variable section name default = elim (source.environment variable) [
  | some (c ∷ configured) ↦ split b',' (c ∷ configured)
  | _ ↦ elim (source.entry section name) [ some found ↦ scalars found | none ↦ default ]
]

-- `if network not in networks: networks.append(network)`
abbrev pub with_network : ConfiguredNetwork → List ConfiguredNetwork → List ConfiguredNetwork
with_network network networks =
    if any (λ n. text_beq n.name network.name) networks then networks else networks ++ network ∷ []

-- the loop of `_networks`, with the networks so far
unfoldable pub read_networks :
    ConfigSource
    → Bool
    → List ConfiguredNetwork
    → List Text
    → Outcome ConfigError (List ConfiguredNetwork)
unfolding strip
read_networks source are_proxies networks [] = ok networks
read_networks source are_proxies networks (found ∷ values) =
    elim (source.ip_network (strip found)) [
      | none ↦ raised network_invalid
      | some network ↦
          let rest = read_networks source are_proxies (with_network network networks) values in
          if are_proxies && ltb 65536 network.num_addresses then raised network_too_large else rest
    ]

-- `not parsed.hostname`, and the other conditions on an origin
abbrev pub is_exact : UrlParts → Text → Bool
is_exact parts origin =
    is_one_of parts.scheme ("http" ∷ "https" ∷ [])
    && (not (text_beq (or_else parts.hostname []) [])
        && (is_none parts.username
            && (is_none parts.password
                && (is_one_of parts.path ("" ∷ "/" ∷ [])
                    && (text_beq parts.query []
                        && (text_beq parts.fragment [] && not (contains origin b'*')))))))

abbrev pub with_origin : Text → List Text → List Text
with_origin origin origins = if contains origins origin then origins else origins ++ origin ∷ []

-- the loop of `_trusted_origins`, with the origins so far
unfoldable pub read_origins : ConfigSource → List Text → List Text → Outcome ConfigError (List Text)
unfolding rstrip strip
read_origins source origins [] = ok origins
read_origins source origins (found ∷ values) =
    let origin = rstrip (λ c. c == b'/') (strip found) in
    let same = read_origins source origins values in
    let more = read_origins source (with_origin origin origins) values in
    if text_beq origin [] then same else elim (source.urlsplit origin) [
      | none ↦ raised origin_invalid
      | some parts ↦ if is_exact parts origin then more else raised origin_not_exact
    ]
