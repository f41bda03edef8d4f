-- ===== src/Configuration/Trusted.antt =====
-- What the trusted proxies and origins that are read are like.
use mathlib.Core.Path.{subst}
use machine_deck.Base.{
  ltb, if◌then◌else◌, ◌==◌, nat_eq, string_eq, All, All-append, Outcome, ok, raised, ◌≤◌, ◌≡◌, refl,
  Bool, true, false, ◌&&◌, Option, none, some, List, [], ◌∷◌, ◌++◌, arith,
}
use machine_deck.Base.Results.{guard-passed}
use machine_deck.Text.{Text, text_beq, text_eq, rstrip, strip}
use machine_deck.Configuration.{
  origin_invalid, origin_not_exact, network_invalid, network_too_large, ConfiguredNetwork, UrlParts,
  ConfigSource,
}
use machine_deck.Configuration.Lists.{
  with_network, read_networks, is_exact, with_origin, read_origins,
}

abbrev pub IsSmall : ConfiguredNetwork → Type 0
IsSmall network = network.num_addresses ≤ 65536

abbrev pub IsOrigin : ConfigSource → Text → Type 0
IsOrigin source origin =
    (parts : UrlParts) × (source.urlsplit origin ≡ some parts)
    × (is_exact parts origin ≡ true)
    × (text_beq origin [] ≡ false)

chosen-All {ℓ κ} :
    {A : Type ℓ} (P : A → Type κ) (b : Bool) (x : A) (xs : List A)
    → P x
    → All P xs
    → All P (if b then xs else xs ++ x ∷ [])
chosen-All P true x xs p h = h
chosen-All P false x xs p h = All-append P xs (x ∷ []) h (p, tt)

-- one turn of the loop, with what holds of the turns after it
read-IsSmall :
    (source : ConfigSource) (networks : List ConfiguredNetwork) (values : List Text)
    (known : Option ConfiguredNetwork) {read : List ConfiguredNetwork}
    → ((networks' : List ConfiguredNetwork)
        → All IsSmall networks'
        → read_networks source true networks' values ≡ ok read
        → All IsSmall read)
    → All IsSmall networks
    → elim known [
      | none ↦ raised network_invalid
      | some network ↦
          if true && ltb 65536 network.num_addresses
          then raised network_too_large
          else read_networks source true (with_network network networks) values
    ]
      ≡ ok read
    → All IsSmall read
read-IsSmall source networks values none k h e = cc
read-IsSmall source networks values (some network) k h e =
    let (small, e') = guard-passed (ltb 65536 network.num_addresses) network_too_large _ e in
    k (with_network network networks)
      (chosen-All IsSmall _ network networks (ground (arith, small)) h) e'

pub read_networks-IsSmall :
    (source : ConfigSource) (networks : List ConfiguredNetwork) (values : List Text)
    {read : List ConfiguredNetwork}
    → All IsSmall networks
    → read_networks source true networks values ≡ ok read
    → All IsSmall read
unfolding read_networks
read_networks-IsSmall source networks [] {read = read} h e =
    let same : networks ≡ read = cc in subst (All IsSmall) same h
read_networks-IsSmall source networks (found ∷ values) h e =
    read-IsSmall source networks values (source.ip_network (strip found))
      (λ networks' h e. read_networks-IsSmall source networks' values h e) h e

passed-guard {ℓ} :
    {E A : Type ℓ} (b : Bool) (e : E) (r : Outcome E A) {a : A}
    → (if b then r else raised e) ≡ ok a
    → (b ≡ true) × (r ≡ ok a)
passed-guard true e r h = (refl, h)
passed-guard false e r h = cc

abbrev origin_of : Text → Text
origin_of found = rstrip (λ c. c == b'/') (strip found)

read-IsOrigin :
    (source : ConfigSource) (origins values : List Text) (origin : Text) (b : Bool)
    {read : List Text}
    → text_beq origin [] ≡ b
    → (known : Option UrlParts) → source.urlsplit origin ≡ known
    → ((origins' : List Text)
        → All (IsOrigin source) origins'
        → read_origins source origins' values ≡ ok read
        → All (IsOrigin source) read)
    → All (IsOrigin source) origins
    → (if b then read_origins source origins values else elim known [
      | none ↦ raised origin_invalid
      | some parts ↦
          if is_exact parts origin
          then read_origins source (with_origin origin origins) values
          else raised origin_not_exact
    ])
      ≡ ok read
    → All (IsOrigin source) read
read-IsOrigin source origins values origin true full known known_is k h e = k origins h e
read-IsOrigin source origins values origin false full none known_is k h e = cc
read-IsOrigin source origins values origin false full (some parts) known_is k h e =
    let (exact, e') = passed-guard (is_exact parts origin) origin_not_exact _ e in
    k (with_origin origin origins)
      (chosen-All (IsOrigin source) _ origin origins (parts, known_is, exact, full) h) e'

pub read_origins-IsOrigin :
    (source : ConfigSource) (origins : List Text) (values : List Text) {read : List Text}
    → All (IsOrigin source) origins
    → read_origins source origins values ≡ ok read
    → All (IsOrigin source) read
unfolding read_origins
read_origins-IsOrigin source origins [] {read = read} h e =
    let same : origins ≡ read = cc in subst (All (IsOrigin source)) same h
read_origins-IsOrigin source origins (found ∷ values) h e =
    read-IsOrigin source origins values (origin_of found) (text_beq (origin_of found) []) refl
      (source.urlsplit (origin_of found)) refl
      (λ origins' h e. read_origins-IsOrigin source origins' values h e) h e
