-- ===== src/Network/Address.antt =====
-- The text of an address in a header, and networks: `_address` and `_in_networks` of
-- backend/app/security/auth.py, with the data of a request.
use machine_deck.Base.{
  ltb, leb, if◌then◌else◌, nat_eq, string_eq, ◌==◌, any, ℕ, ◌+◌, Bool, true, false, not, ◌&&◌, ◌||◌,
  Option, none, some, List, [], ◌∷◌,
}
use machine_deck.Text.{
  Text, codes, text_eq, lower, strip, strip_quotes, partition, rpartition, all_digits,
}
use machine_deck.Host.{IpAddress, v4, v6}

-- `ipaddress.ip_address` on a text, and `str` of an address
pub record Addresses : Type 0 where
  pub ip_address : Text → Option IpAddress
  pub show : IpAddress → Text

-- a canonical network: its version, its first address and the number of its addresses
pub record IpNetwork : Type 0 where
  pub version_4 : Bool
  pub first : ℕ
  pub num_addresses : ℕ

pub record NetworkSettings : Type 0 where
  pub trusted_proxies : List IpNetwork
  pub trusted_networks : List IpNetwork
  pub forwarded_hop_limit : ℕ

-- the parts of a request that the code reads
pub record Request : Type 0 where
  pub client : Option Text
  pub scheme : Text
  pub headers : Text → Option Text

pub record RequestNetworkContext : Type 0 where
  pub peer : Text
  pub client : Text
  pub scheme : Text
  pub host : Option Text
  pub forwarded : Bool

abbrev number_in : ℕ → IpNetwork → Bool
number_in n network = leb network.first n && ltb n (network.first + network.num_addresses)

-- `address.version == network.version and address in network`
unfoldable pub in_network : IpAddress → IpNetwork → Bool
in_network (v4 n) network = network.version_4 && number_in n network
in_network (v6 n) network = not network.version_4 && number_in n network

unfoldable pub in_networks : IpAddress → List IpNetwork → Bool
unfolding in_network
in_networks address networks = any (in_network address) networks

abbrev pub is_nil : Text → Bool
is_nil [] = true
is_nil (_ ∷ _) = false

-- `suffix and (not suffix.startswith(":") or not suffix[1:].isdigit())` is false
unfoldable pub port_suffix : Text → Bool
port_suffix [] = true
port_suffix (c ∷ digits) = c == b':' && all_digits digits

-- `[address]`, with a port perhaps
unfoldable pub bracketed : Addresses → Text → Option IpAddress
unfolding port_suffix
bracketed addresses rest =
    let (address_text, after) = partition b']' rest in
    elim after [
      | none ↦ none
      | some suffix ↦ if port_suffix suffix then addresses.ip_address address_text else none
    ]

unfoldable pub with_port : Addresses → Text → Option IpAddress
with_port addresses candidate = elim (rpartition b':' candidate) [
  | none ↦ none
  | some (address_text, port) ↦ if all_digits port then addresses.ip_address address_text else none
]

unfoldable pub unbracketed : Addresses → Text → Option IpAddress
unfolding with_port
unbracketed addresses candidate = elim (addresses.ip_address candidate) [
  | some address ↦ some address
  | none ↦ with_port addresses candidate
]

unfoldable pub literal : Addresses → Text → Option IpAddress
unfolding bracketed unbracketed
literal addresses [] = none
literal addresses (c ∷ rest) =
    if lower (c ∷ rest) == codes "unknown" || c == b'_'
    then none
    else if c == b'['
    then bracketed addresses rest
    else unbracketed addresses (c ∷ rest)

-- `_address`
unfoldable pub address : Addresses → Text → Option IpAddress
unfolding literal
address addresses value = literal addresses (strip_quotes (strip value))
