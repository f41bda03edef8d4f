-- ===== src/Samples/Hops.antt =====
-- The theorems on forwarded requests, with addresses that are single characters.
use machine_deck.Base.{
  if◌then◌else◌, String, ◌≡◌, refl, true, false, Option, none, some, List, [], ◌∷◌,
}
use machine_deck.Text.{Text, codes, text_beq, lower, strip, strip_quotes, partition, split}
use machine_deck.Host.{IpAddress, v4, v6}
use machine_deck.Network.{
  Addresses, IpNetwork, NetworkSettings, Request, RequestNetworkContext, in_networks, address,
  parameter, forwarded_chain, first_untrusted, client_of, request_network_context,
}
use machine_deck.Network.Proxies.{PeerIsTrusted, forwarded-PeerIsTrusted, client_of-untrusted}

-- the text of one character is the address of its code
abbrev read_hop : Text → Option IpAddress
read_hop (c ∷ []) = some (v4 c)
read_hop _ = none

abbrev show_hop : IpAddress → Text
show_hop (v4 n) = n ∷ []
show_hop (v6 n) = n ∷ []

abbrev hop_addresses : Addresses
hop_addresses = record { ip_address = read_hop; show = show_hop }

-- the addresses from `p` to `z` are proxies
abbrev proxies : List IpNetwork
proxies = record { version_4 = true; first = 112; num_addresses = 11 } ∷ []

abbrev hop_settings : NetworkSettings
hop_settings = record { trusted_proxies = proxies; trusted_networks = []; forwarded_hop_limit = 8 }

abbrev forwarded_headers : Text → Option Text
forwarded_headers name =
    if text_beq name (codes "forwarded") then some (codes "for=a, for=q") else none

abbrev request_from : String → Request
request_from peer = record {
  client = some (codes peer);
  scheme = codes "http";
  headers = forwarded_headers;
}

abbrev forwarded_request : RequestNetworkContext
forwarded_request = record {
  peer = codes "p";
  client = codes "a";
  scheme = codes "http";
  host = none;
  forwarded = true;
}

forwarded_run :
    request_network_context hop_addresses hop_settings (request_from "p") ≡ some forwarded_request
unfolding request_network_context address strip_quotes strip lower in_networks forwarded_chain split
    partition parameter first_untrusted
forwarded_run = refl

forwarded-PeerIsTrusted_example : PeerIsTrusted hop_addresses hop_settings (request_from "p")
forwarded-PeerIsTrusted_example =
    forwarded-PeerIsTrusted hop_addresses hop_settings (request_from "p") forwarded_run refl

plain_peer : address hop_addresses (codes "a") ≡ some (v4 97)
unfolding address strip_quotes strip lower
plain_peer = refl

plain_peer-untrusted : in_networks (v4 97) proxies ≡ false
unfolding in_networks
plain_peer-untrusted = refl

proxy_q-trusted : in_networks (v4 113) proxies ≡ true
unfolding in_networks
proxy_q-trusted = refl

client_of-untrusted_example :
    client_of hop_addresses proxies (codes "b" ∷ codes "a" ∷ codes "q" ∷ []) ≡ some (codes "a")
client_of-untrusted_example =
    client_of-untrusted hop_addresses proxies (codes "b" ∷ []) (codes "a") (codes "q" ∷ [])
      (v4 97, refl, plain_peer-untrusted) ((v4 113, refl, proxy_q-trusted), tt)
