-- ===== src/Network/Context.antt =====
-- The network context of a request: `request_network_context` of backend/app/security/auth.py.
use machine_deck.Base.{
  if◌then◌else◌, is_some, or_else, ℕ, Bool, true, false, not, ◌||◌, Option, none, some, List, [],
  ◌∷◌,
}
use machine_deck.Text.{Text, codes}
use machine_deck.Host.{IpAddress}
use mathlib.Core.Option
use mathlib.Core.List.{reverse}
use machine_deck.Network.Address.{
  Addresses, IpNetwork, NetworkSettings, Request, RequestNetworkContext, in_networks, address,
}
use machine_deck.Network.Headers.{Chain, forwarded_chain, x_forwarded_chain}

-- `for hop in reversed(chain)`: the first hop from the end that is no trusted proxy, if any
unfoldable pub first_untrusted : Addresses → List IpNetwork → List Text → Option (Option Text)
first_untrusted addresses proxies [] = some none
first_untrusted addresses proxies (hop ∷ hops) = elim (addresses.ip_address hop) [
  | none ↦ none
  | some ip ↦
      let rest = first_untrusted addresses proxies hops in
      if in_networks ip proxies then rest else some (some hop)
]

-- the client of a chain, which is `chain[0]` where every hop is trusted
unfoldable pub client_of : Addresses → List IpNetwork → List Text → Option Text
client_of addresses proxies [] = none
client_of addresses proxies (first ∷ hops) =
    Option.map (λ found. or_else found first)
      (first_untrusted addresses proxies (reverse (first ∷ hops)))

-- which headers are `present`
unfoldable pub has_x_headers : (Text → Option Text) → Bool
has_x_headers headers =
    is_some (headers (codes "x-forwarded-for"))
    || is_some (headers (codes "x-forwarded-host"))
    || is_some (headers (codes "x-forwarded-proto"))

unfoldable pub selected_chain : Addresses → ℕ → (Text → Option Text) → Option Chain
unfolding has_x_headers
selected_chain addresses limit headers = elim (headers (codes "forwarded")) [
  | some value ↦ if has_x_headers headers then none else forwarded_chain addresses value limit
  | none ↦ x_forwarded_chain addresses headers limit
]

-- the context of a trusted proxy's request, from its own
unfoldable pub forwarded_context :
    Addresses → NetworkSettings → Request → RequestNetworkContext → Option RequestNetworkContext
unfolding selected_chain client_of
forwarded_context addresses settings request context =
    elim (selected_chain addresses settings.forwarded_hop_limit request.headers) [
      | none ↦ none
      | some chain ↦
          Option.map
            (λ client. record {
              peer = context.peer;
              client = client;
              scheme = or_else chain.proto context.scheme;
              host = elim chain.host [ some host ↦ some host | none ↦ context.host ];
              forwarded = true;
            })
            (client_of addresses settings.trusted_proxies chain.hops)
    ]

unfoldable pub has_forwarding : (Text → Option Text) → Bool
has_forwarding headers = is_some (headers (codes "forwarded")) || has_x_headers headers

-- from the address of the peer, which is `none` where its text is no address
unfoldable pub peer_context :
    Addresses → NetworkSettings → Request → Option IpAddress → Option RequestNetworkContext
unfolding forwarded_context has_forwarding
peer_context addresses settings request none =
    let raw_peer = or_else request.client (codes "unknown") in
    some (record {
      peer = raw_peer;
      client = raw_peer;
      scheme = request.scheme;
      host = none;
      forwarded = false;
    })
peer_context addresses settings request (some peer) =
    let context : RequestNetworkContext = record {
      peer = addresses.show peer;
      client = addresses.show peer;
      scheme = request.scheme;
      host = request.headers (codes "host");
      forwarded = false;
    } in
    if not (in_networks peer settings.trusted_proxies) || not (has_forwarding request.headers)
    then some context
    else forwarded_context addresses settings request context

-- `request_network_context`: `none` is the response 400 FORWARDED_HEADERS_INVALID.
unfoldable pub request_network_context :
    Addresses → NetworkSettings → Request → Option RequestNetworkContext
unfolding peer_context
request_network_context addresses settings request =
    peer_context addresses settings request
      (address addresses (or_else request.client (codes "unknown")))

-- `client_is_trusted_network`
unfoldable pub client_is_trusted_network :
    Addresses → NetworkSettings → RequestNetworkContext → Bool
client_is_trusted_network addresses settings context = elim (addresses.ip_address context.client) [
  | none ↦ false
  | some ip ↦ in_networks ip settings.trusted_networks
]
