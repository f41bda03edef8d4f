-- ===== src/Network/Proxies.antt =====
-- Which address counts as the client of a request that came through proxies.
use machine_deck.Base.{
  or_else, All, ◌≡◌, refl, sym, ap, ◌∙◌, true, false, Option, none, some, List, [], ◌∷◌, ◌++◌,
  arith,
}
use mathlib.Core.Option
use mathlib.Core.List.{append_assoc, reverse, reverse_aux}
use machine_deck.Text.{Text, codes}
use machine_deck.Host.{IpAddress}
use machine_deck.Network.Address.{
  Addresses, IpNetwork, NetworkSettings, Request, RequestNetworkContext, in_networks, address,
}
use machine_deck.Network.Context.{first_untrusted, client_of, peer_context, request_network_context}

-- The hop is an address outside the trusted proxies, or one of them.
abbrev pub IsUntrusted : Addresses → List IpNetwork → Text → Type 0
IsUntrusted addresses proxies hop =
    (ip : IpAddress) × (addresses.ip_address hop ≡ some ip) × (in_networks ip proxies ≡ false)

abbrev pub IsTrusted : Addresses → List IpNetwork → Text → Type 0
IsTrusted addresses proxies hop =
    (ip : IpAddress) × (addresses.ip_address hop ≡ some ip) × (in_networks ip proxies ≡ true)

-- The peer of the request is read as an address of a trusted proxy.
abbrev pub PeerIsTrusted : Addresses → NetworkSettings → Request → Type 0
PeerIsTrusted addresses settings request =
    (ip : IpAddress) × (address addresses (or_else request.client (codes "unknown")) ≡ some ip)
    × (in_networks ip settings.trusted_proxies ≡ true)

forwarded_of_peer :
    (addresses : Addresses) (settings : NetworkSettings) (request : Request)
    (peer : Option IpAddress) {context : RequestNetworkContext}
    → peer_context addresses settings request peer ≡ some context
    → context.forwarded ≡ true
    → (ip : IpAddress) × (peer ≡ some ip) × (in_networks ip settings.trusted_proxies ≡ true)
unfolding peer_context
forwarded_of_peer addresses settings request none h f =
    cc (ap (Option.map (λ (c : RequestNetworkContext). c.forwarded)) h)
forwarded_of_peer addresses settings request (some ip) h f = (ip, refl, ground arith)

-- Forwarding headers count only where the peer is a trusted proxy: a context that was taken from
-- them comes from such a peer.
pub forwarded-PeerIsTrusted :
    (addresses : Addresses) (settings : NetworkSettings) (request : Request)
    {context : RequestNetworkContext}
    → request_network_context addresses settings request ≡ some context
    → context.forwarded ≡ true
    → PeerIsTrusted addresses settings request
unfolding request_network_context
forwarded-PeerIsTrusted addresses settings request h f =
    forwarded_of_peer addresses settings request _ h f

-- The context of a peer that is read as an address outside the trusted proxies is the peer's own,
-- whatever forwarding headers it sends.
pub untrusted_peer-context :
    (addresses : Addresses) (settings : NetworkSettings) (request : Request) (ip : IpAddress)
    → address addresses (or_else request.client (codes "unknown")) ≡ some ip
    → in_networks ip settings.trusted_proxies ≡ false
    → request_network_context addresses settings request
      ≡ some (record {
        peer = addresses.show ip;
        client = addresses.show ip;
        scheme = request.scheme;
        host = request.headers (codes "host");
        forwarded = false;
      })
unfolding request_network_context
untrusted_peer-context addresses settings request ip e outside =
    rw e (unfold peer_context in rw outside)

module _ (addresses : Addresses) (proxies : List IpNetwork) where
  first_untrusted-append :
      (trusted : List Text) (hop : Text) (earlier : List Text)
      → All (IsTrusted addresses proxies) trusted
      → IsUntrusted addresses proxies hop
      → first_untrusted addresses proxies (trusted ++ hop ∷ earlier) ≡ some (some hop)
  unfolding first_untrusted
  first_untrusted-append [] hop earlier h (ip, parses, outside) = ground arith
  first_untrusted-append (t ∷ trusted) hop earlier ((ip, parses, inside), h) u =
      ground (arith, first_untrusted-append trusted hop earlier h u)

  first_untrusted-trusted :
      (trusted : List Text)
      → All (IsTrusted addresses proxies) trusted
      → first_untrusted addresses proxies trusted ≡ some none
  unfolding first_untrusted
  first_untrusted-trusted [] h = refl
  first_untrusted-trusted (t ∷ trusted) ((ip, parses, inside), h) =
      ground (arith, first_untrusted-trusted trusted h)

All-reverse_aux {ℓ κ} :
    {A : Type ℓ} (P : A → Type κ) (xs acc : List A)
    → All P xs
    → All P acc
    → All P (reverse_aux xs acc)
All-reverse_aux P [] acc h k = k
All-reverse_aux P (x ∷ xs) acc (p, h) k = All-reverse_aux P xs (x ∷ acc) h (p, k)

reverse_aux-append {ℓ} :
    {A : Type ℓ} (xs ys acc : List A)
    → reverse_aux (xs ++ ys) acc ≡ reverse_aux ys (reverse_aux xs acc)
reverse_aux-append [] ys acc = refl
reverse_aux-append (x ∷ xs) ys acc = reverse_aux-append xs ys (x ∷ acc)

reverse_aux-acc {ℓ} : {A : Type ℓ} (xs acc : List A) → reverse_aux xs acc ≡ reverse xs ++ acc
reverse_aux-acc [] acc = refl
reverse_aux-acc (x ∷ xs) acc =
    reverse_aux-acc xs (x ∷ acc)
    ∙ sym (
        ap (λ ys. ys ++ acc) (reverse_aux-acc xs (x ∷ [])) ∙ append_assoc (reverse xs) (x ∷ []) acc)

client_of-cons :
    (addresses : Addresses) (proxies : List IpNetwork) (hops : List Text) {hop : Text}
    → first_untrusted addresses proxies (reverse hops) ≡ some (some hop)
    → client_of addresses proxies hops ≡ some hop
unfolding client_of first_untrusted
client_of-cons addresses proxies [] h = ground arith
client_of-cons addresses proxies (x ∷ hops) h = ap (Option.map (λ found. or_else found x)) h

-- In a chain whose last hops are trusted proxies and whose hop before them is not one, that hop
-- is the client, whatever the hops before it say.
pub client_of-untrusted :
    (addresses : Addresses) (proxies : List IpNetwork) (earlier : List Text) (hop : Text)
    (trusted : List Text)
    → IsUntrusted addresses proxies hop
    → All (IsTrusted addresses proxies) trusted
    → client_of addresses proxies (earlier ++ hop ∷ trusted) ≡ some hop
client_of-untrusted addresses proxies earlier hop trusted u h =
    client_of-cons addresses proxies (earlier ++ hop ∷ trusted) (
      ap (first_untrusted addresses proxies) (
        reverse_aux-append earlier (hop ∷ trusted) []
        ∙ reverse_aux-acc trusted (hop ∷ reverse earlier))
      ∙ first_untrusted-append addresses proxies (reverse trusted) hop (reverse earlier)
          (All-reverse_aux _ trusted [] h tt) u)

-- In a chain of trusted proxies only, the first hop is the client.
pub client_of-trusted :
    (addresses : Addresses) (proxies : List IpNetwork) (hop : Text) (hops : List Text)
    → All (IsTrusted addresses proxies) (hop ∷ hops)
    → client_of addresses proxies (hop ∷ hops) ≡ some hop
unfolding client_of
client_of-trusted addresses proxies hop hops h = ap (Option.map (λ found. or_else found hop)) (
    first_untrusted-trusted addresses proxies (reverse (hop ∷ hops))
      (All-reverse_aux _ (hop ∷ hops) [] h tt))
