-- ===== src/Ports/Addresses.antt =====
-- When two bind addresses collide: `addresses_conflict` against the addresses that each accepts.
use machine_deck.Base.{
  if◌then◌else◌, ◌==◌, nat_eq, string_eq, String, ◌≡◌, sym, ◌∙◌, ◌↔◌, ◌⊎◌, true, ◌&&◌, ◌||◌, some,
  arith, eq_iff,
}
use machine_deck.Host.{IpAddress, v4, v6, Host, is_v4, ip_beq_iff}
use machine_deck.Ports.{transport_eq, parsed_conflict, addresses_conflict}

-- The text is the one that `str(ipaddress.ip_address(...))` gives for the address, so that only the
-- wildcards are spelled as wildcards.
pub record IsCanonical (host : Host) (text : String) (ip : IpAddress) : Type 0 where
  pub parses : host.ip_address text ≡ some ip
  pub wildcard_v6 : (text ≡ "::") ↔ (ip ≡ v6 0)
  pub wildcard_v4 : (text ≡ "0.0.0.0") ↔ (ip ≡ v4 0)

-- A socket that is bound to `ip` may receive what is sent to `target`: a wildcard of IPv6 receives
-- for every address, one of IPv4 for the addresses of IPv4.
abbrev pub Accepts : IpAddress → IpAddress → Type 0
Accepts ip target = (ip ≡ target) ⊎ (ip ≡ v6 0) ⊎ ((ip ≡ v4 0) × (is_v4 target ≡ true))

-- an address that both receive for, where there is one
abbrev meeting : String → IpAddress → IpAddress → IpAddress
meeting first a b = if first == "::" || (first == "0.0.0.0" && is_v4 b) then b else a

parsed_conflict_sound :
    (host : Host) (first second : String) (a b : IpAddress)
    → IsCanonical host first a
    → IsCanonical host second b
    → parsed_conflict first second a b ≡ true
    → Accepts a (meeting first a b) × Accepts b (meeting first a b)
unfolding parsed_conflict
parsed_conflict_sound host first second a b p q h = ground (
  arith,
  p.wildcard_v6,
  p.wildcard_v4,
  q.wildcard_v6,
  q.wildcard_v4,
  eq_iff first "::",
  eq_iff second "::",
  eq_iff first "0.0.0.0",
  eq_iff second "0.0.0.0",
  ip_beq_iff a b,
)

parsed_conflict_complete :
    (host : Host) (first second : String) (a b target : IpAddress)
    → IsCanonical host first a
    → IsCanonical host second b
    → Accepts a target
    → Accepts b target
    → parsed_conflict first second a b ≡ true
unfolding parsed_conflict
parsed_conflict_complete host first second a b target p q x y = ground (
  arith,
  p.wildcard_v6,
  p.wildcard_v4,
  q.wildcard_v6,
  q.wildcard_v4,
  eq_iff first "::",
  eq_iff second "::",
  eq_iff first "0.0.0.0",
  eq_iff second "0.0.0.0",
  ip_beq_iff a b,
)

addresses_conflict-parsed :
    (host : Host) (first second : String) (a b : IpAddress)
    → host.ip_address first ≡ some a
    → host.ip_address second ≡ some b
    → addresses_conflict host first second ≡ parsed_conflict first second a b
unfolding addresses_conflict
addresses_conflict-parsed host first second a b p q = ground arith

-- For addresses in canonical spelling the code reports a conflict exactly where some address is
-- received for by both.
pub addresses_conflict_iff :
    (host : Host) (first second : String) {a b : IpAddress}
    → IsCanonical host first a
    → IsCanonical host second b
    → (addresses_conflict host first second ≡ true)
      ↔ ((target : IpAddress) × Accepts a target × Accepts b target)
addresses_conflict_iff host first second {a} {b} p q =
    let e = addresses_conflict-parsed host first second a b p.parses q.parses in
    (
      (λ h.
          let (x, y) = parsed_conflict_sound host first second a b p q (sym e ∙ h) in
          (meeting first a b, x, y)),
      (λ t. e ∙ parsed_conflict_complete host first second a b t.0 p q t.1 t.2),
    )

-- The test is symmetric, also where a text is no address.
pub addresses_conflict_comm :
    (host : Host) (first second : String)
    → addresses_conflict host first second ≡ addresses_conflict host second first
unfolding addresses_conflict
addresses_conflict_comm host first second = ground (arith, eq_iff first second, eq_iff second first)
