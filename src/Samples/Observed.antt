-- ===== src/Samples/Observed.antt =====
-- The theorems on ports and rows, on the sample application.
use machine_deck.Base.{
  nat_eq, string_eq, ◌==◌, All, String, ◌≡◌, refl, ◌↔◌, true, some, [], ◌∷◌, arith, eq_iff,
}
use machine_deck.Status.{ApplicationStatus, status_eq}
use machine_deck.Host.{IpAddress, v4, ip_beq, ip_beq_iff}
use machine_deck.Ports.{transport_eq, addresses_conflict}
use machine_deck.Ports.Addresses.{IsCanonical, Accepts, addresses_conflict_iff}
use machine_deck.Ports.Conflicts.{conflict_of, declared_conflicts}
use machine_deck.Ports.Conflicts.Complete.{Reports, declared_conflicts_iff}
use machine_deck.Ports.Views.{port_views}
use machine_deck.Ports.Views.Account.{
  declarations, observations, port_views-account, IsHonest, port_views-IsHonest,
}
use mathlib.Core.List.{Memᴰ, Permᴰ}
use machine_deck.Samples.{web_port, demo_host, foreign_listener}

-- a text is the spelling of an address exactly where the Boolean tests agree
spelled : {a b : IpAddress} {s t : String} → (s == t) ≡ ip_beq a b → (s ≡ t) ↔ (a ≡ b)
spelled {a} {b} {s} {t} h = ground (arith, ip_beq_iff a b, eq_iff s t)

wildcard-IsCanonical : IsCanonical demo_host "0.0.0.0" (v4 0)
wildcard-IsCanonical = record {
  parses = refl;
  wildcard_v6 = spelled refl;
  wildcard_v4 = spelled refl;
}

loopback-IsCanonical : IsCanonical demo_host "127.0.0.1" (v4 2130706433)
loopback-IsCanonical = record {
  parses = refl;
  wildcard_v6 = spelled refl;
  wildcard_v4 = spelled refl;
}

addresses_conflict_iff_example :
    (addresses_conflict demo_host "0.0.0.0" "127.0.0.1" ≡ true)
    ↔ ((target : IpAddress) × Accepts (v4 0) target × Accepts (v4 2130706433) target)
addresses_conflict_iff_example =
    addresses_conflict_iff demo_host "0.0.0.0" "127.0.0.1" wildcard-IsCanonical loopback-IsCanonical

declared_conflicts_iff_example :
    Memᴰ
      (conflict_of web_port foreign_listener)
      (declared_conflicts demo_host "demo" (web_port ∷ []) (foreign_listener ∷ []))
    ↔ Reports demo_host "demo"
        (web_port ∷ [])
        (foreign_listener ∷ [])
        (conflict_of web_port foreign_listener)
declared_conflicts_iff_example =
    declared_conflicts_iff demo_host "demo" (web_port ∷ []) (foreign_listener ∷ [])
      (conflict_of web_port foreign_listener)

port_views-account_example :
    let views =
      port_views
        (web_port ∷ [])
        (some (foreign_listener ∷ []))
        ApplicationStatus.running
        (some []) in
    (declarations views ≡ web_port ∷ []) × Permᴰ (foreign_listener ∷ []) (observations views)
port_views-account_example =
    port_views-account (web_port ∷ []) (some (foreign_listener ∷ [])) ApplicationStatus.running
      (some [])

port_views-IsHonest_example :
    All IsHonest (
      port_views (web_port ∷ []) (some (foreign_listener ∷ [])) ApplicationStatus.running (some []))
port_views-IsHonest_example =
    port_views-IsHonest (web_port ∷ []) (some (foreign_listener ∷ [])) ApplicationStatus.running
      (some [])
