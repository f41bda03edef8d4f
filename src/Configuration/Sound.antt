-- ===== src/Configuration/Sound.antt =====
-- What settings that load are like.
use mathlib.Core.Path.{subst}
use machine_deck.Base.{
  if◌then◌else◌, nat_eq, string_eq, All, Outcome, ok, raised, ℕ, ◌≤◌, ◌≡◌, refl, ◌⊎◌, Bool, true,
  false, not, ◌&&◌, Option, none, some, [], arith,
}
use machine_deck.Base.Results.{◌>>=◌, bind-cases, guard-passed}
use machine_deck.Text.{codes, text_eq}
use machine_deck.Logs.Query.{Integer, positive, negative}
use machine_deck.Host.{IpAddress}
use machine_deck.Configuration.{
  text, flag, other, Entry, one, array, AccessMode, CookiePolicy, secure, insecure, ConfigError,
  host_not_loopback, host_not_unspecified, ConfigSource, entry_int, value, getenv,
}
use machine_deck.Configuration.Server.{
  access_mode, is_lan, checked_host, bind_host, checked_port, bind_port, is_secure, cookie_of,
  cookie_security,
}
use machine_deck.Configuration.Lists.{read_networks, read_origins}
use machine_deck.Configuration.Trusted.{
  IsSmall, IsOrigin, read_networks-IsSmall, read_origins-IsOrigin,
}
use machine_deck.Configuration.Loading.{
  ServerSettings, proxy_names, network_names, origin_names, load,
}

-- The server listens on a loopback address, or in the mode lan on an unspecified one.
abbrev pub IsBound : ConfigSource → AccessMode → IpAddress → Type 0
IsBound source mode host =
    ((is_lan mode ≡ true) × (source.unspecified host ≡ true))
    ⊎ ((is_lan mode ≡ false) × (source.loopback host ≡ true))

abbrev pub IsSound : ConfigSource → ServerSettings → Type 0
IsSound source settings =
    IsBound source settings.mode settings.host
    × ((1 ≤ settings.port) × (settings.port ≤ 65535))
    × (settings.cookie_secure ≡ is_secure settings.mode settings.policy)
    × All IsSmall settings.trusted_proxies
    × All (IsOrigin source) settings.trusted_origins

passed_guards :
    (m l u : Bool)
    → (not m && not l) ≡ false
    → (m && not u) ≡ false
    → ((m ≡ true) × (u ≡ true)) ⊎ ((m ≡ false) × (l ≡ true))
passed_guards m l u h k = ground (arith, h, k)

checked_host-IsBound :
    (source : ConfigSource) (mode : AccessMode) (found : Option IpAddress) {host : IpAddress}
    → checked_host source mode found ≡ ok host
    → IsBound source mode host
unfolding checked_host
checked_host-IsBound source mode none h = cc
checked_host-IsBound source mode (some address) {host = host} h =
    let (loops, h') =
      guard-passed (not (is_lan mode) && not (source.loopback address)) host_not_loopback _ h in
    let (wide, p) =
      guard-passed (is_lan mode && not (source.unspecified address)) host_not_unspecified _ h' in
    let same : address ≡ host = cc in
    subst (IsBound source mode) same (
      passed_guards (is_lan mode) (source.loopback address) (source.unspecified address) loops wide)

checked_port-bounds :
    (found : Option Integer) {port : ℕ} → checked_port found ≡ ok port → (1 ≤ port) × (port ≤ 65535)
unfolding checked_port
checked_port-bounds none h = cc
checked_port-bounds (some (negative n)) h = cc
checked_port-bounds (some (positive n)) h = ground (arith, h)

-- a pair that the policy decides
abbrev IsDecided : AccessMode → CookiePolicy × Bool → Type 0
IsDecided mode cookie = cookie.1 ≡ is_secure mode cookie.0

given-IsDecided :
    (mode : AccessMode) (given : CookiePolicy × Bool) {cookie : CookiePolicy × Bool}
    → IsDecided mode given
    → ◌≡◌ {A = Outcome ConfigError (CookiePolicy × Bool)} (ok given) (ok cookie)
    → IsDecided mode cookie
given-IsDecided mode given {cookie = cookie} d h =
    let same : given ≡ cookie = cc in subst (IsDecided mode) same d

read_policy :
    (mode : AccessMode) (found : Outcome ConfigError CookiePolicy) {cookie : CookiePolicy × Bool}
    → ◌>>=◌ {B = CookiePolicy × Bool} found (λ p. ok (p, is_secure mode p)) ≡ ok cookie
    → IsDecided mode cookie
read_policy mode (ok p) h = given-IsDecided mode (p, is_secure mode p) refl h
read_policy mode (raised e) h = cc

cookie_of-IsDecided :
    (mode : AccessMode) (found : Entry) {cookie : CookiePolicy × Bool}
    → cookie_of mode found ≡ ok cookie
    → IsDecided mode cookie
unfolding cookie_of
cookie_of-IsDecided mode (one (flag true)) h = given-IsDecided mode (secure, true) refl h
cookie_of-IsDecided mode (one (flag false)) h = given-IsDecided mode (insecure, false) refl h
cookie_of-IsDecided mode (one (text t)) h = read_policy mode _ h
cookie_of-IsDecided mode (one (other t n)) h = read_policy mode _ h
cookie_of-IsDecided mode (array t found) h = read_policy mode _ h

bind_host-IsBound :
    (source : ConfigSource) (mode : AccessMode) {host : IpAddress}
    → bind_host source mode ≡ ok host
    → IsBound source mode host
unfolding bind_host
bind_host-IsBound source mode h = checked_host-IsBound source mode _ h

bind_port-bounds :
    (source : ConfigSource) {port : ℕ} → bind_port source ≡ ok port → (1 ≤ port) × (port ≤ 65535)
unfolding bind_port
bind_port-bounds source h =
    checked_port-bounds
      (entry_int (
        getenv source "MACHINEDECK_BIND_PORT"
          (value source "server" "port" (one (other (codes "8080") (some (positive 8080)))))))
      h

cookie_security-IsDecided :
    (source : ConfigSource) (mode : AccessMode) {cookie : CookiePolicy × Bool}
    → cookie_security source mode ≡ ok cookie
    → IsDecided mode cookie
unfolding cookie_security
cookie_security-IsDecided source mode h =
    cookie_of-IsDecided mode
      (getenv source "MACHINEDECK_COOKIE_SECURE" (
        value source "security" "cookie_secure" (
          one (
            if source.is_configured && not source.has_security
            then flag true
            else text (codes "auto")))))
      h

returned-IsSound :
    (source : ConfigSource) (built : ServerSettings) {settings : ServerSettings}
    → ◌≡◌ {A = Outcome ConfigError ServerSettings} (ok built) (ok settings)
    → IsSound source built
    → IsSound source settings
returned-IsSound source built {settings = settings} h sound =
    let same : built ≡ settings = cc in subst (IsSound source) same sound

-- Settings that load are sound. The server listens on a loopback address, or in the mode lan on the
-- unspecified one, and on a port between 1 and 65535; the session cookie is secure where the policy
-- says so, and with the policy auto in the mode proxy only; no trusted proxy has more than 65536
-- addresses; and every trusted origin was read by `urlsplit` and is exact, without user, path,
-- query, fragment and asterisk.
pub load-IsSound :
    (source : ConfigSource) {settings : ServerSettings}
    → load source ≡ ok settings
    → IsSound source settings
unfolding load
load-IsSound source h = bind-cases (access_mode source) _ h (λ mode m h.
    bind-cases (cookie_security source mode) _ h (λ cookie c h.
      bind-cases (read_networks source true [] (proxy_names source)) _ h (λ proxies p h.
        bind-cases (read_networks source false [] (network_names source)) _ h (λ networks n h.
          bind-cases (bind_host source mode) _ h (λ host a h.
            bind-cases (bind_port source) _ h (λ port q h.
              bind-cases (read_origins source [] (origin_names source)) _ h (λ origins o h.
                returned-IsSound source _ h (
                  bind_host-IsBound source mode a,
                  bind_port-bounds source q,
                  cookie_security-IsDecided source mode c,
                  read_networks-IsSmall source [] (proxy_names source) tt p,
                  read_origins-IsOrigin source [] (origin_names source) tt o,
                ))))))))
