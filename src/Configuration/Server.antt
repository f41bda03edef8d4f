-- ===== src/Configuration/Server.antt =====
-- The access mode, the address, the port and the security of the cookie of backend/app/config.py.
use machine_deck.Base.{
  leb, if◌then◌else◌, ◌==◌, nat_eq, string_eq, Outcome, ok, raised, ℕ, Bool, true, false, not, ◌&&◌,
  Option, none, some, [], ◌∷◌,
}
use machine_deck.Text.{Text, codes, text_eq, lower, strip}
use machine_deck.Host.{IpAddress}
use machine_deck.Logs.Query.{Integer, positive, negative}
use machine_deck.Base.Results.{◌>>=◌}
use machine_deck.Configuration.{
  text, flag, other, Entry, one, AccessMode, local, lan, proxy, CookiePolicy, auto, secure,
  insecure, ConfigError, mode_unknown, host_not_address, host_not_loopback, host_not_unspecified,
  port_not_integer, port_out_of_range, cookie_policy_unknown, ConfigSource, entry_text, entry_int,
  value, getenv, is_one_of,
}

unfoldable pub mode_of : Text → Outcome ConfigError AccessMode
mode_of normalized =
    if normalized == codes "local"
    then ok local
    else if normalized == codes "lan"
    then ok lan
    else if normalized == codes "proxy"
    then ok proxy
    else raised mode_unknown

-- `_access_mode`
unfoldable pub access_mode : ConfigSource → Outcome ConfigError AccessMode
unfolding mode_of strip lower
access_mode source =
    let host = strip (entry_text (value source "server" "host" (one (text (codes "127.0.0.1"))))) in
    let inferred = if is_one_of host ("0.0.0.0" ∷ "::" ∷ []) then codes "lan" else codes "local" in
    mode_of (
      lower (
        strip (
          entry_text (
            getenv source "MACHINEDECK_ACCESS_MODE"
              (value source "server" "mode" (one (text inferred)))))))

abbrev pub is_lan : AccessMode → Bool
is_lan lan = true
is_lan _ = false

abbrev pub is_proxy : AccessMode → Bool
is_proxy proxy = true
is_proxy _ = false

unfoldable pub checked_host :
    ConfigSource → AccessMode → Option IpAddress → Outcome ConfigError IpAddress
checked_host source mode none = raised host_not_address
checked_host source mode (some address) =
    if not (is_lan mode) && not (source.loopback address)
    then raised host_not_loopback
    else if is_lan mode && not (source.unspecified address)
    then raised host_not_unspecified
    else ok address

-- `_bind_host`, whose text is that of the address
unfoldable pub bind_host : ConfigSource → AccessMode → Outcome ConfigError IpAddress
unfolding checked_host strip
bind_host source mode =
    let default = if is_lan mode then codes "0.0.0.0" else codes "127.0.0.1" in
    checked_host source mode (
      source.ip_address (
        strip (
          entry_text (
            getenv source "MACHINEDECK_BIND_HOST"
              (value source "server" "host" (one (text default)))))))

unfoldable pub checked_port : Option Integer → Outcome ConfigError ℕ
checked_port none = raised port_not_integer
checked_port (some (negative _)) = raised port_out_of_range
checked_port (some (positive port)) =
    if leb 1 port && leb port 65535 then ok port else raised port_out_of_range

-- `_bind_port`
unfoldable pub bind_port : ConfigSource → Outcome ConfigError ℕ
unfolding checked_port entry_int
bind_port source = checked_port (
    entry_int (
      getenv source "MACHINEDECK_BIND_PORT"
        (value source "server" "port" (one (other (codes "8080") (some (positive 8080)))))))

unfoldable pub policy_of : Text → Outcome ConfigError CookiePolicy
policy_of normalized =
    if is_one_of normalized ("true" ∷ "yes" ∷ "1" ∷ "secure" ∷ [])
    then ok secure
    else if is_one_of normalized ("false" ∷ "no" ∷ "0" ∷ "insecure" ∷ [])
    then ok insecure
    else if normalized == codes "auto"
    then ok auto
    else raised cookie_policy_unknown

abbrev pub is_secure : AccessMode → CookiePolicy → Bool
is_secure mode auto = is_proxy mode
is_secure mode secure = true
is_secure mode insecure = false

unfoldable pub cookie_of : AccessMode → Entry → Outcome ConfigError (CookiePolicy × Bool)
unfolding policy_of strip lower
cookie_of mode (one (flag b)) = ok (if b then secure else insecure, b)
cookie_of mode found = do
  policy ← policy_of (lower (strip (entry_text found)))
  ok (policy, is_secure mode policy)

-- `_cookie_security`
unfoldable pub cookie_security :
    ConfigSource → AccessMode → Outcome ConfigError (CookiePolicy × Bool)
unfolding cookie_of
cookie_security source mode =
    let legacy_default =
      if source.is_configured && not source.has_security then flag true else text (codes "auto") in
    cookie_of mode (
      getenv source "MACHINEDECK_COOKIE_SECURE"
        (value source "security" "cookie_secure" (one legacy_default)))
