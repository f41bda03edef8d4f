-- ===== src/Configuration/Loading.antt =====
-- The loading of the settings, as backend/app/config.py composes it.
use machine_deck.Base.{Outcome, ok, ℕ, Bool, true, false, List, [], ◌∷◌, map}
use machine_deck.Text.{Text, codes}
use machine_deck.Host.{IpAddress}
use machine_deck.Base.Results.{◌>>=◌}
use machine_deck.Configuration.{
  AccessMode, CookiePolicy, ConfigError, ConfiguredNetwork, ConfigSource,
}
use machine_deck.Configuration.Server.{access_mode, bind_host, bind_port, cookie_security}
use machine_deck.Configuration.Lists.{listed, read_networks, read_origins}

pub record ServerSettings : Type 0 where
  pub mode : AccessMode
  pub policy : CookiePolicy
  pub cookie_secure : Bool
  pub trusted_proxies : List ConfiguredNetwork
  pub trusted_networks : List ConfiguredNetwork
  pub host : IpAddress
  pub port : ℕ
  pub trusted_origins : List Text

-- the texts of the three lists
unfoldable pub proxy_names : ConfigSource → List Text
unfolding listed
proxy_names source = listed source "MACHINEDECK_TRUSTED_PROXIES" "network" "trusted_proxies" []

unfoldable pub network_names : ConfigSource → List Text
unfolding listed
network_names source =
    listed source "MACHINEDECK_TRUSTED_NETWORKS" "network" "trusted_networks"
      (map codes ("127.0.0.0/8" ∷ "::1/128" ∷ []))

unfoldable pub origin_names : ConfigSource → List Text
unfolding listed
origin_names source = listed source "MACHINEDECK_TRUSTED_ORIGINS" "server" "trusted_origins" (
    map codes (
      "http://127.0.0.1:8080" ∷ "http://localhost:8080" ∷ "https://127.0.0.1:8080"
      ∷ "https://localhost:8080" ∷ []))

-- The module, in the order of its statements.
unfoldable pub load : ConfigSource → Outcome ConfigError ServerSettings
unfolding access_mode cookie_security proxy_names network_names origin_names read_networks bind_host
    bind_port read_origins
load source = do
  mode ← access_mode source
  cookie ← cookie_security source mode
  proxies ← read_networks source true [] (proxy_names source)
  networks ← read_networks source false [] (network_names source)
  host ← bind_host source mode
  port ← bind_port source
  origins ← read_origins source [] (origin_names source)
  ok (record {
    mode = mode;
    policy = cookie.0;
    cookie_secure = cookie.1;
    trusted_proxies = proxies;
    trusted_networks = networks;
    host = host;
    port = port;
    trusted_origins = origins;
  })
