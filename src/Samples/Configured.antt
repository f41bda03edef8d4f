-- ===== src/Samples/Configured.antt =====
-- The theorem on the settings, for a server behind a proxy.
use machine_deck.Base.{
  if◌then◌else◌, nat_eq, string_eq, ◌==◌, ok, String, ◌≡◌, refl, true, Option, none, some, [], ◌∷◌,
}
use machine_deck.Text.{Text, codes, text_eq, lower, rstrip, strip}
use machine_deck.Host.{v4, ip_beq}
use machine_deck.Configuration.{text, Entry, one, array, proxy, auto, UrlParts, ConfigSource}
use machine_deck.Configuration.Loading.{ServerSettings, load}
use machine_deck.Configuration.Sound.{IsSound, load-IsSound}

abbrev split_origin : Text → Option UrlParts
split_origin origin = some (record {
  scheme = codes "https";
  hostname = some (codes "deck.example");
  username = none;
  password = none;
  path = [];
  query = [];
  fragment = [];
})

abbrev proxy_entry : String → String → Option Entry
proxy_entry section name =
    if name == "mode"
    then some (one (text (codes " Proxy ")))
    else if name == "trusted_proxies"
    then some (array [] (text (codes "10.0.0.1/32") ∷ []))
    else if name == "trusted_origins"
    then some (array [] (text (codes "https://deck.example/") ∷ []))
    else none

abbrev proxy_source : ConfigSource
proxy_source = record {
  environment = λ _. none;
  entry = proxy_entry;
  is_configured = true;
  has_security = true;
  ip_address = λ _. some (v4 2130706433);
  loopback = ip_beq (v4 2130706433);
  unspecified = ip_beq (v4 0);
  ip_network = λ name. some (record { name = name; num_addresses = 1 });
  urlsplit = split_origin;
}

abbrev proxy_settings : ServerSettings
proxy_settings = record {
  mode = proxy;
  policy = auto;
  cookie_secure = true;
  trusted_proxies = record { name = codes "10.0.0.1/32"; num_addresses = 1 } ∷ [];
  trusted_networks =
      record { name = codes "127.0.0.0/8"; num_addresses = 1 }
      ∷ record { name = codes "::1/128"; num_addresses = 1 }
      ∷ [];
  host = v4 2130706433;
  port = 8080;
  trusted_origins = codes "https://deck.example" ∷ [];
}

proxy_load : load proxy_source ≡ ok proxy_settings
unfolding load strip rstrip lower
proxy_load = refl

load-IsSound_example : IsSound proxy_source proxy_settings
load-IsSound_example = load-IsSound proxy_source proxy_load
