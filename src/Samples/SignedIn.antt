-- ===== src/Samples/SignedIn.antt =====
-- The theorems on the sessions of the administrator, on libraries that are small functions.
use machine_deck.Base.{
  if◌then◌else◌, nat_eq, string_eq, ◌==◌, ok, raised, ℕ, ◌≤◌, ◌<◌, String, ◌≡◌, refl, ◌↔◌, true,
  false, Option, none, some, List, [], ◌∷◌, arith, eq_iff,
}
use machine_deck.Text.{Text, codes, text_beq, text_eq, lower, strip, strip_quotes}
use machine_deck.Status.{status_eq}
use machine_deck.Host.{v4, ip_beq}
use machine_deck.Network.{
  Addresses, RequestNetworkContext, in_networks, address, request_network_context,
}
use machine_deck.Database.{AdministratorRecord, AuthSessionRecord, LoginFailureRecord, Database}
use machine_deck.World.{World}
use machine_deck.Authentication.{
  authentication_required, login_rate_limited, Libraries, AuthSettings, is_loopback, remote_digest,
  require_trusted_origin, administrator,
}
use machine_deck.Authentication.Sessions.{HttpRequest, session_of_token, require_http_auth}
use machine_deck.Authentication.Login.{failure_count, rate_limited}
use machine_deck.Authentication.Requests.{
  Credentials, AuthSessionResponse, open_session, setup, login, logout,
}
use machine_deck.Authentication.Access.{
  IsEntitled, require_http_auth-IsEntitled, logout-ends_session, setup-is_local,
}
use machine_deck.Authentication.Verified.{login-verified}
use machine_deck.Authentication.Only.{HasOnly}
use machine_deck.Authentication.Permanence.{
  logout_call, setup_call, login_call, run_auth_calls, run_auth_calls-HasOnly,
}
use machine_deck.Authentication.Limits.{login-limited_iff}
use machine_deck.Authentication.Opening.{open_session-admits}
use machine_deck.Samples.{demo_world}

-- the digest of a text is the text of its first character
abbrev sample_digest : Text → String
sample_digest [] = "empty"
sample_digest (c ∷ _) = if c == 116 then "t" else "other"

abbrev plain_addresses : Addresses
plain_addresses = record {
  ip_address = λ text. if text_beq text (codes "h") then some (v4 2130706433) else none;
  show = λ _. codes "h";
}

abbrev sample_libraries : Libraries
sample_libraries = record {
  addresses = plain_addresses;
  ip_is_loopback = λ ip. ip_beq ip (v4 2130706433);
  urlsplit = λ _. none;
  digest = sample_digest;
  token = λ n. if n == 0 then "t" else "c";
  hash = λ _ password. password;
  verify = λ hashed password. hashed == password;
  needs_rehash = λ _. false;
  dummy_hash = "";
  id_text = λ _. "id";
}

abbrev sample_settings : AuthSettings
sample_settings = record {
  network = record { trusted_proxies = []; trusted_networks = []; forwarded_hop_limit = 8 };
  trusted_origins = [];
  auth_session_hours = 12;
  login_max_failures = 1;
  login_window_minutes = 15;
}

abbrev plain_request : String → Option String → HttpRequest
plain_request method cookie = record {
  method = method;
  origin = none;
  csrf_token = some "c";
  cookie = cookie;
  network = record { client = some (codes "h"); scheme = codes "http"; headers = λ _. none };
}

abbrev sample_admin : AdministratorRecord
sample_admin = record { id = 9; username = "admin"; password_hash = "secret" }

abbrev sample_session : AuthSessionRecord
sample_session = record {
  id = 4;
  administrator_id = 9;
  token_digest = "t";
  csrf_digest = "other";
  created_at = 1;
  expires_at = 1000;
  revoked_at = none;
}

abbrev account_database : List AuthSessionRecord → List LoginFailureRecord → Database
account_database sessions failures = record demo_world.db {
  administrators = sample_admin ∷ [];
  auth_sessions = sessions;
  login_failures = failures;
}

abbrev account_world : List AuthSessionRecord → List LoginFailureRecord → World
account_world sessions failures = record demo_world {
  db = account_database sessions failures;
  saved = account_database sessions failures;
}

abbrev signed_in : World
signed_in = account_world (sample_session ∷ []) []

abbrev credentials : Credentials
credentials = record { username = "admin"; password = "secret" }

admitted_run :
    (require_http_auth sample_libraries sample_settings
      (plain_request "POST" (some "t"))
      signed_in).0
    ≡ ok (record { administrator = sample_admin; session = sample_session })
unfolding require_http_auth
admitted_run = refl

require_http_auth-IsEntitled_example :
    IsEntitled sample_libraries sample_settings
      (plain_request "POST" (some "t"))
      signed_in
      (record { administrator = sample_admin; session = sample_session })
require_http_auth-IsEntitled_example =
    require_http_auth-IsEntitled sample_libraries sample_settings (plain_request "POST" (some "t"))
      signed_in admitted_run

logout_run :
    (logout sample_libraries sample_settings (plain_request "POST" (some "t")) signed_in).0 ≡ ok tt
unfolding logout
logout_run = refl

logout-ends_session_example :
    (require_http_auth sample_libraries sample_settings
      (plain_request "GET" (some "t"))
      (logout sample_libraries sample_settings (plain_request "POST" (some "t")) signed_in).1).0
    ≡ raised authentication_required
logout-ends_session_example =
    logout-ends_session sample_libraries sample_settings (plain_request "POST" (some "t"))
      (plain_request "GET" (some "t")) signed_in logout_run refl

abbrev new_response : ℕ → String → AuthSessionResponse
new_response expires_at token = record {
  username = "admin";
  expires_at = expires_at;
  csrf_token = "c";
  cookie = some (record { token = token; max_age = 43199 });
}

setup_run :
    (setup sample_libraries sample_settings credentials (plain_request "POST" none) demo_world).0
    ≡ ok (new_response 43200000101 "c")
unfolding setup request_network_context address strip_quotes strip lower in_networks is_loopback
setup_run = refl

setup-is_local_example :
    (context : RequestNetworkContext) × (request_network_context plain_addresses
        sample_settings.network
        (plain_request "POST" none).network
      ≡ some context)
    × (is_loopback sample_libraries context.peer ≡ true)
    × (is_loopback sample_libraries context.client ≡ true)
setup-is_local_example =
    setup-is_local sample_libraries sample_settings credentials (plain_request "POST" none)
      demo_world setup_run

login_run :
    (login sample_libraries sample_settings credentials (plain_request "POST" none) signed_in).0
    ≡ ok (new_response 43200000102 "c")
unfolding login request_network_context address strip_quotes strip lower in_networks rate_limited
login_run = refl

login-verified_example :
    (admin : AdministratorRecord) × (administrator signed_in.db ≡ some admin)
    × (admin.username ≡ "admin")
    × (sample_libraries.verify admin.password_hash "secret" ≡ true)
login-verified_example =
    login-verified sample_libraries sample_settings credentials (plain_request "POST" none)
      signed_in login_run

run_auth_calls-HasOnly_example :
    HasOnly
      (9, "admin")
      (run_auth_calls sample_libraries sample_settings
        (setup_call credentials (plain_request "POST" none)
          ∷ login_call credentials (plain_request "POST" none)
          ∷ logout_call (plain_request "POST" (some "t"))
          ∷ [])
        signed_in)
run_auth_calls-HasOnly_example =
    run_auth_calls-HasOnly sample_libraries sample_settings (9, "admin")
      (setup_call credentials (plain_request "POST" none)
        ∷ login_call credentials (plain_request "POST" none)
        ∷ logout_call (plain_request "POST" (some "t"))
        ∷ [])
      signed_in (refl, refl)

abbrev one_failure : LoginFailureRecord
one_failure = record { id = 2; remote_digest = "other"; attempted_at = 90 }

abbrev local_context : RequestNetworkContext
local_context = record {
  peer = codes "h";
  client = codes "h";
  scheme = codes "http";
  host = none;
  forwarded = false;
}

context_run :
    request_network_context plain_addresses sample_settings.network
      (plain_request "POST" none).network
    ≡ some local_context
unfolding request_network_context address strip_quotes strip lower in_networks
context_run = refl

origin_run : require_trusted_origin sample_settings none ≡ ok tt
unfolding require_trusted_origin
origin_run = refl

login-limited_iff_example :
    ((login sample_libraries sample_settings credentials
        (plain_request "POST" none)
        (account_world [] (one_failure ∷ []))).0
      ≡ raised login_rate_limited)
    ↔ (1
        ≤ failure_count sample_settings 100
            (remote_digest sample_libraries (codes "h"))
            (one_failure ∷ []))
login-limited_iff_example =
    login-limited_iff sample_libraries sample_settings credentials (plain_request "POST" none)
      (account_world [] (one_failure ∷ [])) local_context origin_run context_run

open_run :
    (open_session sample_libraries sample_settings sample_admin (account_world [] [])).0
    ≡ ok (new_response 43200000100 "t")
unfolding open_session
open_run = refl

no_session : session_of_token sample_libraries "t" (account_database [] []) ≡ none
unfolding session_of_token
no_session = refl

not_expired :
    let w = (open_session sample_libraries sample_settings sample_admin (account_world [] [])).1 in
    w.clock w.readings < 43200000100
unfolding open_session
not_expired = omega arith

open_session-admits_example :
    (row : AuthSessionRecord) × ((require_http_auth sample_libraries sample_settings
        (plain_request "GET" (some "t"))
        (open_session sample_libraries sample_settings sample_admin (account_world [] [])).1).0
      ≡ ok (record { administrator = sample_admin; session = row }))
open_session-admits_example =
    open_session-admits sample_libraries sample_settings sample_admin
      (plain_request "GET" (some "t")) (account_world [] []) open_run refl refl refl
      (ground (arith, eq_iff "t" "")) no_session refl not_expired
