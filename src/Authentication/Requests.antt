-- ===== src/Authentication/Requests.antt =====
-- The endpoints of backend/app/api/auth.py.
use machine_deck.Base.{
  is_none, is_some, ok, raised, pure, raise, lift, gets, raise_if, ◌>>=◌, ◌>>◌, ℕ, String, Bool,
  true, false, not, ◌&&◌, ◌||◌, Option, none, some,
}
use machine_deck.Json.{string, no_fields, field}
use machine_deck.Text.{Text}
use machine_deck.Network.{RequestNetworkContext, request_network_context}
use machine_deck.Database.{AdministratorRecord}
use machine_deck.World.{utc_now, commit}
use machine_deck.Authentication.{
  local_setup_required, login_rate_limited, login_failed, forwarded_headers_invalid, Libraries,
  AuthSettings, AuthExec, is_loopback, origin_is_local, require_trusted_origin, administrator,
  audit_auth, create_administrator,
}
use machine_deck.Authentication.Sessions.{
  Cookie, HttpRequest, authenticate_token, create_auth_session, write_session, rotate_csrf,
  set_session_cookie, require_http_auth,
}
use machine_deck.Authentication.Login.{
  rate_limited, record_login_failure, clear_login_failures, verify_credentials,
}

pub record Credentials : Type 0 where
  pub username : String
  pub password : String

-- `AuthSessionResponse`, with the cookie that the response sets
pub record AuthSessionResponse : Type 0 where
  pub username : String
  pub expires_at : ℕ
  pub csrf_token : String
  pub cookie : Option Cookie

pub record AuthStatusResponse : Type 0 where
  pub setup_required : Bool
  pub authenticated : Bool

module _ (libraries : Libraries) (settings : AuthSettings) where
  unfoldable pub auth_status : HttpRequest → AuthExec AuthStatusResponse
  unfolding administrator authenticate_token
  auth_status request = do
    admin ← gets (λ w. administrator w.db)
    authenticated ← authenticate_token libraries request.cookie
    pure (record { setup_required = is_none admin; authenticated = is_some authenticated })

  -- `request_network_context`, with its response 400
  unfoldable pub network_of : HttpRequest → AuthExec RequestNetworkContext
  network_of request w =
      elim (request_network_context libraries.addresses settings.network request.network) [
        | none ↦ (raised forwarded_headers_invalid, w)
        | some context ↦ (ok context, w)
      ]

  -- the condition of LOCAL_SETUP_REQUIRED, negated
  unfoldable pub setup_is_local : RequestNetworkContext → Option Text → Bool
  setup_is_local network origin =
      is_loopback libraries network.peer
      && (is_loopback libraries network.client
          && (is_none origin || origin_is_local libraries origin))

  -- a session with its cookie and the response
  unfoldable pub open_session : AdministratorRecord → AuthExec AuthSessionResponse
  unfolding create_auth_session set_session_cookie
  open_session admin = do
    new ← create_auth_session libraries settings admin
    cookie ← set_session_cookie new.token new.saved.expires_at
    pure (record {
      username = admin.username;
      expires_at = new.saved.expires_at;
      csrf_token = new.csrf_token;
      cookie = some cookie;
    })

  unfoldable pub setup : Credentials → HttpRequest → AuthExec AuthSessionResponse
  unfolding network_of setup_is_local require_trusted_origin create_administrator open_session
  setup credentials request = do
    network ← network_of request
    raise_if (not (setup_is_local network request.origin)) local_setup_required
    lift (require_trusted_origin settings request.origin)
    admin ← create_administrator libraries credentials.username credentials.password
    open_session admin

  -- the branch of a login that comes too often
  unfoldable pub refuse_limited : Bool → AuthExec Unit
  unfolding audit_auth
  refuse_limited false = pure tt
  refuse_limited true = do
    audit_auth "anonymous" "auth.login" "failure" "administrator"
        (field "reason" (string "rate_limited") no_fields)
    commit
    raise login_rate_limited

  -- the branch of a login with wrong credentials
  unfoldable pub refuse_unverified :
      Text → Option AdministratorRecord → AuthExec AdministratorRecord
  unfolding record_login_failure
  refuse_unverified remote (some admin) = pure admin
  refuse_unverified remote none = do
    record_login_failure libraries remote "invalid_credentials"
    raise login_failed

  unfoldable pub login : Credentials → HttpRequest → AuthExec AuthSessionResponse
  unfolding require_trusted_origin network_of refuse_limited verify_credentials refuse_unverified
      clear_login_failures audit_auth open_session
  login credentials request = do
    lift (require_trusted_origin settings request.origin)
    network ← network_of request
    limited ← rate_limited libraries settings network.client
    refuse_limited limited
    verified ← verify_credentials libraries credentials.username credentials.password
    admin ← refuse_unverified network.client verified
    clear_login_failures libraries network.client
    audit_auth admin.username "auth.login" "success" (libraries.id_text admin.id) no_fields
    open_session admin

  unfoldable pub current_session : HttpRequest → AuthExec AuthSessionResponse
  unfolding require_http_auth rotate_csrf
  current_session request = do
    current ← require_http_auth libraries settings request
    csrf_token ← rotate_csrf libraries current.session
    pure (record {
      username = current.administrator.username;
      expires_at = current.session.expires_at;
      csrf_token = csrf_token;
      cookie = none;
    })

  -- the cookie is deleted in the response
  unfoldable pub logout : HttpRequest → AuthExec Unit
  unfolding require_http_auth audit_auth write_session
  logout request = do
    current ← require_http_auth libraries settings request
    now ← utc_now
    audit_auth current.administrator.username "auth.logout" "success"
        (libraries.id_text current.administrator.id) no_fields
    write_session (record current.session { revoked_at = some now })
