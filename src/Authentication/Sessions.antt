-- ===== src/Authentication/Sessions.antt =====
-- Sessions and how a request is let through: `authenticate_token`, `create_auth_session`,
-- `require_http_auth` and the WebSocket of backend/app/security/auth.py.
use machine_deck.Base.{
  ltb, leb, if◌then◌else◌, ◌==◌, nat_eq, string_eq, is_some, find?, Outcome, ok, raised, Exec, pure,
  raise, lift, gets, ◌>>=◌, ◌>>◌, handle_errors, ℕ, ◌+◌, ◌-◌, ◌/◌, String, Bool, false, not, ◌&&◌,
  ◌||◌, Option, none, some, [], ◌∷◌, ◌++◌,
}
use machine_deck.Text.{Text, codes, text_eq}
use machine_deck.Network.{Request}
use machine_deck.Database.{AdministratorRecord, AuthSessionRecord, Database}
use machine_deck.Database.Rows.{get_row, update_row}
use machine_deck.World.{World, utc_now, uuid4, commit, change}
use machine_deck.Authentication.{
  HttpError, authentication_required, csrf_invalid, Libraries, AuthSettings, AuthExec, hours,
  admin_key, session_key, with_auth_sessions, draw, origin_is_trusted, require_trusted_origin,
}

pub record AuthenticatedSession : Type 0 where
  pub administrator : AdministratorRecord
  pub session : AuthSessionRecord

-- the row that the digest of a token selects
unfoldable pub session_of_token : Libraries → String → Database → Option AuthSessionRecord
session_of_token libraries token db =
    find? (λ row. row.token_digest == libraries.digest (codes token)) db.auth_sessions

-- `session.get(AdministratorRecord, ...)` of a row that is not expired
unfoldable pub authenticated_of : AuthSessionRecord → ℕ → Database → Option AuthenticatedSession
authenticated_of row now db =
    if leb row.expires_at now
    then none
    else elim (get_row admin_key row.administrator_id db.administrators) [
      | none ↦ none
      | some admin ↦ some (record { administrator = admin; session = row })
    ]

unfoldable pub authenticate_row : Option AuthSessionRecord → AuthExec (Option AuthenticatedSession)
unfolding authenticated_of
authenticate_row none = pure none
authenticate_row (some row) =
    if is_some row.revoked_at
    then pure none
    else (do now ← utc_now; gets (λ w. authenticated_of row now w.db))

-- `authenticate_token`
unfoldable pub authenticate_token :
    Libraries → Option String → AuthExec (Option AuthenticatedSession)
unfolding authenticate_row session_of_token
authenticate_token libraries none w = (ok none, w)
authenticate_token libraries (some token) w =
    if token == "" then (ok none, w) else authenticate_row (session_of_token libraries token w.db) w

pub record Cookie : Type 0 where
  pub token : String
  pub max_age : ℕ

-- A session that was created, with its token and its CSRF token.
pub record NewSession : Type 0 where
  pub saved : AuthSessionRecord
  pub token : String
  pub csrf_token : String

unfoldable pub create_auth_session :
    Libraries → AuthSettings → AdministratorRecord → AuthExec NewSession
create_auth_session libraries settings admin = do
  t ← draw
  c ← draw
  id ← uuid4
  now ← utc_now
  created ← utc_now
  let saved : AuthSessionRecord = record {
    id = id;
    administrator_id = admin.id;
    token_digest = libraries.digest (codes (libraries.token t));
    csrf_digest = libraries.digest (codes (libraries.token c));
    created_at = created;
    expires_at = now + hours settings.auth_session_hours;
    revoked_at = none;
  }
  change (λ db. with_auth_sessions (db.auth_sessions ++ saved ∷ []) db)
  commit
  pure (record { saved = saved; token = libraries.token t; csrf_token = libraries.token c })

-- the row of a session is written anew, and committed
unfoldable pub write_session : AuthSessionRecord → AuthExec Unit
write_session row = do
  change (λ db. with_auth_sessions (update_row session_key row.id (λ _. row) db.auth_sessions) db)
  commit

unfoldable pub rotate_csrf : Libraries → AuthSessionRecord → AuthExec String
unfolding write_session
rotate_csrf libraries saved = do
  c ← draw
  write_session (record saved { csrf_digest = libraries.digest (codes (libraries.token c)) })
  pure (libraries.token c)

-- `set_session_cookie`: `max(0, ...)` is the subtraction of ℕ.
unfoldable pub set_session_cookie : String → ℕ → AuthExec Cookie
set_session_cookie token expires_at = do
  now ← utc_now
  pure (record { token = token; max_age = (expires_at - now) / 1000000 })

-- What the endpoints read of a request.
pub record HttpRequest : Type 0 where
  pub method : String
  pub origin : Option Text
  pub csrf_token : Option String
  pub cookie : Option String
  pub network : Request

abbrev pub is_safe_method : String → Bool
is_safe_method method = method == "GET" || (method == "HEAD" || method == "OPTIONS")

unfoldable pub csrf_valid : Libraries → Option String → AuthSessionRecord → Bool
csrf_valid libraries none row = false
csrf_valid libraries (some token) row =
    not (token == "") && libraries.digest (codes token) == row.csrf_digest

-- the checks of a method that is not safe
unfoldable pub check_unsafe :
    Libraries → AuthSettings → HttpRequest → AuthSessionRecord → Outcome HttpError Unit
unfolding require_trusted_origin csrf_valid
check_unsafe libraries settings request row =
    elim (require_trusted_origin settings request.origin) [
      | raised e ↦ raised e
      | ok _ ↦ if csrf_valid libraries request.csrf_token row then ok tt else raised csrf_invalid
    ]

-- what a request is let through with
unfoldable pub admit_session :
    Libraries
    → AuthSettings
    → HttpRequest
    → Option AuthenticatedSession
    → Outcome HttpError AuthenticatedSession
unfolding check_unsafe
admit_session libraries settings request none = raised authentication_required
admit_session libraries settings request (some authenticated) =
    if is_safe_method request.method
    then ok authenticated
    else elim (check_unsafe libraries settings request authenticated.session) [
      | raised e ↦ raised e
      | ok _ ↦ ok authenticated
    ]

unfoldable pub require_http_auth :
    Libraries → AuthSettings → HttpRequest → AuthExec AuthenticatedSession
unfolding authenticate_token admit_session
require_http_auth libraries settings request = do
  authenticated ← authenticate_token libraries request.cookie
  lift (admit_session libraries settings request authenticated)

pub data CloseCode : Type 0 where
  origin_close authentication_close : CloseCode

-- `authenticate_websocket`: the id of the session, or the code that the socket is closed with. The
-- failure of the database is left out.
unfoldable pub authenticate_websocket :
    Libraries → AuthSettings → HttpRequest → Exec World CloseCode ℕ
unfolding origin_is_trusted authenticate_token
authenticate_websocket libraries settings request =
    if not (origin_is_trusted settings request.origin) then raise origin_close else (do
      found ←
          handle_errors (λ _. authentication_close) (authenticate_token libraries request.cookie)
      lift (elim found [
        | none ↦ raised authentication_close
        | some authenticated ↦ ok authenticated.session.id
      ]))

unfoldable pub websocket_session_active : ℕ → AuthExec Bool
websocket_session_active id w = elim (get_row session_key id w.db.auth_sessions) [
  | none ↦ (ok false, w)
  | some row ↦
      if is_some row.revoked_at
      then (ok false, w)
      else (do now ← utc_now; pure (ltb now row.expires_at)) w
]
