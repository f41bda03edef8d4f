-- ===== src/Authentication/Access.antt =====
-- Who is let through, by `require_http_auth` and `setup` of the backend, and the end of a session by
-- `logout`: backend/app/security/auth.py and backend/app/api/auth.py.
use machine_deck.Base.{
  Option-cases, ◌==◌, nat_beq_iff, nat_eq, string_eq, is_some, find?, find?-some, ok, raised,
  continue-eq-ok, ℕ, ◌<◌, String, ◌≡◌, refl, ap, ◌∙◌, ◌≢◌, ◌⊎◌, inl, inr, true, Option, none, some,
  List, [], ◌∷◌, arith, eq_iff,
}
use machine_deck.Text.{codes, text_eq}
use machine_deck.Network.{RequestNetworkContext, request_network_context}
use machine_deck.Database.{AuthSessionRecord, Database}
use machine_deck.Database.Rows.{get_row, update_row}
use machine_deck.World.{World}
use machine_deck.Authentication.{
  authentication_required, Libraries, AuthSettings, admin_key, session_key, is_loopback,
  origin_is_trusted, require_trusted_origin,
}
use machine_deck.Authentication.Sessions.{
  AuthenticatedSession, HttpRequest, session_of_token, authenticated_of, authenticate_row,
  authenticate_token, is_safe_method, csrf_valid, check_unsafe, admit_session, require_http_auth,
}
use machine_deck.Authentication.Requests.{Credentials, AuthSessionResponse, setup, logout}

-- What an admitted request has: a cookie whose digest selects the session, a session that is neither
-- revoked nor expired, an administrator, and, for a method that is not safe, no foreign origin and
-- the CSRF token of the session.
pub record IsEntitled (libraries : Libraries) (settings : AuthSettings) (request : HttpRequest)
    (w : World) (authenticated : AuthenticatedSession) : Type 0 where
  pub token :
      (t : String) × (request.cookie ≡ some t)
      × (t ≢ "")
      × (session_of_token libraries t w.db ≡ some authenticated.session)
  pub not_revoked : authenticated.session.revoked_at ≡ none
  pub not_expired : w.clock w.readings < authenticated.session.expires_at
  pub admin :
      get_row admin_key authenticated.session.administrator_id w.db.administrators
      ≡ some authenticated.administrator
  pub unsafe :
      (is_safe_method request.method ≡ true)
      ⊎ (((request.origin ≡ none) ⊎ (origin_is_trusted settings request.origin ≡ true))
          × (csrf_valid libraries request.csrf_token authenticated.session ≡ true))

module _ (libraries : Libraries) (settings : AuthSettings) where
  admit_session-unsafe :
      (request : HttpRequest) (found : Option AuthenticatedSession) {a : AuthenticatedSession}
      → admit_session libraries settings request found ≡ ok a
      → (found ≡ some a)
        × ((is_safe_method request.method ≡ true)
            ⊎ (((request.origin ≡ none) ⊎ (origin_is_trusted settings request.origin ≡ true))
                × (csrf_valid libraries request.csrf_token a.session ≡ true)))
  unfolding admit_session check_unsafe require_trusted_origin
  admit_session-unsafe request found h = ground arith

  authenticate_row-live :
      (row : Option AuthSessionRecord) (w : World) {a : AuthenticatedSession}
      → (authenticate_row row w).0 ≡ ok (some a)
      → (row ≡ some a.session)
        × (a.session.revoked_at ≡ none)
        × (w.clock w.readings < a.session.expires_at)
        × (get_row admin_key a.session.administrator_id w.db.administrators ≡ some a.administrator)
  unfolding authenticate_row authenticated_of
  authenticate_row-live row w h = ground arith

  authenticate_token-selects :
      (cookie : Option String) (w : World) {a : AuthenticatedSession}
      → (authenticate_token libraries cookie w).0 ≡ ok (some a)
      → (t : String) × (cookie ≡ some t)
        × (t ≢ "")
        × ((authenticate_row (session_of_token libraries t w.db) w).0 ≡ ok (some a))
  unfolding authenticate_token
  authenticate_token-selects none w h = ground arith
  authenticate_token-selects (some t) w h = (t, refl, ground (arith, eq_iff t ""), ground arith)

  find-written :
      (t : String) (row : AuthSessionRecord) (at : Option ℕ) (rows : List AuthSessionRecord)
      → find? (λ r. r.token_digest == libraries.digest (codes t)) rows ≡ some row
      → find?
          (λ r. r.token_digest == libraries.digest (codes t))
          (update_row session_key row.id (λ _. record row { revoked_at = at }) rows)
        ≡ some (record row { revoked_at = at })
  find-written t row at [] h = ground arith
  find-written t row at (r ∷ rows) h = ground (
    arith,
    find-written t row at rows,
    nat_beq_iff r.id row.id,
    find?-some (λ r. r.token_digest == libraries.digest (codes t)) rows,
  )

  session_of_token-written :
      (t : String) (db db' : Database) (row : AuthSessionRecord) (at : Option ℕ)
      → db'.auth_sessions
        ≡ update_row session_key row.id (λ _. record row { revoked_at = at }) db.auth_sessions
      → session_of_token libraries t db ≡ some row
      → session_of_token libraries t db' ≡ some (record row { revoked_at = at })
  unfolding session_of_token
  session_of_token-written t db db' row at written selected =
      rw written (find-written t row at db.auth_sessions selected)

  -- A request that is admitted is entitled: it has shown the token of a live session, and for a
  -- method that is not safe the session's CSRF token, from no foreign origin.
  pub require_http_auth-IsEntitled :
      (request : HttpRequest) (w : World) {a : AuthenticatedSession}
      → (require_http_auth libraries settings request w).0 ≡ ok a
      → IsEntitled libraries settings request w a
  unfolding require_http_auth
  require_http_auth-IsEntitled request w h =
      let (found, authenticated, admitted) =
        continue-eq-ok (authenticate_token libraries request.cookie w).0 _ _ h in
      let (is_found, unsafe) = admit_session-unsafe request found admitted in
      let (t, shown, nonempty, selected) =
        authenticate_token-selects request.cookie w (authenticated ∙ ap ok is_found) in
      let (row, not_revoked, not_expired, admin) = authenticate_row-live _ w selected in
      record {
        token = (t, shown, nonempty, row);
        not_revoked = not_revoked;
        not_expired = not_expired;
        admin = admin;
        unsafe = unsafe;
      }

  require_http_auth-db :
      (request : HttpRequest) (w : World)
      → (require_http_auth libraries settings request w).1.db ≡ w.db
  unfolding require_http_auth
  require_http_auth-db request w = ground arith

  -- a row that is revoked lets nobody through
  require_http_auth-revoked :
      (request : HttpRequest) (u : World) (t : String) (row : AuthSessionRecord)
      → request.cookie ≡ some t
      → session_of_token libraries t u.db ≡ some row
      → is_some row.revoked_at ≡ true
      → (require_http_auth libraries settings request u).0 ≡ raised authentication_required
  unfolding require_http_auth
  require_http_auth-revoked request u t row shown selected revoked = ground arith

  logout-writes :
      (request : HttpRequest) (w : World)
      → (logout libraries settings request w).0 ≡ ok tt
      → (a : AuthenticatedSession) × ((require_http_auth libraries settings request w).0 ≡ ok a)
        × (now : ℕ) × ((logout libraries settings request w).1.db.auth_sessions
            ≡ update_row session_key a.session.id
                (λ _. record a.session { revoked_at = some now })
                w.db.auth_sessions)
  unfolding logout
  logout-writes request w h =
      let (a, admitted, _) =
        continue-eq-ok (require_http_auth libraries settings request w).0 _ _ h in
      let u = (require_http_auth libraries settings request w).1 in
      (a, admitted, u.clock u.readings, ground (arith, admitted, require_http_auth-db request w))

  -- A session that was logged out is over: no request with its cookie is admitted any more.
  pub logout-ends_session :
      (request later : HttpRequest) (w : World)
      → (logout libraries settings request w).0 ≡ ok tt
      → later.cookie ≡ request.cookie
      → (require_http_auth libraries settings later (logout libraries settings request w).1).0
        ≡ raised authentication_required
  logout-ends_session request later w h same =
      let (a, admitted, now, written) = logout-writes request w h in
      let (t, shown, _, selected) = (require_http_auth-IsEntitled request w admitted).token in
      require_http_auth-revoked later _ t (record a.session { revoked_at = some now })
        (same ∙ shown) (session_of_token-written t _ _ a.session (some now) written selected) refl

  -- A setup that succeeds has a network context whose peer and whose client are loopback.
  pub setup-is_local :
      (credentials : Credentials) (request : HttpRequest) (w : World)
      {response : AuthSessionResponse}
      → (setup libraries settings credentials request w).0 ≡ ok response
      → (context : RequestNetworkContext) × (request_network_context libraries.addresses
            settings.network request.network
          ≡ some context)
        × (is_loopback libraries context.peer ≡ true)
        × (is_loopback libraries context.client ≡ true)
  unfolding setup
  setup-is_local credentials request w h =
      elim (Option-cases
        (request_network_context libraries.addresses settings.network request.network)) [
          | inl invalid ↦ ground arith
          | inr (context, found) ↦ (context, found, ground arith, ground arith)
        ]
