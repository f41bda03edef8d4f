-- ===== src/Authentication/Opening.antt =====
-- A session from `create_auth_session` to `require_http_auth`: backend/app/security/auth.py.
use machine_deck.Base.{
  ◌==◌, nat_eq, string_eq, find?, ok, ◌+◌, ◌<◌, String, ◌≡◌, refl, ◌≢◌, Bool, true, none, some,
  List, [], ◌∷◌, ◌++◌, arith, eq_iff, eq_refl,
}
use machine_deck.Text.{codes, text_eq}
use machine_deck.Database.{AdministratorRecord, AuthSessionRecord}
use machine_deck.Database.Rows.{get_row}
use machine_deck.World.{World}
use machine_deck.Authentication.{Libraries, AuthSettings, hours, admin_key}
use machine_deck.Authentication.Sessions.{
  Cookie, HttpRequest, session_of_token, is_safe_method, require_http_auth,
}
use machine_deck.Authentication.Requests.{AuthSessionResponse, open_session}

module _ (libraries : Libraries) (settings : AuthSettings) where
  find?-append :
      {A : Type 0} (p : A → Bool) (xs : List A) (x : A)
      → find? p xs ≡ none
      → p x ≡ true
      → find? p (xs ++ x ∷ []) ≡ some x
  find?-append p [] x h q = ground arith
  find?-append p (y ∷ ys) x h q = ground (arith, find?-append p ys x)

  abbrev opened : AdministratorRecord → World → AuthSessionRecord
  opened admin w = record {
    id = w.issued + 1 + 1;
    administrator_id = admin.id;
    token_digest = libraries.digest (codes (libraries.token w.issued));
    csrf_digest = libraries.digest (codes (libraries.token (w.issued + 1)));
    created_at = w.clock (w.readings + 1);
    expires_at = w.clock w.readings + hours settings.auth_session_hours;
    revoked_at = none;
  }

  require_http_auth-live :
      (request : HttpRequest) (u : World) (t : String) (row : AuthSessionRecord)
      (admin : AdministratorRecord)
      → request.cookie ≡ some t
      → is_safe_method request.method ≡ true
      → t ≢ ""
      → session_of_token libraries t u.db ≡ some row
      → row.revoked_at ≡ none
      → u.clock u.readings < row.expires_at
      → get_row admin_key row.administrator_id u.db.administrators ≡ some admin
      → (require_http_auth libraries settings request u).0
        ≡ ok (record { administrator = admin; session = row })
  unfolding require_http_auth
  require_http_auth-live request u t row admin shown safe nonempty selected live unexpired present =
      ground (arith, eq_iff t "")

  -- The cookie of a session that was opened is admitted for a safe method until the session expires,
  -- as the administrator that opened it, where the token is new and not empty and the administrator
  -- is in the table.
  pub open_session-admits :
      (admin : AdministratorRecord) (request : HttpRequest) (w : World)
      {response : AuthSessionResponse} {cookie : Cookie}
      → (open_session libraries settings admin w).0 ≡ ok response
      → response.cookie ≡ some cookie
      → request.cookie ≡ some cookie.token
      → is_safe_method request.method ≡ true
      → libraries.token w.issued ≢ ""
      → session_of_token libraries (libraries.token w.issued) w.db ≡ none
      → get_row admin_key admin.id w.db.administrators ≡ some admin
      → let w' = (open_session libraries settings admin w).1 in
        w'.clock w'.readings < response.expires_at
        → (row : AuthSessionRecord) × ((require_http_auth libraries settings request w').0
            ≡ ok (record { administrator = admin; session = row }))
  unfolding open_session session_of_token
  open_session-admits admin request w h has_cookie shown safe nonempty fresh present unexpired = (
    opened admin w,
    require_http_auth-live request _ (libraries.token w.issued) (opened admin w) admin
        (ground arith) safe nonempty
        (find?-append
          (λ row. row.token_digest == libraries.digest (codes (libraries.token w.issued)))
          w.db.auth_sessions (opened admin w) fresh
          (eq_refl (libraries.digest (codes (libraries.token w.issued)))))
        refl (ground arith) present,
  )
