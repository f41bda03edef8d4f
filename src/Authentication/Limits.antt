-- ===== src/Authentication/Limits.antt =====
-- The rate limit of `login` in backend/app/api/auth.py.
use machine_deck.Base.{
  leb, filter, Outcome, ok, raised, is_ok, continue, ◌>>=◌, ◌>>◌, ℕ, ◌≤◌, String, ◌≡◌, refl, ap,
  ◌≢◌, ◌↔◌, Bool, true, false, not, Option, none, some, List, [], ◌∷◌, arith,
}
use machine_deck.Json.{no_fields}
use machine_deck.Text.{Text}
use machine_deck.Network.{RequestNetworkContext, request_network_context}
use machine_deck.Database.{AdministratorRecord, LoginFailureRecord}
use machine_deck.World.{World}
use machine_deck.Authentication.{
  HttpError, login_rate_limited, Libraries, AuthSettings, AuthExec, remote_digest,
  require_trusted_origin, audit_auth,
}
use machine_deck.Authentication.Sessions.{HttpRequest}
use machine_deck.Authentication.Login.{
  is_stale, failure_count, rate_limited, clear_login_failures, rehashed, verify_credentials,
}
use machine_deck.Authentication.Requests.{
  Credentials, AuthSessionResponse, network_of, open_session, refuse_limited, refuse_unverified,
  login,
}

module _ (libraries : Libraries) (settings : AuthSettings) where
  failure_count-not_stale :
      (now : ℕ) (key : String) (rows : List LoginFailureRecord)
      → failure_count settings now key (filter (λ row. not (is_stale settings now row)) rows)
        ≡ failure_count settings now key rows
  unfolding failure_count
  failure_count-not_stale now key [] = refl
  failure_count-not_stale now key (row ∷ rows) =
      ground (arith, failure_count-not_stale now key rows)

  rate_limited-counts :
      (remote : Text) (w : World)
      → (rate_limited libraries settings remote w).0
        ≡ ok (
            leb settings.login_max_failures (
              failure_count settings
                (w.clock w.readings)
                (remote_digest libraries remote)
                w.db.login_failures))
  unfolding rate_limited
  rate_limited-counts remote w =
      ap (λ (n : ℕ). ok (leb settings.login_max_failures n))
        (failure_count-not_stale (w.clock w.readings) (remote_digest libraries remote)
          w.db.login_failures)

  -- the rest of a login, once the credentials were checked
  abbrev verified_login : Text → Option AdministratorRecord → AuthExec AuthSessionResponse
  verified_login remote verified = do
    admin ← refuse_unverified libraries settings remote verified
    clear_login_failures libraries remote
    audit_auth admin.username "auth.login" "success" (libraries.id_text admin.id) no_fields
    open_session libraries settings admin

  -- the rest of a login, once the failures were counted
  abbrev checked_login : Credentials → Text → Bool → AuthExec AuthSessionResponse
  checked_login credentials remote limited = do
    refuse_limited libraries settings limited
    verified ← verify_credentials libraries credentials.username credentials.password
    verified_login remote verified

  verified_login-not_limited :
      (remote : Text) (verified : Option AdministratorRecord) (w : World)
      → (verified_login remote verified w).0 ≢ raised login_rate_limited
  unfolding refuse_unverified clear_login_failures audit_auth open_session
  verified_login-not_limited remote none w = ground arith
  verified_login-not_limited remote (some admin) w = ground arith

  rehashed-returns :
      (password : String) (verified : Option AdministratorRecord) (w : World)
      → is_ok (rehashed libraries password verified w).0 ≡ true
  unfolding rehashed
  rehashed-returns password verified w = ground arith

  continue-not_limited :
      (remote : Text) (r : Outcome HttpError (Option AdministratorRecord)) (w : World)
      → is_ok r ≡ true
      → (continue r (verified_login remote) w).0 ≢ raised login_rate_limited
  continue-not_limited remote (ok verified) w h = verified_login-not_limited remote verified w
  continue-not_limited remote (raised e) w h = ground arith

  checked_login-limited :
      (credentials : Credentials) (remote : Text) (limited : Bool) (w : World)
      → ((checked_login credentials remote limited w).0 ≡ raised login_rate_limited)
        ↔ (limited ≡ true)
  unfolding refuse_limited verify_credentials
  checked_login-limited credentials remote true w = (λ _. refl, λ _. refl)
  checked_login-limited credentials remote false w = (
    (λ h. elim (continue-not_limited remote _ _ (rehashed-returns credentials.password _ w) h) [ ]),
    λ h. ground arith,
  )

  network_of-known :
      (request : HttpRequest) (w : World) (context : RequestNetworkContext)
      → request_network_context libraries.addresses settings.network request.network ≡ some context
      → network_of libraries settings request w ≡ (ok context, w)
  unfolding network_of
  network_of-known request w context known = rw (known, network_of) refl

  login-counted :
      (credentials : Credentials) (request : HttpRequest) (w : World)
      (context : RequestNetworkContext)
      → require_trusted_origin settings request.origin ≡ ok tt
      → request_network_context libraries.addresses settings.network request.network ≡ some context
      → login libraries settings credentials request w
        ≡ checked_login credentials context.client
            (leb settings.login_max_failures (
              failure_count settings
                (w.clock w.readings)
                (remote_digest libraries context.client)
                w.db.login_failures))
            (rate_limited libraries settings context.client w).1
  unfolding login
  login-counted credentials request w context trusted known =
      rw
        (
          trusted,
          network_of-known request w context known,
          rate_limited-counts context.client w,
          continue,
        )
        refl

  -- A login from an allowed origin with a readable network context is refused as too frequent exactly
  -- where the failures of its client, within the window that ends now, have reached the maximum,
  -- whatever its credentials.
  pub login-limited_iff :
      (credentials : Credentials) (request : HttpRequest) (w : World)
      (context : RequestNetworkContext)
      → require_trusted_origin settings request.origin ≡ ok tt
      → request_network_context libraries.addresses settings.network request.network ≡ some context
      → ((login libraries settings credentials request w).0 ≡ raised login_rate_limited) ↔ (
          settings.login_max_failures
          ≤ failure_count settings
              (w.clock w.readings)
              (remote_digest libraries context.client)
              w.db.login_failures)
  login-limited_iff credentials request w context trusted known =
      rw (login-counted credentials request w context trusted known) (
        let (to, from) = checked_login-limited credentials context.client _ _ in
        (λ h. ground (arith, to h), λ h. from (ground arith)))
