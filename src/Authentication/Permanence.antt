-- ===== src/Authentication/Permanence.antt =====
-- The administrators table under sequences of requests to backend/app/api/auth.py.
use machine_deck.Base.{
  nat_eq, string_eq, ◌>>◌, continue-keeps, ℕ, String, ◌≡◌, refl, Bool, true, false, Option, none,
  some, List, [], ◌∷◌, arith,
}
use machine_deck.Json.{no_fields}
use machine_deck.Text.{Text, text_eq}
use machine_deck.Database.{AdministratorRecord}
use machine_deck.World.{World}
use machine_deck.Authentication.{Libraries, AuthSettings, require_trusted_origin, audit_auth}
use machine_deck.Authentication.Sessions.{HttpRequest}
use machine_deck.Authentication.Login.{
  rate_limited, clear_login_failures, verified_admin, rehashed, verify_credentials,
}
use machine_deck.Authentication.Requests.{
  Credentials, auth_status, network_of, open_session, setup, refuse_limited, refuse_unverified,
  login, current_session, logout,
}
use machine_deck.Authentication.Only.{
  identity, HasOnly, administrator-identity, identity-update_row, bind-HasOnly, auth_status-HasOnly,
  current_session-HasOnly, logout-HasOnly, setup-unchanged,
}

-- The requests to the endpoints, and their runs one after another, refused ones included.
pub data AuthCall : Type 0 where
  auth_status_call current_session_call logout_call : HttpRequest → AuthCall
  setup_call login_call : Credentials → HttpRequest → AuthCall

abbrev pub run_auth_call : Libraries → AuthSettings → AuthCall → World → World
run_auth_call libraries settings (auth_status_call request) w =
    (auth_status libraries settings request w).1
run_auth_call libraries settings (current_session_call request) w =
    (current_session libraries settings request w).1
run_auth_call libraries settings (logout_call request) w = (logout libraries settings request w).1
run_auth_call libraries settings (setup_call credentials request) w =
    (setup libraries settings credentials request w).1
run_auth_call libraries settings (login_call credentials request) w =
    (login libraries settings credentials request w).1

abbrev pub run_auth_calls : Libraries → AuthSettings → List AuthCall → World → World
run_auth_calls libraries settings [] w = w
run_auth_calls libraries settings (call ∷ calls) w =
    run_auth_calls libraries settings calls (run_auth_call libraries settings call w)

module _ (libraries : Libraries) (settings : AuthSettings) (who : ℕ × String) where
  network-kept :
      (request : HttpRequest) (w : World)
      → HasOnly who w
      → HasOnly who (network_of libraries settings request w).1
  unfolding network_of
  network-kept request w h = ground arith

  rate_limited-HasOnly :
      (remote : Text) (w : World)
      → HasOnly who w
      → HasOnly who (rate_limited libraries settings remote w).1
  unfolding rate_limited
  rate_limited-HasOnly remote w (h, k) = (h, h)

  refuse_limited-HasOnly :
      (limited : Bool) (w : World)
      → HasOnly who w
      → HasOnly who (refuse_limited libraries settings limited w).1
  unfolding refuse_limited
  refuse_limited-HasOnly false w h = h
  refuse_limited-HasOnly true w (h, k) = (h, h)

  rehashed-HasOnly :
      (password : String) (verified : Option AdministratorRecord) (w : World)
      → ((a : AdministratorRecord) → verified ≡ some a → identity a ≡ who)
      → HasOnly who w
      → HasOnly who (rehashed libraries password verified w).1
  unfolding rehashed
  rehashed-HasOnly password none w v h = h
  rehashed-HasOnly password (some admin) w v h = ground (
    arith,
    v admin refl,
    identity-update_row who (record admin { password_hash = libraries.hash w.issued password })
        w.db.administrators admin.id (v admin refl) h.0,
  )

  verified_admin-administrator :
      (username password : String) (found : Option AdministratorRecord) (a : AdministratorRecord)
      → verified_admin libraries username password found ≡ some a
      → found ≡ some a
  unfolding verified_admin
  verified_admin-administrator username password found a h = ground arith

  verify_credentials-HasOnly :
      (username password : String) (w : World)
      → HasOnly who w
      → HasOnly who (verify_credentials libraries username password w).1
  unfolding verify_credentials
  verify_credentials-HasOnly username password w h =
      rehashed-HasOnly password _ w
        (λ a e.
          administrator-identity who a w.db h.0
            (verified_admin-administrator username password _ a e))
        h

  refuse_unverified-HasOnly :
      (remote : Text) (verified : Option AdministratorRecord) (w : World)
      → HasOnly who w
      → HasOnly who (refuse_unverified libraries settings remote verified w).1
  unfolding refuse_unverified
  refuse_unverified-HasOnly remote none w (h, k) = (h, h)
  refuse_unverified-HasOnly remote (some admin) w h = h

  clear_and_open-HasOnly :
      (remote : Text) (admin : AdministratorRecord) (w : World)
      → HasOnly who w
      → HasOnly who
          ((clear_login_failures libraries remote
              >> audit_auth admin.username "auth.login" "success"
                  (libraries.id_text admin.id)
                  no_fields
              >> open_session libraries settings admin)
            w).1
  unfolding clear_login_failures audit_auth open_session
  clear_and_open-HasOnly remote admin w (h, k) = (h, h)

  login-HasOnly :
      (credentials : Credentials) (request : HttpRequest) (w : World)
      → HasOnly who w
      → HasOnly who (login libraries settings credentials request w).1
  unfolding login
  login-HasOnly credentials request w h =
      continue-keeps (HasOnly who) (require_trusted_origin settings request.origin) _ w h (λ _ _.
        bind-HasOnly libraries settings who (network_of libraries settings request) _
          (network-kept request)
          (λ network.
            bind-HasOnly libraries settings who (rate_limited libraries settings network.client) _
              (rate_limited-HasOnly network.client)
              (λ limited.
                bind-HasOnly libraries settings who (refuse_limited libraries settings limited) _
                  (refuse_limited-HasOnly limited)
                  (λ _.
                    bind-HasOnly libraries settings who
                      (verify_credentials libraries credentials.username credentials.password) _
                      (verify_credentials-HasOnly credentials.username credentials.password)
                      (λ verified.
                        bind-HasOnly libraries settings who
                          (refuse_unverified libraries settings network.client verified) _
                          (refuse_unverified-HasOnly network.client verified)
                          (clear_and_open-HasOnly network.client)))))
          w h)

  run_auth_call-HasOnly :
      (call : AuthCall) (w : World)
      → HasOnly who w
      → HasOnly who (run_auth_call libraries settings call w)
  run_auth_call-HasOnly (auth_status_call request) w h =
      auth_status-HasOnly libraries settings who request w h
  run_auth_call-HasOnly (current_session_call request) w h =
      current_session-HasOnly libraries settings who request w h
  run_auth_call-HasOnly (logout_call request) w h =
      logout-HasOnly libraries settings who request w h
  run_auth_call-HasOnly (setup_call credentials request) w h =
      rw (setup-unchanged libraries settings who credentials request w h) h
  run_auth_call-HasOnly (login_call credentials request) w h = login-HasOnly credentials request w h

  -- Where the administrator is the only one, any sequence of requests to the endpoints, refused ones
  -- included, leaves it the only one, with its identifier and its name.
  pub run_auth_calls-HasOnly :
      (calls : List AuthCall) (w : World)
      → HasOnly who w
      → HasOnly who (run_auth_calls libraries settings calls w)
  run_auth_calls-HasOnly [] w h = h
  run_auth_calls-HasOnly (call ∷ calls) w h =
      run_auth_calls-HasOnly calls _ (run_auth_call-HasOnly call w h)
