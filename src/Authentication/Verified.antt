-- ===== src/Authentication/Verified.antt =====
-- The check of the credentials in `login` of backend/app/api/auth.py, and what precedes it.
use machine_deck.Base.{
  nat_eq, string_eq, ok, continue-eq-ok, String, ◌≡◌, refl, ap, ◌∙◌, Bool, true, false, Option,
  none, some, arith, eq_iff,
}
use machine_deck.Text.{Text, text_eq}
use machine_deck.Database.{AdministratorRecord, Database}
use machine_deck.World.{World}
use machine_deck.Authentication.{Libraries, AuthSettings, require_trusted_origin, administrator}
use machine_deck.Authentication.Sessions.{HttpRequest}
use machine_deck.Authentication.Login.{rate_limited, verify_credentials}
use machine_deck.Authentication.Requests.{
  Credentials, AuthSessionResponse, network_of, refuse_limited, refuse_unverified, login,
}

administrator-same :
    (db db' : Database)
    → db'.administrators ≡ db.administrators
    → administrator db ≡ administrator db'
unfolding administrator
administrator-same db db' h = rw h refl

module _ (libraries : Libraries) (settings : AuthSettings) where
  network_of-world :
      (request : HttpRequest) (w : World) → (network_of libraries settings request w).1 ≡ w
  unfolding network_of
  network_of-world request w = ground arith

  rate_limited-administrators :
      (remote : Text) (w : World)
      → (rate_limited libraries settings remote w).1.db.administrators ≡ w.db.administrators
  unfolding rate_limited
  rate_limited-administrators remote w = refl

  refuse_limited-passes :
      (limited : Bool) (w : World)
      → (refuse_limited libraries settings limited w).0 ≡ ok tt
      → (refuse_limited libraries settings limited w).1 ≡ w
  unfolding refuse_limited
  refuse_limited-passes false w h = refl
  refuse_limited-passes true w h = ground arith

  refuse_unverified-passes :
      (remote : Text) (verified : Option AdministratorRecord) (w : World) {a : AdministratorRecord}
      → (refuse_unverified libraries settings remote verified w).0 ≡ ok a
      → verified ≡ some a
  unfolding refuse_unverified
  refuse_unverified-passes remote verified w h = ground arith

  verify_credentials-verified :
      (username password : String) (w : World) {a : AdministratorRecord}
      → (verify_credentials libraries username password w).0 ≡ ok (some a)
      → (admin : AdministratorRecord) × (administrator w.db ≡ some admin)
        × (admin.username ≡ username)
        × (libraries.verify admin.password_hash password ≡ true)
  unfolding verify_credentials
  verify_credentials-verified username password w h = go (administrator w.db) refl
    where
      go :
          (found : Option AdministratorRecord)
          → administrator w.db ≡ found
          → (admin : AdministratorRecord) × (found ≡ some admin)
            × (admin.username ≡ username)
            × (libraries.verify admin.password_hash password ≡ true)
      go none e = ground arith
      go (some admin) e = (
        admin,
        refl,
        ground (arith, eq_iff admin.username username),
        ground (arith, eq_iff admin.username username),
      )

  -- A login that succeeds has named the administrator and shown a password that the stored hash
  -- verifies.
  pub login-verified :
      (credentials : Credentials) (request : HttpRequest) (w : World)
      {response : AuthSessionResponse}
      → (login libraries settings credentials request w).0 ≡ ok response
      → (admin : AdministratorRecord) × (administrator w.db ≡ some admin)
        × (admin.username ≡ credentials.username)
        × (libraries.verify admin.password_hash credentials.password ≡ true)
  unfolding login
  login-verified credentials request w h =
      let (_, _, h1) = continue-eq-ok (require_trusted_origin settings request.origin) _ _ h in
      let (network, _, h2) = continue-eq-ok (network_of libraries settings request w).0 _ _ h1 in
      let w2 = (network_of libraries settings request w).1 in
      let (limited, _, h3) =
        continue-eq-ok (rate_limited libraries settings network.client w2).0 _ _ h2 in
      let w3 = (rate_limited libraries settings network.client w2).1 in
      let (_, passed, h4) =
        continue-eq-ok (refuse_limited libraries settings limited w3).0 _ _ h3 in
      let w4 = (refuse_limited libraries settings limited w3).1 in
      let (verified, is_verified, h5) =
        continue-eq-ok (verify_credentials libraries credentials.username credentials.password w4).0
          _ _ h4 in
      let w5 = (verify_credentials libraries credentials.username credentials.password w4).1 in
      let (a, unverified, _) =
        continue-eq-ok (refuse_unverified libraries settings network.client verified w5).0 _ _ h5 in
      let (admin, is_admin, named, verifies) =
        verify_credentials-verified credentials.username credentials.password w4
          (is_verified ∙ ap ok (refuse_unverified-passes network.client verified w5 unverified)) in
      let same : w4.db.administrators ≡ w.db.administrators =
        ap (λ (u : World). u.db.administrators) (refuse_limited-passes limited w3 passed)
        ∙ rate_limited-administrators network.client w2
        ∙ ap (λ (u : World). u.db.administrators) (network_of-world request w) in
      (admin, administrator-same w.db w4.db same ∙ is_admin, named, verifies)
