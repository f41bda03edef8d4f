-- ===== src/Authentication/Login.antt =====
-- Failures and credentials of a login: `rate_limited` to `verify_credentials` of
-- backend/app/security/auth.py.
use machine_deck.Base.{
  ltb, leb, if◌then◌else◌, ◌==◌, nat_eq, string_eq, length, filter, pure, gets, ◌>>=◌, ◌>>◌, ℕ, ◌+◌,
  String, Bool, not, ◌&&◌, Option, none, some, List, [], ◌∷◌, ◌++◌,
}
use machine_deck.Json.{string, no_fields, field}
use machine_deck.Text.{Text, text_eq}
use machine_deck.Database.{AdministratorRecord, LoginFailureRecord}
use machine_deck.Database.Rows.{update_row}
use machine_deck.World.{utc_now, uuid4, commit, change}
use machine_deck.Authentication.{
  Libraries, AuthSettings, AuthExec, minutes, admin_key, with_administrators, with_login_failures,
  draw, remote_digest, administrator, audit_auth,
}

-- whether a failure is older than the window, which ends at `now`
unfoldable pub is_stale : AuthSettings → ℕ → LoginFailureRecord → Bool
is_stale settings now row = ltb (row.attempted_at + minutes settings.login_window_minutes) now

unfoldable pub failure_count : AuthSettings → ℕ → String → List LoginFailureRecord → ℕ
unfolding is_stale
failure_count settings now key rows =
    length (filter (λ row. row.remote_digest == key && not (is_stale settings now row)) rows)

-- `rate_limited`: stale failures are deleted and the deletion committed before the count.
unfoldable pub rate_limited : Libraries → AuthSettings → Text → AuthExec Bool
unfolding failure_count is_stale remote_digest
rate_limited libraries settings remote = do
  now ← utc_now
  change (λ db.
      with_login_failures (filter (λ row. not (is_stale settings now row)) db.login_failures) db)
  commit
  count ←
      gets (λ w. failure_count settings now (remote_digest libraries remote) w.db.login_failures)
  pure (leb settings.login_max_failures count)

unfoldable pub record_login_failure : Libraries → Text → String → AuthExec Unit
unfolding audit_auth remote_digest
record_login_failure libraries remote reason = do
  id ← uuid4
  now ← utc_now
  let failure : LoginFailureRecord = record {
    id = id;
    remote_digest = remote_digest libraries remote;
    attempted_at = now;
  }
  change (λ db. with_login_failures (db.login_failures ++ failure ∷ []) db)
  audit_auth "anonymous" "auth.login" "failure" "administrator"
      (field "reason" (string reason) no_fields)
  commit

unfoldable pub clear_login_failures : Libraries → Text → AuthExec Unit
unfolding remote_digest
clear_login_failures libraries remote = do
  change (λ db.
      with_login_failures
        (filter (λ row. not (row.remote_digest == remote_digest libraries remote))
          db.login_failures)
        db)
  commit

-- `candidate_hash`
unfoldable pub candidate_hash : Libraries → Option AdministratorRecord → String → String
candidate_hash libraries none username = libraries.dummy_hash
candidate_hash libraries (some admin) username =
    if admin.username == username then admin.password_hash else libraries.dummy_hash

-- `check_needs_rehash`, with the new hash committed
unfoldable pub rehash : Libraries → AdministratorRecord → String → AuthExec AdministratorRecord
rehash libraries admin password =
    if libraries.needs_rehash admin.password_hash
    then (do
      salt ← draw
      let admin' = record admin { password_hash = libraries.hash salt password }
      change (λ db.
          with_administrators (update_row admin_key admin.id (λ _. admin') db.administrators) db)
      commit
      pure admin')
    else pure admin

unfoldable pub verified_admin :
    Libraries → String → String → Option AdministratorRecord → Option AdministratorRecord
unfolding candidate_hash
verified_admin libraries username password none = none
verified_admin libraries username password (some admin) =
    if libraries.verify (candidate_hash libraries (some admin) username) password
      && admin.username == username
    then some admin
    else none

unfoldable pub rehashed :
    Libraries → String → Option AdministratorRecord → AuthExec (Option AdministratorRecord)
unfolding rehash
rehashed libraries password none = pure none
rehashed libraries password (some admin) = do
  admin' ← rehash libraries admin password
  pure (some admin')

unfoldable pub verify_credentials :
    Libraries → String → String → AuthExec (Option AdministratorRecord)
unfolding verified_admin rehashed administrator
verify_credentials libraries username password w =
    rehashed libraries password (verified_admin libraries username password (administrator w.db)) w
