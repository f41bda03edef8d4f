-- ===== src/Authentication/Only.antt =====
-- The administrators table under the requests of backend/app/api/auth.py that do not log in.
use machine_deck.Base.{
  nat_eq, string_eq, is_some, continue, continue-keeps, ℕ, String, ◌≡◌, refl, true, Option, none,
  some, List, [], ◌∷◌, map, arith,
}
use machine_deck.Text.{text_eq}
use machine_deck.Database.{AdministratorRecord, Database}
use machine_deck.Database.Rows.{update_row}
use machine_deck.World.{World}
use machine_deck.Authentication.{Libraries, AuthSettings, AuthExec, admin_key, administrator}
use machine_deck.Authentication.Sessions.{
  HttpRequest, authenticate_row, authenticate_token, require_http_auth,
}
use machine_deck.Authentication.Requests.{Credentials, auth_status, setup, current_session, logout}

abbrev pub identity : AdministratorRecord → ℕ × String
identity a = (a.id, a.username)

-- The session's view and what is committed have this administrator and no other.
abbrev pub HasOnly : ℕ × String → World → Type 0
HasOnly who w =
    (map identity w.db.administrators ≡ who ∷ []) × (map identity w.saved.administrators ≡ who ∷ [])

administrator-present :
    (who : ℕ × String) (db : Database)
    → map identity db.administrators ≡ who ∷ []
    → is_some (administrator db) ≡ true
unfolding administrator
administrator-present who db h = go db.administrators h
  where
    go :
        (rows : List AdministratorRecord)
        → map identity rows ≡ who ∷ []
        → is_some (elim rows [ [] ↦ none | a ∷ _ ↦ some a ]) ≡ true
    go [] e = ground arith
    go (a ∷ rows) e = refl

pub administrator-identity :
    (who : ℕ × String) (a : AdministratorRecord) (db : Database)
    → map identity db.administrators ≡ who ∷ []
    → administrator db ≡ some a
    → identity a ≡ who
unfolding administrator
administrator-identity who a db h e = go db.administrators h e
  where
    go :
        (rows : List AdministratorRecord)
        → map identity rows ≡ who ∷ []
        → elim rows [ [] ↦ none | b ∷ _ ↦ some b ] ≡ some a
        → identity a ≡ who
    go [] h e = ground arith
    go (b ∷ rows) h e = ground arith

pub identity-update_row :
    (who : ℕ × String) (new : AdministratorRecord) (rows : List AdministratorRecord)
    → (id : ℕ) → identity new ≡ who
    → map identity rows ≡ who ∷ []
    → map identity (update_row admin_key id (λ _. new) rows) ≡ who ∷ []
identity-update_row who new [] id same h = ground arith
identity-update_row who new (a ∷ []) id same h = ground arith
identity-update_row who new (a ∷ b ∷ rows) id same h = ground arith

module _ (libraries : Libraries) (settings : AuthSettings) (who : ℕ × String) where
  pub bind-HasOnly :
      {A B : Type 0} (m : AuthExec A) (f : A → AuthExec B)
      → ((w : World) → HasOnly who w → HasOnly who (m w).1)
      → ((a : A) (w : World) → HasOnly who w → HasOnly who (f a w).1)
      → (w : World) → HasOnly who w
      → HasOnly who (continue (m w).0 f (m w).1).1
  bind-HasOnly m f keeps kept w h =
      continue-keeps (HasOnly who) (m w).0 f (m w).1 (keeps w h) (λ a _. kept a _ (keeps w h))

  authenticate_token-HasOnly :
      (cookie : Option String) (w : World)
      → HasOnly who w
      → HasOnly who (authenticate_token libraries cookie w).1
  unfolding authenticate_token authenticate_row
  authenticate_token-HasOnly cookie w h = ground arith

  require_http_auth-HasOnly :
      (request : HttpRequest) (w : World)
      → HasOnly who w
      → HasOnly who (require_http_auth libraries settings request w).1
  unfolding require_http_auth
  require_http_auth-HasOnly request w h =
      continue-keeps (HasOnly who) (authenticate_token libraries request.cookie w).0 _ _
        (authenticate_token-HasOnly request.cookie w h)
        (λ found _. authenticate_token-HasOnly request.cookie w h)

  pub auth_status-HasOnly :
      (request : HttpRequest) (w : World)
      → HasOnly who w
      → HasOnly who (auth_status libraries settings request w).1
  unfolding auth_status
  auth_status-HasOnly request w h =
      continue-keeps (HasOnly who) (authenticate_token libraries request.cookie w).0 _ _
        (authenticate_token-HasOnly request.cookie w h)
        (λ found _. authenticate_token-HasOnly request.cookie w h)

  pub current_session-HasOnly :
      (request : HttpRequest) (w : World)
      → HasOnly who w
      → HasOnly who (current_session libraries settings request w).1
  unfolding current_session
  current_session-HasOnly request w h =
      continue-keeps (HasOnly who) (require_http_auth libraries settings request w).0 _ _
        (require_http_auth-HasOnly request w h)
        (λ _ _.
          ((require_http_auth-HasOnly request w h).0, (require_http_auth-HasOnly request w h).0))

  pub logout-HasOnly :
      (request : HttpRequest) (w : World)
      → HasOnly who w
      → HasOnly who (logout libraries settings request w).1
  unfolding logout
  logout-HasOnly request w h =
      continue-keeps (HasOnly who) (require_http_auth libraries settings request w).0 _ _
        (require_http_auth-HasOnly request w h)
        (λ _ _.
          ((require_http_auth-HasOnly request w h).0, (require_http_auth-HasOnly request w h).0))

  -- a setup is refused before it changes anything
  pub setup-unchanged :
      (credentials : Credentials) (request : HttpRequest) (w : World)
      → HasOnly who w
      → (setup libraries settings credentials request w).1 ≡ w
  unfolding setup
  setup-unchanged credentials request w (h, _) = ground (arith, administrator-present who w.db h)
