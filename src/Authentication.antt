-- ===== src/Authentication.antt =====
-- Sessions of the administrator: backend/app/security/auth.py without the network context, which is
-- in Network.antt. This file has what the code takes from libraries and settings, the origins, and
-- the administrator; the children have the sessions, the login, the endpoints and the proofs.
pub mod Sessions
pub mod Login
pub mod Requests
pub mod Access
pub mod Verified
pub mod Opening
pub mod Limits
pub mod Only
pub mod Permanence
use machine_deck.Base.{
  Equality, ltb, leb, if◌then◌else◌, ltb→lt, leb→le, Bool-cases, Option-cases, ◌==◌, nat_beq_iff,
  nat_eq, string_eq, option_beq, option_beq_iff, is_none, is_some, or_else, length, take, drop, any,
  all, filter, find?, All, length-append, length-take, length-drop, take-append-drop, All-append,
  All-filter, length-filter, find?-some, contains, Outcome, ok, raised, is_ok, Exec, pure, raise,
  lift, gets, modify, raise_if, continue, ◌>>=◌, ◌>>◌, handle_errors, continue-keeps,
  continue-raised, continue-eq-ok, Returns, continue-Returns, ℕ, zero, suc, ◌+◌, ◌-◌, ◌*◌, ◌/◌, ◌%◌,
  ◌^◌, ◌≤◌, ◌<◌, min, String, ◌≡◌, refl, sym, ap, ◌∙◌, ◌≢◌, ◌↔◌, ◌⊎◌, inl, inr, Bool, true, false,
  not, ◌&&◌, ◌||◌, Option, none, some, List, [], ◌∷◌, ◌++◌, map, arith, eq_iff, eq_refl,
}
use machine_deck.Json.{
  Value, json_null, boolean, number, string, sequence, mapping, Items, no_items, one_item, Fields,
  no_fields, field, get, put, merge, optional_str, items, get-put,
}
use machine_deck.Text.{
  Text, codes, text_beq, text_beq_iff, text_eq, is_space, is_digit, lower_char, lower, lstrip,
  rstrip, strip_by, strip, strip_quotes, partition, rpartition, split_parts, split, join_rest, join,
  starts_with, all_digits, join-split,
}
use machine_deck.Host.{IpAddress, v4, v6, Settings, Host, is_v4, ip_beq, ip_beq_iff}
use machine_deck.Network.{
  Addresses, IpNetwork, NetworkSettings, Request, RequestNetworkContext, Chain, in_network,
  in_networks, port_suffix, bracketed, with_port, unbracketed, literal, address, forbidden_in_host,
  valid_forwarded_host, Parameters, parameter, add_parameter, parse_parameters, parse_element,
  traverse, chain_length_valid, protocol_valid, forwarded_proto, forwarded_host, chain_of,
  forwarded_chain, x_proto, x_host, x_forwarded_chain, first_untrusted, client_of, has_x_headers,
  selected_chain, forwarded_context, has_forwarding, peer_context, request_network_context,
  client_is_trusted_network,
}
use machine_deck.Database.{
  ApplicationRecord, AuditEventRecord, ApplicationInstanceRecord, ExecutionRecord,
  AdministratorRecord, AuthSessionRecord, LoginFailureRecord, Database,
}
use machine_deck.Database.Rows.{
  get_row, update_row, delete_row, get_row-update_row, get_row-append, get_row-delete_row, newer,
  newest_from, latest_instance,
}
use machine_deck.World.{
  Call, start_call, stop_call, restart_call, status_call, logs_call, World, utc_now, uuid4, commit,
  change, call_made, rollback, with_applications, with_instances, with_executions,
  with_audit_events, add_audit_event,
}

-- `urlsplit(origin)`, read to its port
pub record SplitUrl : Type 0 where
  pub scheme : Text
  pub hostname : Option Text
  pub username : Option Text
  pub password : Option Text
  pub path : Text
  pub query : Text
  pub fragment : Text

-- What the code calls of hashlib, secrets, argon2, ipaddress and urllib. `hash n` and `token n` use
-- the random value number n. `verify` is false too where argon2 raises one of the three exceptions
-- that the code handles, and `urlsplit` is `none` where it raises `ValueError`.
pub record Libraries : Type 0 where
  pub addresses : Addresses
  pub ip_is_loopback : IpAddress → Bool
  pub urlsplit : Text → Option SplitUrl
  pub digest : Text → String
  pub token : ℕ → String
  pub hash : ℕ → String → String
  pub verify : String → String → Bool
  pub needs_rehash : String → Bool
  pub dummy_hash : String
  pub id_text : ℕ → String

pub record AuthSettings : Type 0 where
  pub network : NetworkSettings
  pub trusted_origins : List Text
  pub auth_session_hours : ℕ
  pub login_max_failures : ℕ
  pub login_window_minutes : ℕ

pub data HttpError : Type 0 where
  origin_not_allowed setup_complete local_setup_required authentication_required csrf_invalid
        login_rate_limited login_failed forwarded_headers_invalid :
      HttpError

abbrev pub AuthExec : Type 0 → Type 0
AuthExec A = Exec World HttpError A

abbrev pub hours : ℕ → ℕ
hours n = n * 3600000000

abbrev pub minutes : ℕ → ℕ
minutes n = n * 60000000

abbrev pub admin_key : AdministratorRecord → ℕ
admin_key row = row.id

abbrev pub session_key : AuthSessionRecord → ℕ
session_key row = row.id

abbrev pub with_administrators : List AdministratorRecord → Database → Database
with_administrators rows db = record db { administrators = rows }

abbrev pub with_auth_sessions : List AuthSessionRecord → Database → Database
with_auth_sessions rows db = record db { auth_sessions = rows }

abbrev pub with_login_failures : List LoginFailureRecord → Database → Database
with_login_failures rows db = record db { login_failures = rows }

-- a random value, of which the number is returned
abbrev pub draw : AuthExec ℕ
draw = uuid4

module _ (libraries : Libraries) where
  unfoldable pub is_loopback : Text → Bool
  is_loopback [] = false
  is_loopback (c ∷ host) = elim (libraries.addresses.ip_address (c ∷ host)) [
    | some ip ↦ libraries.ip_is_loopback ip
    | none ↦ text_beq (lower (c ∷ host)) (codes "localhost")
  ]

  unfoldable pub is_local_url : SplitUrl → Bool
  unfolding is_loopback
  is_local_url parsed =
      (text_beq parsed.scheme (codes "http") || text_beq parsed.scheme (codes "https"))
      && (is_loopback (or_else parsed.hostname [])
          && (is_none parsed.username
              && (is_none parsed.password
                  && ((text_beq parsed.path [] || text_beq parsed.path (codes "/"))
                      && (text_beq parsed.query [] && text_beq parsed.fragment [])))))

  unfoldable pub origin_is_local : Option Text → Bool
  unfolding is_local_url
  origin_is_local none = false
  origin_is_local (some origin) = elim (libraries.urlsplit origin) [
    | none ↦ false
    | some parsed ↦ is_local_url parsed
  ]

  unfoldable pub remote_digest : Text → String
  remote_digest [] = libraries.digest (codes "unknown")
  remote_digest (c ∷ host) = libraries.digest (c ∷ host)

-- `origin.rstrip("/")` in the trusted origins
unfoldable pub origin_is_trusted : AuthSettings → Option Text → Bool
origin_is_trusted settings none = false
origin_is_trusted settings (some origin) =
    any (text_beq (rstrip (λ c. c == 47) origin)) settings.trusted_origins

-- `require_trusted_origin`, with `allow_missing`
unfoldable pub require_trusted_origin : AuthSettings → Option Text → Outcome HttpError Unit
unfolding origin_is_trusted
require_trusted_origin settings none = ok tt
require_trusted_origin settings (some origin) =
    if origin_is_trusted settings (some origin) then ok tt else raised origin_not_allowed

unfoldable pub administrator : Database → Option AdministratorRecord
administrator db = elim db.administrators [ [] ↦ none | a ∷ _ ↦ some a ]

unfoldable pub audit_auth : String → String → String → String → Fields → AuthExec Unit
unfolding add_audit_event
audit_auth actor action result target_id details =
    add_audit_event actor action "authentication" target_id result details

-- `session.commit()` of a new administrator: the singleton key collides with one that another
-- session has committed.
unfoldable pub commit_administrator : AuthExec Unit
commit_administrator w = elim w.saved.administrators [
  | [] ↦ commit w
  | _ ∷ _ ↦ (raised setup_complete, rollback w)
]

unfoldable pub create_administrator : Libraries → String → String → AuthExec AdministratorRecord
unfolding administrator commit_administrator audit_auth
create_administrator libraries username password = do
  present ← gets (λ w. is_some (administrator w.db))
  raise_if present setup_complete
  id ← uuid4
  salt ← draw
  let admin : AdministratorRecord = record {
    id = id;
    username = username;
    password_hash = libraries.hash salt password;
  }
  change (λ db. with_administrators (db.administrators ++ admin ∷ []) db)
  audit_auth username "auth.setup" "success" (libraries.id_text id) no_fields
  commit_administrator
  pure admin
