-- ===== src/Configuration.antt =====
-- The settings of the server from the environment and the configuration file:
-- backend/app/config.py, without the paths. What TOML, ipaddress and urllib read is a parameter.
pub mod Server
pub mod Lists
pub mod Loading
pub mod Trusted
pub mod Sound
use machine_deck.Base.{
  Equality, ltb, leb, if◌then◌else◌, ltb→lt, leb→le, Bool-cases, Option-cases, nat_beq_iff, nat_eq,
  string_eq, ◌==◌, option_beq, option_beq_iff, is_none, is_some, or_else, length, take, drop, any,
  all, filter, find?, All, length-append, length-take, length-drop, take-append-drop, All-append,
  drop-append, drop-nil, drop-drop, All-filter, length-filter, find?-some, contains, Outcome, ok,
  raised, is_ok, Exec, pure, raise, lift, gets, modify, raise_if, continue, ◌>>=◌, ◌>>◌,
  handle_errors, continue-keeps, continue-raised, continue-eq-ok, Returns, continue-Returns, Ends,
  continue-Ends, ℕ, zero, suc, ◌+◌, ◌-◌, ◌*◌, ◌/◌, ◌%◌, ◌^◌, ◌≤◌, ◌<◌, min, String, ◌≡◌, refl, sym,
  ap, ◌∙◌, ◌≢◌, ◌↔◌, ◌⊎◌, inl, inr, Bool, true, false, not, ◌&&◌, ◌||◌, Option, none, some, List,
  [], ◌∷◌, ◌++◌, map, arith, eq_iff, eq_refl,
}
use machine_deck.Text.{
  Text, codes, text_beq, text_beq_iff, text_eq, is_space, is_digit, lower_char, lower, lstrip,
  rstrip, strip_by, strip, strip_quotes, partition, rpartition, split_parts, split, join_rest, join,
  starts_with, all_digits, join-split,
}
use machine_deck.Host.{IpAddress}
use machine_deck.Logs.Query.{Integer, positive, negative, int_of}

-- A value of TOML that is no list: a text, a Boolean, or another with its `str` and what `int`
-- makes of it.
pub data Scalar : Type 0 where
  text : Text → Scalar
  flag : Bool → Scalar
  other : Text → Option Integer → Scalar

-- A value or a list, with its `str`.
pub data Entry : Type 0 where
  one : Scalar → Entry
  array : Text → List Scalar → Entry

pub record ConfiguredNetwork : Type 0 where
  pub name : Text
  pub num_addresses : ℕ

-- `urlsplit(origin)` with its port read
pub record UrlParts : Type 0 where
  pub scheme : Text
  pub hostname : Option Text
  pub username : Option Text
  pub password : Option Text
  pub path : Text
  pub query : Text
  pub fragment : Text

-- `os.getenv`, the tables of `CONFIG` with whether there are any, and the libraries.
pub record ConfigSource : Type 0 where
  pub environment : String → Option Text
  pub entry : String → String → Option Entry
  pub is_configured : Bool
  pub has_security : Bool
  pub ip_address : Text → Option IpAddress
  pub loopback : IpAddress → Bool
  pub unspecified : IpAddress → Bool
  pub ip_network : Text → Option ConfiguredNetwork
  pub urlsplit : Text → Option UrlParts

pub data AccessMode : Type 0 where
  local lan proxy : AccessMode

pub data CookiePolicy : Type 0 where
  auto secure insecure : CookiePolicy

-- the RuntimeErrors
pub data ConfigError : Type 0 where
  mode_unknown host_not_address host_not_loopback host_not_unspecified port_not_integer
        port_out_of_range cookie_policy_unknown origin_invalid origin_not_exact network_invalid
        network_too_large :
      ConfigError

-- `str(value)` and `int(value)`
abbrev pub scalar_text : Scalar → Text
scalar_text (text t) = t
scalar_text (flag true) = codes "True"
scalar_text (flag false) = codes "False"
scalar_text (other shown _) = shown

abbrev pub entry_text : Entry → Text
entry_text (one value) = scalar_text value
entry_text (array shown _) = shown

unfoldable pub entry_int : Entry → Option Integer
unfolding int_of
entry_int (one (text t)) = int_of t
entry_int (one (flag true)) = some (positive 1)
entry_int (one (flag false)) = some (positive 0)
entry_int (one (other _ n)) = n
entry_int (array _ _) = none

-- `_value`
abbrev pub value : ConfigSource → String → String → Entry → Entry
value source section name default = or_else (source.entry section name) default

-- `os.getenv(name, default)`
abbrev pub getenv : ConfigSource → String → Entry → Entry
getenv source name default = elim (source.environment name) [
  | some found ↦ one (text found)
  | none ↦ default
]

abbrev pub is_one_of : Text → List String → Bool
is_one_of found names = any (λ name. text_beq found (codes name)) names
