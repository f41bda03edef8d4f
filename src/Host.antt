-- ===== src/Host.antt =====
-- What the backend takes from its surroundings: the settings of backend/app/config.py, the file
-- system, the reading of addresses by `ipaddress`, and the YAML text of a manifest.
use machine_deck.Base.{
  ◌==◌, nat_eq, string_eq, ℕ, String, ◌≡◌, ◌↔◌, Bool, true, false, Option, List, arith,
}
use machine_deck.Manifest.{FilePath, ApplicationManifest}

-- an address with its version and its number
pub data IpAddress : Type 0 where
  v4 : ℕ → IpAddress
  v6 : ℕ → IpAddress

abbrev pub is_v4 : IpAddress → Bool
is_v4 (v4 _) = true
is_v4 (v6 _) = false

-- `first_ip == second_ip`
abbrev pub ip_beq : IpAddress → IpAddress → Bool
ip_beq (v4 a) (v4 b) = a == b
ip_beq (v6 a) (v6 b) = a == b
ip_beq _ _ = false

pub ip_beq_iff : (a b : IpAddress) → (ip_beq a b ≡ true) ↔ (a ≡ b)
ip_beq_iff (v4 a) (v4 b) = ground arith
ip_beq_iff (v4 a) (v6 b) = ground arith
ip_beq_iff (v6 a) (v4 b) = ground arith
ip_beq_iff (v6 a) (v6 b) = ground arith

-- The part of `Settings` that the modelled code reads.
pub record Settings : Type 0 where
  pub allowed_roots : List FilePath
  pub allow_privileged_ports : Bool

-- `load_manifest` is `ApplicationManifest.model_validate(yaml.safe_load(text))`, and is `none` where
-- that raises `ValidationError`. `dump_manifest` is `yaml.safe_dump(manifest.model_dump(...))`.
pub record Host : Type 0 where
  pub settings : Settings
  pub ip_address : String → Option IpAddress
  pub resolve : String → FilePath
  pub is_dir : FilePath → Bool
  pub is_file : FilePath → Bool
  pub load_manifest : String → Option ApplicationManifest
  pub dump_manifest : ApplicationManifest → String
