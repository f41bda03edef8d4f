-- ===== src/Manifest.antt =====
-- What an application declares: the models of backend/app/schemas/applications.py, after Pydantic
-- has read them. A path is the list of its components, as `pathlib` keeps an absolute one.
pub mod Paths
use machine_deck.Base.{ℕ, Bool, true, false, String, Option, List}

abbrev pub FilePath : Type 0
FilePath = List String

pub data Protocol : Type 0 where
  http https tcp udp : Protocol

-- `port.protocol in {"http", "https"}`
abbrev pub is_web : Protocol → Bool
is_web http = true
is_web https = true
is_web _ = false

pub record PortDefinition : Type 0 where
  pub id : String
  pub name : String
  pub protocol : Protocol
  pub host_port : ℕ
  pub bind_address : String
  pub path : Option String
  pub primary : Bool
  pub open_in_browser : Bool
  pub health_path : Option String

pub data Runtime : Type 0 where
  process : FilePath → List String → Runtime
  compose : FilePath → String → Option String → Runtime

abbrev pub working_dir : Runtime → FilePath
working_dir (process dir _) = dir
working_dir (compose dir _ _) = dir

-- `manifest.runtime.type`
abbrev pub runtime_type : Runtime → String
runtime_type (process _ _) = "process"
runtime_type (compose _ _ _) = "compose"

pub record ApplicationManifest : Type 0 where
  pub id : String
  pub name : String
  pub description : String
  pub enabled : Bool
  pub runtime : Runtime
  pub environment : List (String × String)
  pub ports : List PortDefinition
  pub tags : List String
