-- ===== src/Manifest/Paths.antt =====
-- `validate_manifest_paths` of backend/app/schemas/applications.py. An issue's message is a fixed
-- text for each code and is left out.
use machine_deck.Base.{
  ltb, if◌then◌else◌, ◌==◌, nat_eq, string_eq, any, ℕ, ◌+◌, String, Bool, true, false, not, ◌&&◌,
  List, [], ◌∷◌, ◌++◌,
}
use machine_deck.Manifest.{
  Runtime, process, compose, PortDefinition, ApplicationManifest, FilePath, working_dir,
}
use machine_deck.Host.{Host}

pub data IssueCode : Type 0 where
  privileged_port_not_allowed path_not_allowed working_dir_not_found executable_not_found
        file_not_found secrets_not_classified :
      IssueCode

-- `ports[{index}].host_port` and the other fields that an issue names
pub data IssueField : Type 0 where
  port_host_port : ℕ → IssueField
  runtime_working_dir runtime_command runtime_compose_file environment_field : IssueField

pub record ValidationIssue : Type 0 where
  pub field_name : IssueField
  pub code : IssueCode

pub record ValidationResponse : Type 0 where
  pub valid : Bool
  pub errors : List ValidationIssue
  pub warnings : List ValidationIssue

-- `path.is_relative_to(root)`: the components of the root are the first ones of the path, so that
-- a path is relative to itself.
unfoldable pub is_relative_to : FilePath → FilePath → Bool
is_relative_to path [] = true
is_relative_to [] (r ∷ root) = false
is_relative_to (p ∷ path) (r ∷ root) = p == r && is_relative_to path root

-- `any(path == root or path.is_relative_to(root) for root in allowed_roots)`
unfoldable pub within_roots : List FilePath → FilePath → Bool
unfolding is_relative_to
within_roots roots path = any (λ root. is_relative_to path root) roots

-- the loop over `enumerate(manifest.ports)`
unfoldable pub privileged_issues : ℕ → List PortDefinition → List ValidationIssue
privileged_issues index [] = []
privileged_issues index (port ∷ ports) =
    let rest = privileged_issues (index + 1) ports in
    if ltb port.host_port 1024
    then record { field_name = port_host_port index; code = privileged_port_not_allowed } ∷ rest
    else rest

unfoldable pub working_dir_issues : Host → FilePath → List ValidationIssue
working_dir_issues host dir =
    if not (within_roots host.settings.allowed_roots dir)
    then record { field_name = runtime_working_dir; code = path_not_allowed } ∷ []
    else if not (host.is_dir dir)
    then record { field_name = runtime_working_dir; code = working_dir_not_found } ∷ []
    else []

-- The executable is the first argument; the schema has refused an empty command.
unfoldable pub runtime_issues : Host → Runtime → List ValidationIssue
runtime_issues host (process dir []) = []
runtime_issues host (process dir (executable ∷ _)) =
    let path = host.resolve executable in
    if not (within_roots host.settings.allowed_roots path)
    then record { field_name = runtime_command; code = path_not_allowed } ∷ []
    else if not (host.is_file path)
    then record { field_name = runtime_command; code = executable_not_found } ∷ []
    else []
runtime_issues host (compose dir file _) =
    if not (host.is_file (dir ++ file ∷ []))
    then record { field_name = runtime_compose_file; code = file_not_found } ∷ []
    else []

abbrev environment_warnings : List (String × String) → List ValidationIssue
environment_warnings [] = []
environment_warnings (_ ∷ _) =
    record { field_name = environment_field; code = secrets_not_classified } ∷ []

abbrev pub is_empty {ℓ} : {A : Type ℓ} → List A → Bool
is_empty [] = true
is_empty (_ ∷ _) = false

unfoldable pub validate_manifest_paths : Host → ApplicationManifest → ValidationResponse
unfolding privileged_issues working_dir_issues runtime_issues
validate_manifest_paths host manifest =
    let port_errors : List ValidationIssue =
      if host.settings.allow_privileged_ports then [] else privileged_issues 0 manifest.ports in
    let errors : List ValidationIssue =
      port_errors
      ++ (working_dir_issues host (working_dir manifest.runtime)
          ++ runtime_issues host manifest.runtime) in
    record {
      valid = is_empty errors;
      errors = errors;
      warnings = environment_warnings manifest.environment;
    }
