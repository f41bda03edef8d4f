-- ===== src/Units/Rendering.antt =====
-- `render_user_unit` of backend/app/systemd/user_units.py.
use machine_deck.Base.{
  if◌then◌else◌, Outcome, ok, raised, String, true, false, not, List, [], ◌∷◌, ◌++◌, map,
}
use machine_deck.Base.Results.{◌>>=◌}
use machine_deck.Text.{Text, codes, join}
use machine_deck.Text.Encoding.{sorted}
use machine_deck.Manifest.{process, compose, ApplicationManifest, FilePath}
use machine_deck.Manifest.Paths.{validate_manifest_paths}
use machine_deck.Host.{Host}
use machine_deck.Units.{
  UnitError, not_process, invalid_paths, unit_name_for, reject_control_characters, quote,
  escape_path,
}
use machine_deck.Units.Validation.{validate_rendered_unit}

-- `str(path)` of an absolute path
unfoldable pub path_text : FilePath → Text
path_text [] = codes "/"
path_text (name ∷ []) = b'/' ∷ codes name
path_text (name ∷ next ∷ path) = b'/' ∷ (codes name ++ path_text (next ∷ path))

-- the arguments of the command, each quoted
unfoldable pub quote_all : List Text → Outcome UnitError (List Text)
unfolding quote
quote_all [] = ok []
quote_all (argument ∷ arguments) = do
  quoted ← quote true argument
  rest ← quote_all arguments
  ok (quoted ∷ rest)

-- the lines of the loop over the environment
unfoldable pub environment_lines : List (Text × Text) → Outcome UnitError (List Text)
unfolding quote reject_control_characters
environment_lines [] = ok []
environment_lines ((name, value) ∷ items) = do
  _ ← reject_control_characters value (codes "environment variable " ++ name)
  quoted ← quote false (name ++ b'=' ∷ value)
  rest ← environment_lines items
  ok ((codes "Environment=" ++ quoted) ∷ rest)

abbrev pub tail_lines : List Text
tail_lines = map codes (
    "KillMode=control-group" ∷ "TimeoutStartSec=120" ∷ "TimeoutStopSec=30" ∷ "Restart=no"
    ∷ "NoNewPrivileges=true" ∷ "" ∷ "[Install]" ∷ "WantedBy=default.target" ∷ "" ∷ [])

-- the list `lines`, with what the manifest gives to it
unfoldable pub unit_lines : Text → Text → Text → List Text → List Text
unit_lines unit_name directory command environment =
    codes "# Generated by MachineDeck. Manual changes will be detected and replaced."
    ∷ codes "[Unit]"
    ∷ (codes "Description=MachineDeck managed application " ++ unit_name)
    ∷ codes "After=network-online.target"
    ∷ codes "Wants=network-online.target"
    ∷ []
    ∷ codes "[Service]"
    ∷ codes "Type=simple"
    ∷ (codes "WorkingDirectory=" ++ directory)
    ∷ (codes "ExecStart=" ++ command)
    ∷ (environment ++ tail_lines)

unfoldable pub render_process :
    ApplicationManifest → FilePath → List String → Outcome UnitError Text
unfolding unit_name_for quote_all path_text escape_path environment_lines unit_lines join sorted
    validate_rendered_unit
render_process manifest directory command = do
  unit_name ← unit_name_for (codes manifest.id)
  arguments ← quote_all (map codes command)
  working_directory ← escape_path (path_text directory)
  environment ←
      environment_lines (sorted (map (λ item. (codes item.0, codes item.1)) manifest.environment))
  let rendered = join 10 (unit_lines unit_name working_directory (join b' ' arguments) environment)
  _ ← validate_rendered_unit rendered
  ok rendered

unfoldable pub render_user_unit : Host → ApplicationManifest → Outcome UnitError Text
unfolding render_process validate_manifest_paths
render_user_unit host manifest = elim manifest.runtime [
  | compose _ _ _ ↦ raised not_process
  | process directory command ↦
      let validation = validate_manifest_paths host manifest in
      if not validation.valid
      then raised (invalid_paths validation.errors)
      else render_process manifest directory command
]
