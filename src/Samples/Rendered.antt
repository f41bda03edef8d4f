-- ===== src/Samples/Rendered.antt =====
-- The theorems on the text of a unit, for a manifest with characters that are escaped.
use machine_deck.Base.{Outcome, ok, raised, ◌≡◌, refl, ◌↔◌, some, [], ◌∷◌}
use machine_deck.Text.{Text, codes}
use machine_deck.Text.Encoding.{splitlines}
use machine_deck.Manifest.{process, ApplicationManifest}
use machine_deck.Manifest.Paths.{within_roots}
use machine_deck.Units.{UnitError}
use machine_deck.Units.Validation.{validate_rendered_unit}
use machine_deck.Units.Rendering.{render_user_unit}
use machine_deck.Units.Accepted.{Accepted, validate_rendered_unit-iff-Accepted}
use machine_deck.Units.Faithful.{Describes, render_user_unit-Describes}
use machine_deck.Units.Files.{regular, read_regular}
use machine_deck.Units.Reading.{read_or_too_large, read_regular-total}
use machine_deck.Samples.{demo_manifest, demo_host}

abbrev pub quoted_manifest : ApplicationManifest
quoted_manifest = record demo_manifest {
  runtime =
      process ("srv" ∷ "demo app" ∷ []) ("/srv/demo/run" ∷ "say \"hi\" 100% $HOME" ∷ "--flag" ∷ []);
  environment = ("MODE", "a b") ∷ ("LEVEL", "50%") ∷ [];
}

abbrev text_of : Outcome UnitError Text → Text
text_of (ok text) = text
text_of (raised _) = []

abbrev pub quoted_text : Text
quoted_text = text_of (render_user_unit demo_host quoted_manifest)

quoted_run : render_user_unit demo_host quoted_manifest ≡ ok quoted_text
unfolding render_user_unit within_roots splitlines
quoted_run = refl

render_user_unit-Describes_example :
    Describes quoted_manifest
      ("srv" ∷ "demo app" ∷ [])
      ("/srv/demo/run" ∷ "say \"hi\" 100% $HOME" ∷ "--flag" ∷ [])
      quoted_text
render_user_unit-Describes_example =
    render_user_unit-Describes demo_host quoted_manifest ("srv" ∷ "demo app" ∷ [])
      ("/srv/demo/run" ∷ "say \"hi\" 100% $HOME" ∷ "--flag" ∷ []) refl quoted_run

validate_rendered_unit-iff-Accepted_example :
    (validate_rendered_unit (codes "[Unit]\n") ≡ ok tt) ↔ Accepted (codes "[Unit]\n")
validate_rendered_unit-iff-Accepted_example = validate_rendered_unit-iff-Accepted (codes "[Unit]\n")

read_regular-total_example :
    read_regular (some (record { kind = regular; uid = 1000; mode = 420 }, codes "unit"))
    ≡ read_or_too_large 4 (codes "unit")
read_regular-total_example =
    read_regular-total (record { kind = regular; uid = 1000; mode = 420 }) (codes "unit") refl
