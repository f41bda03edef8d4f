-- ===== src/Units/Faithful.antt =====
-- What the whole of a rendered unit says.
use machine_deck.Base.{
  length, All, All-append, ok, suc, String, ◌≡◌, refl, sym, ap, some, List, [], ◌∷◌, ◌++◌, map,
  arith,
}
use machine_deck.Base.Results.{◌>>=◌, bind-cases}
use machine_deck.Text.{Text, codes, split, join}
use machine_deck.Text.Encoding.{encode, sorted}
use machine_deck.Text.Joining.{split-join}
use machine_deck.Manifest.{process, ApplicationManifest, FilePath}
use machine_deck.Host.{Host}
use machine_deck.Units.{unit_name_for, reject_control_characters, escape_bytes, escape_path}
use machine_deck.Units.Validation.{validate_rendered_unit}
use machine_deck.Units.Rendering.{
  path_text, quote_all, environment_lines, tail_lines, unit_lines, render_process, render_user_unit,
}
use machine_deck.Units.Commands.{read_words, read_words-quote_all}
use machine_deck.Units.Directories.{
  no_escape, read_path, read_path-escape_bytes, read_environment,
  read_environment-environment_lines,
}
use machine_deck.Units.Lines.{
  IsLine, append-IsLine, unit_name_for-IsLine, escape_bytes-IsLine, join-IsLine, quote_all-IsLine,
  environment_lines-IsLine,
}

-- `sorted(manifest.environment.items())`
abbrev pub environment_items : ApplicationManifest → List (Text × Text)
environment_items manifest =
    sorted (map (λ item. (codes item.0, codes item.1)) manifest.environment)

-- The lines of the text are those of the template, and what stands on them is read as the
-- directory, the command and the environment of the manifest.
abbrev pub Describes : ApplicationManifest → FilePath → List String → Text → Type 0
Describes manifest directory command text =
    (name path line : Text) × (environment : List Text) × (split 10 text
      ≡ unit_lines name path line environment)
    × (unit_name_for (codes manifest.id) ≡ ok name)
    × (read_path no_escape path ≡ some (encode (path_text directory)))
    × (read_words (length command) line ≡ some (map codes command))
    × (map read_environment environment
        ≡ map (λ item. some (item.0 ++ b'=' ∷ item.1, [])) (environment_items manifest))

tail_lines-IsLine : All IsLine tail_lines
tail_lines-IsLine = (refl, (refl, (refl, (refl, (refl, (refl, (refl, (refl, (refl, tt)))))))))

unit_lines-IsLine :
    (name path line : Text) (environment : List Text)
    → IsLine name
    → IsLine path
    → IsLine line
    → All IsLine environment
    → All IsLine (unit_lines name path line environment)
unfolding unit_lines
unit_lines-IsLine name path line environment n p l e = (
  refl,
  (
    refl,
    (
      append-IsLine (codes "Description=MachineDeck managed application ") name refl n,
      (
        refl,
        (
          refl,
          (
            refl,
            (
              refl,
              (
                refl,
                (
                  append-IsLine (codes "WorkingDirectory=") path refl p,
                  (
                    append-IsLine (codes "ExecStart=") line refl l,
                    All-append IsLine environment tail_lines e tail_lines-IsLine,
                  ),
                ),
              ),
            ),
          ),
        ),
      ),
    ),
  ),
)

split-unit_lines :
    (name path line : Text) (environment : List Text)
    → All IsLine (unit_lines name path line environment)
    → split 10 (join 10 (unit_lines name path line environment))
      ≡ unit_lines name path line environment
unfolding unit_lines
split-unit_lines name path line environment h = split-join 10 _ _ h

length-map {ℓ κ} :
    {A : Type ℓ} {B : Type κ} (f : A → B) (xs : List A) → length (map f xs) ≡ length xs
length-map f [] = refl
length-map f (x ∷ xs) = ap suc (length-map f xs)

escape_path-Describes :
    (value : Text) {path : Text}
    → escape_path value ≡ ok path
    → IsLine path × (read_path no_escape path ≡ some (encode value))
unfolding escape_path reject_control_characters
escape_path-Describes value {path = path} h =
    let written : path ≡ escape_bytes (encode value) = ground arith in
    rw written (escape_bytes-IsLine (encode value), read_path-escape_bytes (encode value))

described :
    (manifest : ApplicationManifest) (directory : FilePath) (command : List String) (name : Text)
    (quoted : List Text) (path : Text) (environment : List Text) {text : Text}
    → unit_name_for (codes manifest.id) ≡ ok name
    → quote_all (map codes command) ≡ ok quoted
    → escape_path (path_text directory) ≡ ok path
    → environment_lines (environment_items manifest) ≡ ok environment
    → text ≡ join 10 (unit_lines name path (join b' ' quoted) environment)
    → Describes manifest directory command text
described manifest directory command name quoted path environment hn hq hp he e =
    let (path_line, path_read) = escape_path-Describes (path_text directory) hp in
    let lines =
      unit_lines-IsLine name path (join b' ' quoted) environment
        (unit_name_for-IsLine (codes manifest.id) hn) path_line
        (join-IsLine quoted (quote_all-IsLine (map codes command) hq))
        (environment_lines-IsLine (environment_items manifest) he) in
    (
      name,
      path,
      join b' ' quoted,
      environment,
      rw (e, split-unit_lines name path (join b' ' quoted) environment lines) refl,
      hn,
      path_read,
      rw (sym (length-map codes command)) (read_words-quote_all (map codes command) hq),
      read_environment-environment_lines (environment_items manifest) he,
    )

render_process-Describes :
    (manifest : ApplicationManifest) (directory : FilePath) (command : List String) {text : Text}
    → render_process manifest directory command ≡ ok text
    → Describes manifest directory command text
unfolding render_process
render_process-Describes manifest directory command {text = text} h =
    bind-cases (unit_name_for (codes manifest.id)) _ h (λ name hn h1.
      bind-cases (quote_all (map codes command)) _ h1 (λ quoted hq h2.
        bind-cases (escape_path (path_text directory)) _ h2 (λ path hp h3.
          bind-cases (environment_lines (environment_items manifest)) _ h3 (λ environment he h4.
            described manifest directory command name quoted path environment hn hq hp he
              (written name quoted path environment h4)))))
  where
    written :
        (name : Text) (quoted : List Text) (path : Text) (environment : List Text)
        → (validate_rendered_unit (join 10 (unit_lines name path (join b' ' quoted) environment))
            >>= λ _. ok (join 10 (unit_lines name path (join b' ' quoted) environment)))
          ≡ ok text
        → text ≡ join 10 (unit_lines name path (join b' ' quoted) environment)
    written name quoted path environment h4 =
        bind-cases
          (validate_rendered_unit (join 10 (unit_lines name path (join b' ' quoted) environment))) _
          h4 (λ _ _ h5. ground arith)

-- The unit that is rendered for a process has the lines of the template and no other: a newline in
-- the name, the directory, the command or the environment makes none. Its ExecStart line is read
-- back as the arguments of the command, its WorkingDirectory as the bytes of the directory, and
-- its Environment lines as the items of the environment in the order of their names.
pub render_user_unit-Describes :
    (host : Host) (manifest : ApplicationManifest) (directory : FilePath) (command : List String)
    {text : Text}
    → manifest.runtime ≡ process directory command
    → render_user_unit host manifest ≡ ok text
    → Describes manifest directory command text
unfolding render_user_unit
render_user_unit-Describes host manifest directory command {text = text} r h =
    let rendered : render_process manifest directory command ≡ ok text = ground arith in
    render_process-Describes manifest directory command rendered
