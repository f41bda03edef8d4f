-- ===== src/Samples/Installations.antt =====
-- The theorems on the installation of a unit, in a directory with another file.
use machine_deck.Manifest.Paths.{within_roots}
use machine_deck.Base.{
  length, length-append, ok, ℕ, zero, suc, ◌+◌, ◌<◌, ◌≡◌, refl, ap, Bool, true, false, not, none,
  some, List, [], ◌∷◌, ◌++◌, arith,
}
use machine_deck.Text.{Text, codes, text_beq, text_beq_iff}
use machine_deck.Text.Encoding.{splitlines}
use machine_deck.Units.Files.{
  directory, regular, Disk, Surroundings, Files, file_at, temporary_name,
}
use machine_deck.Units.Manager.{Receipt, rollback_unit, install}
use machine_deck.Units.Contents.{Fresh}
use machine_deck.Units.Install.{Installed, install-Installed}
use machine_deck.Units.Undone.{SameContents, rollback_unit-install}
use machine_deck.Samples.{demo_host}
use machine_deck.Samples.Rendered.{quoted_manifest}

abbrev zeros : ℕ → Text
zeros zero = []
zeros (suc n) = 0 ∷ zeros n

abbrev names_length : Files → ℕ
names_length [] = 0
names_length ((n, _) ∷ files) = length n + names_length files

-- a manager that makes its names longer than those of all files
abbrev pub sample_surroundings : (List Text → Bool) → Surroundings
sample_surroundings succeeds = record {
  euid = 1000;
  directory_path = codes "/home/deck/.config/systemd/user";
  link_leads_to = none;
  unique_part = λ _ _ files. zeros (names_length files + 1);
  runner = λ command _. record { succeeded = succeeds command; message = [] };
}

length-zeros : (n : ℕ) → length (zeros n) ≡ n
length-zeros zero = refl
length-zeros (suc n) = ap suc (length-zeros n)

file_at-longer :
    (files : Files) (name : Text) → names_length files < length name → file_at files name ≡ none
unfolding file_at
file_at-longer [] name h = refl
file_at-longer ((n, file) ∷ files) name h =
    ground (arith, file_at-longer files name, text_beq_iff name n)

pub sample-Fresh : (succeeds : List Text → Bool) → Fresh (sample_surroundings succeeds)
unfolding temporary_name
sample-Fresh succeeds prefix suffix files =
    let middle : Text = zeros (names_length files + 1) in
    file_at-longer files (prefix ++ (middle ++ suffix)) (
      omega (
        arith,
        length-append prefix (middle ++ suffix),
        length-append middle suffix,
        length-zeros (names_length files + 1),
      ))

-- every command succeeds, or `daemon-reload` fails
abbrev pub all_succeed : List Text → Bool
all_succeed _ = true

abbrev reload_fails : List Text → Bool
reload_fails [] = true
reload_fails (program ∷ _) = not (text_beq program (codes "systemctl"))

abbrev pub sample_disk : Disk
sample_disk = record {
  unit_dir = some (record { kind = directory; uid = 1000; mode = 493 });
  files =
      (
        codes "machinedeck-demo.service",
        (record { kind = regular; uid = 1000; mode = 420 }, codes "old\n"),
      )
      ∷ [];
  runs = [];
}

install-Installed_example :
    Installed demo_host quoted_manifest sample_disk
      (install demo_host (sample_surroundings reload_fails) quoted_manifest sample_disk)
install-Installed_example =
    install-Installed demo_host (sample_surroundings reload_fails) quoted_manifest sample_disk
      (sample-Fresh reload_fails)

abbrev sample_receipt : Receipt
sample_receipt = record {
  target = codes "machinedeck-demo.service";
  previous_content = some (codes "old\n");
  changed = true;
  rolled_back = false;
}

installed_run :
    (install demo_host (sample_surroundings all_succeed) quoted_manifest sample_disk).0
    ≡ ok sample_receipt
unfolding install within_roots splitlines
installed_run = refl

rollback_unit-install_example :
    SameContents sample_disk.files
      (rollback_unit
        (sample_surroundings all_succeed)
        sample_receipt
        (install demo_host (sample_surroundings all_succeed) quoted_manifest sample_disk).1).1.files
rollback_unit-install_example =
    rollback_unit-install demo_host (sample_surroundings all_succeed) quoted_manifest sample_disk
      (sample-Fresh all_succeed) installed_run
