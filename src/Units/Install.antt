-- ===== src/Units/Install.antt =====
-- `install` as a whole.
use machine_deck.Units.Targets.{
  target_path-files, target_path-unit_name_for, unit_name_for-IsVisible, read_regular-content_of,
}
use machine_deck.Host.{Host}
use machine_deck.Units.Manager.{Receipt, is_content, install_content, install}
use machine_deck.Manifest.{ApplicationManifest}
use machine_deck.Units.Rendering.{render_user_unit}
use machine_deck.Units.Installed.{receipt_of, Settled, install_content-Settled}
use machine_deck.Base.{
  nat_eq, string_eq, Outcome, ok, raised, lift, gets, continue, ◌>>=◌, ◌≡◌, refl, sym, true, not,
  Option, some,
}
use machine_deck.Text.{Text, codes, text_eq}
use machine_deck.Text.Encoding.{Bytes, encode}
use machine_deck.Units.{UnitError, unit_name_for}
use machine_deck.Units.Files.{
  ManagerError, Disk, Surroundings, unit_result, file_at, target_path, read_regular,
}
use machine_deck.Units.Contents.{content_of, Fresh, Written, Written-same}

-- What a return and an error leave: the receipt names the target of the application, which holds
-- the rendered bytes, and has what it held before.
abbrev pub Installed :
    Host → ApplicationManifest → Disk → Outcome ManagerError Receipt × Disk → Type 0
Installed host manifest before (ok receipt, disk) =
    (rendered target : Text) × (render_user_unit host manifest ≡ ok rendered)
    × (unit_name_for (codes manifest.id) ≡ ok target)
    × (receipt
        ≡ receipt_of target (content_of (file_at before.files target))
            (not (is_content (content_of (file_at before.files target)) (encode rendered))))
    × Written before.files disk.files target (some (encode rendered))
Installed host manifest before (raised e, disk) =
    (n : Text) → content_of (file_at disk.files n) ≡ content_of (file_at before.files n)

module _ (host : Host) (around : Surroundings) (manifest : ApplicationManifest)
    (before : Disk) where
  Settled-Installed :
      (rendered target : Text) (previous : Option Bytes)
      (result : Outcome ManagerError Receipt × Disk)
      → render_user_unit host manifest ≡ ok rendered
      → unit_name_for (codes manifest.id) ≡ ok target
      → content_of (file_at before.files target) ≡ previous
      → Settled before.files target previous
          (encode rendered)
          (not (is_content previous (encode rendered)))
          result
      → Installed host manifest before result
  Settled-Installed rendered target previous (ok receipt, disk) r u p (w, e) =
      (rendered, target, r, u, rw p e, w)
  Settled-Installed rendered target previous (raised e, disk) r u p w =
      Written-same before.files disk.files target (rw p w)

  read-Installed :
      (rendered target : Text) (disk : Disk) (read : Outcome ManagerError (Option Bytes))
      → Fresh around
      → render_user_unit host manifest ≡ ok rendered
      → unit_name_for (codes manifest.id) ≡ ok target
      → disk.files ≡ before.files
      → read_regular (file_at disk.files target) ≡ read
      → Installed host manifest before (
          continue read
            (λ previous.
              install_content around (codes manifest.id) target previous (encode rendered))
            disk)
  read-Installed rendered target disk (raised e) fresh r u same h = λ n. rw same refl
  read-Installed rendered target disk (ok previous) fresh r u same h =
      let held : content_of (file_at disk.files target) ≡ previous =
        read_regular-content_of (file_at disk.files target) h in
      Settled-Installed rendered target previous
        (install_content around (codes manifest.id) target previous (encode rendered) disk) r u
        (rw (sym same) held)
        (rw (sym same) (
          install_content-Settled around (codes manifest.id) target previous (encode rendered) disk
            fresh (unit_name_for-IsVisible (codes manifest.id) u) held))

  target-Installed :
      (rendered : Text) (disk : Disk) (found : Outcome ManagerError Text)
      → Fresh around
      → render_user_unit host manifest ≡ ok rendered
      → ((target : Text) → found ≡ ok target → unit_name_for (codes manifest.id) ≡ ok target)
      → disk.files ≡ before.files
      → Installed host manifest before (
          continue found
            (λ target. gets (λ d. file_at d.files target) >>= λ file.
              lift (read_regular file) >>= λ previous.
              install_content around (codes manifest.id) target previous (encode rendered))
            disk)
  target-Installed rendered disk (raised e) fresh r u same = λ n. rw same refl
  target-Installed rendered disk (ok target) fresh r u same =
      read-Installed rendered target disk (read_regular (file_at disk.files target)) fresh r
        (u target refl) same refl

  render-Installed :
      (rendering : Outcome UnitError Text)
      → Fresh around
      → render_user_unit host manifest ≡ rendering
      → Installed host manifest before (
          continue
            (unit_result rendering)
            (λ rendered. target_path around (codes manifest.id) true >>= λ target.
              gets (λ d. file_at d.files target) >>= λ file.
              lift (read_regular file) >>= λ previous.
              install_content around (codes manifest.id) target previous (encode rendered))
            before)
  render-Installed (raised e) fresh r = λ n. refl
  render-Installed (ok rendered) fresh r =
      let found = target_path around (codes manifest.id) true before in
      target-Installed rendered found.1 found.0 fresh r
        (λ target h. target_path-unit_name_for around (codes manifest.id) true before h)
        (target_path-files around (codes manifest.id) true before)

-- An installation is done as a whole or not at all. If it returns, the target named after the
-- application holds the bytes of the rendered unit, every other file has the content it had, and
-- the receipt has what the target held before. If it raises, at whatever step and also where
-- systemd fails to reload, every file has the content it had and no temporary file is left.
pub install-Installed :
    (host : Host) (around : Surroundings) (manifest : ApplicationManifest) (disk : Disk)
    → Fresh around
    → Installed host manifest disk (install host around manifest disk)
unfolding install
install-Installed host around manifest disk fresh =
    render-Installed host around manifest disk (render_user_unit host manifest) fresh refl
