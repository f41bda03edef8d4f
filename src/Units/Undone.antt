-- ===== src/Units/Undone.antt =====
-- `rollback` after `install`.
use machine_deck.Units.Targets.{unit_name_for-IsVisible}
use machine_deck.Units.Install.{Installed, install-Installed}
use machine_deck.Host.{Host}
use machine_deck.Units.Manager.{Receipt, rollback_unit, is_content, install}
use machine_deck.Manifest.{ApplicationManifest}
use machine_deck.Units.Installed.{receipt_of, rolled-Written, is_content-some}
use mathlib.Core.Path.{subst}
use machine_deck.Base.{nat_eq, string_eq, Outcome, ok, ◌≡◌, refl, Bool, true, false, not, some}
use machine_deck.Text.{Text, codes, text_eq}
use machine_deck.Text.Encoding.{Bytes, encode}
use machine_deck.Units.Files.{ManagerError, Disk, Surroundings, Files, file_at}
use machine_deck.Units.Contents.{content_of, Fresh, Written, IsVisible, Written-trans, Written-same}

-- the directory and the commands as they are, with other files
abbrev pub SameContents : Files → Files → Type 0
SameContents files files' =
    (n : Text) → content_of (file_at files' n) ≡ content_of (file_at files n)

pub undone-SameContents :
    (around : Surroundings) (before after : Disk) (target : Text) (content : Bytes) (b : Bool)
    → Fresh around
    → IsVisible target
    → is_content (content_of (file_at before.files target)) content ≡ b
    → Written before.files after.files target (some content)
    → SameContents before.files
        (rollback_unit around
          (receipt_of target (content_of (file_at before.files target)) (not b))
          after).1.files
unfolding rollback_unit
undone-SameContents around before after target content false fresh visible h w =
    let undone =
      (rollback_unit around (receipt_of target (content_of (file_at before.files target)) true)
        after).1 in
    Written-same before.files undone.files target (
      Written-trans before.files after.files undone.files target (some content)
        (content_of (file_at before.files target)) w
        (rolled-Written around target (content_of (file_at before.files target)) after fresh
          visible))
undone-SameContents around before after target content true fresh visible h w =
    Written-same before.files after.files target
      (rw (is_content-some (content_of (file_at before.files target)) content h) w)

returned-Installed :
    (host : Host) (manifest : ApplicationManifest) (before : Disk)
    (result : Outcome ManagerError Receipt × Disk) {receipt : Receipt}
    → result.0 ≡ ok receipt
    → Installed host manifest before result
    → Installed host manifest before (ok receipt, result.1)
returned-Installed host manifest before (r, disk) h i =
    subst (λ o. Installed host manifest before (o, disk)) h i

-- Rolling an installation back gives every file the content that it had before the installation,
-- whether the installation changed the target or found it up to date.
pub rollback_unit-install :
    (host : Host) (around : Surroundings) (manifest : ApplicationManifest) (disk : Disk)
    {receipt : Receipt}
    → Fresh around
    → (install host around manifest disk).0 ≡ ok receipt
    → SameContents disk.files
        (rollback_unit around receipt (install host around manifest disk).1).1.files
rollback_unit-install host around manifest disk {receipt = receipt} fresh h =
    let (rendered, target, r, u, e, w) =
      returned-Installed host manifest disk (install host around manifest disk) h
        (install-Installed host around manifest disk fresh) in
    rw e (
      undone-SameContents around disk (install host around manifest disk).1 target (encode rendered)
        _ fresh (unit_name_for-IsVisible (codes manifest.id) u) refl w)
