-- ===== src/Units/Installed.antt =====
-- What `install` and `rollback` leave in the directory.

use machine_deck.Base.{
  if◌then◌else◌, nat_eq, string_eq, Outcome, ok, raised, pure, continue, ◌>>=◌, ◌>>◌,
  continue-keeps, ◌≡◌, refl, sym, ◌∙◌, Bool, true, false, not, Option, none, some, arith,
}
use machine_deck.Text.{Text, text_beq_iff, text_eq}
use machine_deck.Text.Encoding.{Bytes}
use machine_deck.Units.{UnitError, verification_failed}
use machine_deck.Units.Files.{ManagerError, Disk, Surroundings, Files, unit_failure, file_at}
use machine_deck.Units.Manager.{
  Receipt, run, daemon_reload, or_message, restore, rollback_unit, verify_staged, activate, stem_of,
  is_content, install_content,
}
use machine_deck.Units.Contents.{
  content_of, Fresh, Written, IsVisible, atomic_replace-Written, restore-Written,
  verify_staged-files, Written-trans,
}

abbrev pub receipt_of : Text → Option Bytes → Bool → Receipt
receipt_of target previous changed = record {
  target = target;
  previous_content = previous;
  changed = changed;
  rolled_back = false;
}

-- After a return the target has the new content, and after an error the previous one.
abbrev pub Settled :
    Files → Text → Option Bytes → Bytes → Bool → Outcome ManagerError Receipt × Disk → Type 0
Settled files target previous content changed (ok receipt, disk) =
    Written files disk.files target (some content) × (receipt ≡ receipt_of target previous changed)
Settled files target previous content changed (raised e, disk) =
    Written files disk.files target previous

pub rolled-Written :
    (around : Surroundings) (target : Text) (previous : Option Bytes) (disk : Disk)
    → Fresh around
    → IsVisible target
    → Written disk.files
        (rollback_unit around (receipt_of target previous true) disk).1.files
        target
        previous
unfolding rollback_unit run
rolled-Written around target previous disk fresh visible =
    let (returns, written) = restore-Written around target previous disk fresh visible in
    continue-keeps (λ d. Written disk.files d.files target previous)
      (restore around target previous disk).0 _ (restore around target previous disk).1 written
      (λ _ _. written)

failed-Settled :
    (files : Files) (target : Text) (previous : Option Bytes) (content : Bytes)
    (r : Outcome ManagerError Receipt) (e : UnitError) (disk : Disk)
    → Written files disk.files target previous
    → Settled files target previous content true (continue r (λ _. unit_failure e) disk)
failed-Settled files target previous content (ok receipt) e disk h = h
failed-Settled files target previous content (raised f) e disk h = h

-- the reloading, once the target has been replaced
reloaded-Settled :
    (around : Surroundings) (files : Files) (target : Text) (previous : Option Bytes)
    (content : Bytes) (succeeded : Bool) (e : UnitError) (disk : Disk)
    → Fresh around
    → IsVisible target
    → Written files disk.files target (some content)
    → Settled files target previous content true (
        (if succeeded
            then pure (receipt_of target previous true)
            else rollback_unit around (receipt_of target previous true) >> unit_failure e)
          disk)
reloaded-Settled around files target previous content true e disk fresh visible h = (h, refl)
reloaded-Settled around files target previous content false e disk fresh visible h =
    let after = (rollback_unit around (receipt_of target previous true) disk).1 in
    failed-Settled files target previous content
      (rollback_unit around (receipt_of target previous true) disk).0 e after
      (Written-trans files disk.files after.files target (some content) previous h
        (rolled-Written around target previous disk fresh visible))

activate-Settled :
    (around : Surroundings) (target : Text) (previous : Option Bytes) (content : Bytes)
    (disk : Disk)
    → Fresh around
    → IsVisible target
    → Settled disk.files target previous content true (activate around target previous content disk)
unfolding activate run
activate-Settled around target previous content disk fresh visible =
    let (returns, written) = atomic_replace-Written around target content disk fresh visible in
    reloaded-Settled around disk.files target previous content
      (around.runner daemon_reload disk.runs).succeeded _ _ fresh visible written

-- Files that were not changed hold the content that the target has.
pub unchanged-Written :
    (files : Files) (target : Text) (content : Option Bytes)
    → content_of (file_at files target) ≡ content
    → Written files files target content
unchanged-Written files target content h n = ground (arith, text_beq_iff n target)

Settled-same :
    (files files' : Files) (target : Text) (previous : Option Bytes) (content : Bytes)
    (changed : Bool) (result : Outcome ManagerError Receipt × Disk)
    → ((n : Text) → file_at files' n ≡ file_at files n)
    → Settled files' target previous content changed result
    → Settled files target previous content changed result
Settled-same files files' target previous content changed (ok receipt, disk) e (h, t) =
    ((λ n. rw (sym (e n)) (h n)), t)
Settled-same files files' target previous content changed (raised f, disk) e h =
    λ n. rw (sym (e n)) (h n)

-- the rest of the installation, once the staged file has been checked
verified-Settled :
    (around : Surroundings) (files : Files) (target : Text) (previous : Option Bytes)
    (content : Bytes) (succeeded : Bool) (e : UnitError) (disk : Disk)
    → Fresh around
    → IsVisible target
    → content_of (file_at files target) ≡ previous
    → ((n : Text) → file_at disk.files n ≡ file_at files n)
    → Settled files target previous content true
        ((if succeeded then activate around target previous content else unit_failure e) disk)
verified-Settled around files target previous content true e disk fresh visible h same =
    Settled-same files disk.files target previous content true
      (activate around target previous content disk) same
      (activate-Settled around target previous content disk fresh visible)
verified-Settled around files target previous content false e disk fresh visible h same =
    λ n. rw (same n) (unchanged-Written files target previous h n)

pub is_content-some :
    (previous : Option Bytes) (content : Bytes)
    → is_content previous content ≡ true
    → previous ≡ some content
is_content-some none content h = ground arith
is_content-some (some before) content h = ground (arith, text_beq_iff before content)

compared-Settled :
    (around : Surroundings) (application_id target : Text) (previous : Option Bytes)
    (content : Bytes) (b : Bool) (disk : Disk)
    → Fresh around
    → IsVisible target
    → content_of (file_at disk.files target) ≡ previous
    → is_content previous content ≡ b
    → Settled disk.files target previous content (not b) (
        (if b
            then pure (record {
              target = target;
              previous_content = previous;
              changed = false;
              rolled_back = false;
            })
            else verify_staged around (stem_of application_id) content >>= λ verified.
                if verified.succeeded
                then activate around target previous content
                else unit_failure (
                    verification_failed
                      (or_message verified.message "systemd-analyze rejected the rendered unit")))
          disk)
unfolding verify_staged run
compared-Settled around application_id target previous content true disk fresh visible h e = (
  unchanged-Written disk.files target (some content) (h ∙ is_content-some previous content e),
  refl,
)
compared-Settled around application_id target previous content false disk fresh visible h e =
    verified-Settled around disk.files target previous content _ _ _ fresh visible h
      (verify_staged-files around (stem_of application_id) content disk fresh)

-- From the content that the target has on the disk, an error leaves every file as it was.
pub install_content-Settled :
    (around : Surroundings) (application_id target : Text) (previous : Option Bytes)
    (content : Bytes) (disk : Disk)
    → Fresh around
    → IsVisible target
    → content_of (file_at disk.files target) ≡ previous
    → Settled disk.files target previous content
        (not (is_content previous content))
        (install_content around application_id target previous content disk)
unfolding install_content
install_content-Settled around application_id target previous content disk fresh visible h =
    compared-Settled around application_id target previous content (is_content previous content)
      disk fresh visible h refl
