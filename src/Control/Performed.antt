-- ===== src/Control/Performed.antt =====
-- What a control session does to the shared server is a list of the steps of Server/Actions.
use drivewire_rs.Prelude.{
  ℕ, refl, false, Option, none, some, List, [], ◌∷◌, Result, ok, err, Bool-cases, inl, inr,
}
use drivewire_rs.Vdisk.{DskFile, Directory, Files, VDiskError, open_dsk}
use drivewire_rs.Server.State.{Server}
use drivewire_rs.Server.Actions.{mount_disk, unmount_disk, perform, perform_all}
use drivewire_rs.Server.Run.Performed.{IsPerformed, IsPerformed-trans, none-IsPerformed}
use drivewire_rs.Text.{
  Text, chars, trim, is_empty, splitn3, parse_u8, to_ascii_uppercase, same, starts_with,
}
use drivewire_rs.Control.{
  Wording, mount_opened, mount_dsk, mount_at, mount_command, unmount_at, unmount_command, run_verb,
  handle_control_command, handle_control,
}

opened-IsPerformed :
    (slot : ℕ) (s : Server) (r : Result VDiskError DskFile)
    → IsPerformed s (mount_opened slot s r).1
unfolding perform perform_all
opened-IsPerformed slot s (err e) = none-IsPerformed s s refl
opened-IsPerformed slot s (ok d) = record { actions = mount_disk slot d ∷ []; performed = refl }

module _ (wording : Wording) (directory : Directory) (files : Files) where
  mount_at-IsPerformed :
      (text path : Text) (slot : Option ℕ) (s : Server)
      → IsPerformed s (mount_at wording directory files text path slot s).1
  unfolding mount_at mount_dsk
  mount_at-IsPerformed text path none s = none-IsPerformed s s refl
  mount_at-IsPerformed text path (some slot) s =
      opened-IsPerformed slot s (open_dsk directory files path false)

  mount_command-IsPerformed :
      (slot path : Option Text) (s : Server)
      → IsPerformed s (mount_command wording directory files slot path s).1
  unfolding mount_command
  mount_command-IsPerformed (some slot) (some path) s =
      mount_at-IsPerformed slot path (parse_u8 slot) s
  mount_command-IsPerformed none path s = none-IsPerformed s s refl
  mount_command-IsPerformed (some slot) none s = none-IsPerformed s s refl

  unmount_at-IsPerformed :
      (text : Text) (slot : Option ℕ) (s : Server)
      → IsPerformed s (unmount_at wording directory files text slot s).1
  unfolding unmount_at perform perform_all
  unmount_at-IsPerformed text none s = none-IsPerformed s s refl
  unmount_at-IsPerformed text (some slot) s = record {
    actions = unmount_disk slot ∷ [];
    performed = refl;
  }

  unmount_command-IsPerformed :
      (slot : Option Text) (s : Server)
      → IsPerformed s (unmount_command wording directory files slot s).1
  unfolding unmount_command
  unmount_command-IsPerformed none s = none-IsPerformed s s refl
  unmount_command-IsPerformed (some slot) s = unmount_at-IsPerformed slot (parse_u8 slot) s

  run_verb-IsPerformed :
      (verb : Text) (slot path : Option Text) (s : Server)
      → IsPerformed s (run_verb wording directory files verb slot path s).1
  unfolding run_verb
  run_verb-IsPerformed verb slot path s = elim (Bool-cases (same verb (chars "MOUNT"))) [
    | inl e ↦ rw e (mount_command-IsPerformed slot path s)
    | inr e ↦ elim (Bool-cases (same verb (chars "UNMOUNT"))) [
      | inl f ↦ rw (e, f) (unmount_command-IsPerformed slot s)
      | inr f ↦ elim (Bool-cases (same verb (chars "STATUS"))) [
        | inl g ↦ rw (e, f, g) (none-IsPerformed s s refl)
        | inr g ↦ elim (Bool-cases (same verb (chars "QUIT"))) [
          | inl q ↦ rw (e, f, g, q) (none-IsPerformed s s refl)
          | inr q ↦ rw (e, f, g, q) (none-IsPerformed s s refl)
        ]
      ]
    ]
  ]

  command-IsPerformed :
      (line : Text) (s : Server)
      → IsPerformed s (handle_control_command wording directory files line s).1
  unfolding handle_control_command
  command-IsPerformed line s =
      let (verb, slot, path) = splitn3 line in
      run_verb-IsPerformed (to_ascii_uppercase verb) slot path s

  -- Whatever lines a control client sends, and wherever it stops taking responses, the effect of its
  -- session on the shared server is that of a list of the steps that the theorems on interleavings
  -- range over.
  handle_control-IsPerformed :
      (lines : List (Text × Option ℕ)) (s : Server)
      → IsPerformed s (handle_control wording directory files lines s).1
  unfolding handle_control
  handle_control-IsPerformed [] s = none-IsPerformed s s refl
  handle_control-IsPerformed ((line, some n) ∷ lines) s =
      let now = command-IsPerformed (trim line) s in
      elim (Bool-cases (is_empty (trim line))) [
        | inl e ↦ rw e (handle_control-IsPerformed lines s)
        | inr e ↦ rw e now
      ]
  handle_control-IsPerformed ((line, none) ∷ lines) s =
      let now = command-IsPerformed (trim line) s in
      let (response, s') = handle_control_command wording directory files (trim line) s in
      elim (Bool-cases (is_empty (trim line))) [
        | inl e ↦ rw e (handle_control-IsPerformed lines s)
        | inr e ↦ elim (Bool-cases (starts_with (chars "BYE") response)) [
          | inl q ↦ rw (e, q) now
          | inr q ↦ rw (e, q) (IsPerformed-trans now (handle_control-IsPerformed lines s'))
        ]
      ]
