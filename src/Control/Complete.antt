-- ===== src/Control/Complete.antt =====
-- The server's replies and the client's reading of them.
use drivewire_rs.Prelude.{
  ℕ, ◌≡◌, refl, true, false, Option, none, some, [], ◌∷◌, ◌++◌, ◌==◌, All, Bool-cases, inl, inr,
  Result, ok, err, map,
}
use mathlib.Core.List.{append_assoc}
use drivewire_rs.Io.{IoKind}
use drivewire_rs.Vdisk.{DskFile, Directory, Files, VDiskError, out_of_range, open_dsk}
use drivewire_rs.Vdisk.Laws.{open_dsk-path}
use drivewire_rs.Server.State.{Server, Drives, mount, unmount, insert, remove}
use drivewire_rs.Text.{Text, chars, decimal, splitn3, parse_u8, same, to_ascii_uppercase}
use drivewire_rs.Text.Laws.{
  IsLine, IsLineOption, is_line-append, decimal-IsLine, splitn3-IsLine, to_ascii_uppercase-IsLine,
}
use drivewire_rs.Control.{
  Wording, drive_row, drive_summary, vserial_summary, line_feed, mount_opened, mount_dsk,
  status_reply, error_text, mount_reply, bad_slot, unmount_reply, mount_at, mount_command,
  unmount_at, unmount_command, run_verb, handle_control_command,
}
use drivewire_rs.Control.Client.{is_terminal, control_request}
use drivewire_rs.Control.Reply.{
  IsReply, last, control_request-IsReply, drive_lines-IsReply, vserial_lines-IsReply, sort_rows-All,
}

-- What is printed by the standard library and the host has no line feed in it.
pub record IsOneLine (wording : Wording) : Type 0 where
  pub debug_line : (s : Text) → IsLine (wording.debug s)
  pub message_line : (kind : IoKind) → IsLine (wording.message kind)

-- No mounted disk has a line feed in its name.
abbrev pub HasLineNames : Drives → Type 0
HasLineNames = All (λ p. IsLine p.1.path)

remove-HasLineNames :
    (slot : ℕ) (drives : Drives) → HasLineNames drives → HasLineNames (remove slot drives)
unfolding remove
remove-HasLineNames slot [] h = tt
remove-HasLineNames slot ((j, d) ∷ rest) (p, h) = elim (Bool-cases (j == slot)) [
  | inl e ↦ rw e (remove-HasLineNames slot rest h)
  | inr e ↦ rw e (p, remove-HasLineNames slot rest h)
]

drive_rows-HasLineNames :
    (drives : Drives) → HasLineNames drives → All (λ row. IsLine row.1) (map drive_row drives)
drive_rows-HasLineNames [] h = tt
drive_rows-HasLineNames (p ∷ rest) (q, h) = (q, drive_rows-HasLineNames rest h)

one_line : (l : Text) → IsLine l → is_terminal (l ++ line_feed) ≡ true → IsReply (l ++ line_feed)
one_line l h k = last l refl h k

pub status_reply-IsReply : (s : Server) → HasLineNames s.drives → IsReply (status_reply s)
unfolding status_reply drive_summary
status_reply-IsReply s h =
    drive_lines-IsReply _ _ (sort_rows-All _ _ (drive_rows-HasLineNames s.drives h))
      (vserial_lines-IsReply (vserial_summary s) _ (one_line (chars "OK") refl refl))

module _ (wording : Wording) (o : IsOneLine wording) where
  error_text-IsLine : (e : VDiskError) → IsLine (error_text wording e)
  unfolding error_text
  error_text-IsLine (out_of_range lsn) = simp (is_line-append, decimal-IsLine)
  error_text-IsLine VDiskError.read_only = refl
  error_text-IsLine (VDiskError.io kind) = o.message_line kind

  bad_slot-IsReply : (slot : Text) → IsReply (bad_slot wording slot)
  unfolding bad_slot
  bad_slot-IsReply slot =
      last (chars "ERROR slot must be a u8 (got " ++ (wording.debug slot ++ chars ")"))
        (simp append_assoc) (simp (is_line-append, o.debug_line slot)) refl

  mount_reply-IsReply :
      (slot : ℕ) (directory : Directory) (files : Files) (path : Text) (s : Server)
      → IsLine path
      → HasLineNames s.drives
      → let (outcome, s') = mount_dsk directory files slot path false s in
        IsReply (mount_reply wording slot outcome) × HasLineNames s'.drives
  unfolding mount_reply mount_dsk mount insert
  mount_reply-IsReply slot directory files path s h k =
      go (open_dsk directory files path false)
        (λ d e. rw (open_dsk-path directory files path false d e) h)
    where
      go :
          (r : Result VDiskError DskFile)
          → ((d : DskFile) → r ≡ ok d → IsLine d.path)
          → let (outcome, s') = mount_opened slot s r in
            IsReply (mount_reply wording slot outcome) × HasLineNames s'.drives
      go (err e) f = (
        last (chars "ERROR mount failed: " ++ error_text wording e) refl (error_text-IsLine e) refl,
        k,
      )
      go (ok d) f = (
        last
            (chars "OK mounted slot "
              ++ (decimal slot
                  ++ (chars " sectors=" ++ (decimal d.sector_count ++ (chars " path=" ++ d.path)))))
            (simp append_assoc) (simp (is_line-append, decimal-IsLine, f d refl)) refl,
        (f d refl, remove-HasLineNames slot s.drives k),
      )

  module _ (directory : Directory) (files : Files) where
    abbrev Fine : Text × Server → Type 0
    Fine (reply, s) = IsReply reply × HasLineNames s.drives

    mount_at-Fine :
        (text path : Text) (slot : Option ℕ) (s : Server)
        → IsLine path
        → HasLineNames s.drives
        → Fine (mount_at wording directory files text path slot s)
    unfolding mount_at
    mount_at-Fine text path none s h k = (bad_slot-IsReply text, k)
    mount_at-Fine text path (some slot) s h k = mount_reply-IsReply slot directory files path s h k

    unmount_at-Fine :
        (text : Text) (slot : Option ℕ) (s : Server)
        → HasLineNames s.drives
        → Fine (unmount_at wording directory files text slot s)
    unfolding unmount_at unmount_reply unmount
    unmount_at-Fine text none s k = (bad_slot-IsReply text, k)
    unmount_at-Fine text (some slot) s k = (
      last (chars "OK unmounted slot " ++ decimal slot) refl (decimal-IsLine slot) refl,
      remove-HasLineNames slot s.drives k,
    )

    mount_command-Fine :
        (slot path : Option Text) (s : Server)
        → IsLineOption path
        → HasLineNames s.drives
        → Fine (mount_command wording directory files slot path s)
    unfolding mount_command
    mount_command-Fine none path s h k =
        (one_line (chars "ERROR usage: MOUNT <slot> <path>") refl refl, k)
    mount_command-Fine (some slot) none s h k =
        (one_line (chars "ERROR usage: MOUNT <slot> <path>") refl refl, k)
    mount_command-Fine (some slot) (some path) s h k = mount_at-Fine slot path (parse_u8 slot) s h k

    unmount_command-Fine :
        (slot : Option Text) (s : Server)
        → HasLineNames s.drives
        → Fine (unmount_command wording directory files slot s)
    unfolding unmount_command
    unmount_command-Fine none s k = (one_line (chars "ERROR usage: UNMOUNT <slot>") refl refl, k)
    unmount_command-Fine (some slot) s k = unmount_at-Fine slot (parse_u8 slot) s k

    run_verb-Fine :
        (verb : Text) (slot path : Option Text) (s : Server)
        → IsLine verb
        → IsLineOption path
        → HasLineNames s.drives
        → Fine (run_verb wording directory files verb slot path s)
    unfolding run_verb
    run_verb-Fine verb slot path s h p k = elim (Bool-cases (same verb (chars "MOUNT"))) [
      | inl e ↦ rw e (mount_command-Fine slot path s p k)
      | inr e ↦ elim (Bool-cases (same verb (chars "UNMOUNT"))) [
        | inl f ↦ rw (e, f) (unmount_command-Fine slot s k)
        | inr f ↦ elim (Bool-cases (same verb (chars "STATUS"))) [
          | inl g ↦ rw (e, f, g) (status_reply-IsReply s k, k)
          | inr g ↦ elim (Bool-cases (same verb (chars "QUIT"))) [
            | inl q ↦ rw (e, f, g, q) (one_line (chars "BYE") refl refl, k)
            | inr q ↦ rw (e, f, g, q) (last (chars "ERROR unknown verb: " ++ verb) refl h refl, k)
          ]
        ]
      ]
    ]

    pub handle_control_command-Fine :
        (line : Text) (s : Server)
        → IsLine line
        → HasLineNames s.drives
        → Fine (handle_control_command wording directory files line s)
    unfolding handle_control_command
    handle_control_command-Fine line s h k =
        let (first, (second, third)) = splitn3-IsLine line h in
        let (verb, slot, path) = splitn3 line in
        run_verb-Fine (to_ascii_uppercase verb) slot path s (to_ascii_uppercase-IsLine verb first)
          third k

    -- For a command of one line on a server whose disks have no line feed in their names, where no
    -- text that the standard library or the host prints has a line feed: control_request takes
    -- exactly the server's reply off the stream, whatever stands behind it, and no disk's name has a
    -- line feed afterwards.
    pub control_request-handle_control_command :
        (line rest : Text) (s : Server)
        → IsLine line
        → HasLineNames s.drives
        → let (reply, s') = handle_control_command wording directory files line s in
          (control_request (reply ++ rest) ≡ reply) × HasLineNames s'.drives
    control_request-handle_control_command line rest s h k =
        let (r, k') = handle_control_command-Fine line s h k in
        (control_request-IsReply _ rest r, k')
