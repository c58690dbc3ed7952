-- ===== src/Command/Report.antt =====
-- `dw status` of crates/drivewire-cli/src/main.rs behind `dw mount`, on one server.
use drivewire_rs.Prelude.{
  ℕ, ◌≤◌, ◌≡◌, refl, ap, ◌∙◌, false, none, some, Bool-cases, inl, inr, List, [], ◌∷◌, ◌++◌, ◌==◌,
  ==_iff, ◌||◌, ltb, ok, if◌then◌else◌, arith,
}
use mathlib.Core.List.{append-nil}
use drivewire_rs.Vdisk.{Directory, Files, DskFile, open_dsk}
use drivewire_rs.Vdisk.Laws.{open_dsk-path}
use drivewire_rs.Server.State.{Server, get, mount}
use drivewire_rs.Text.{Text, chars, trim, trim_start, trim_end, is_empty, starts_with, splitn3}
use drivewire_rs.Text.Laws.{IsLine}
use drivewire_rs.Control.{
  Wording, DriveRow, VserialRow, drive_line, vserial_line, drive_lines, vserial_lines,
  drive_summary, vserial_summary, status_reply, mount_dsk, run_verb, handle_control_command,
  handle_control,
}
use drivewire_rs.Control.Client.{mount_line, status_request}
use drivewire_rs.Control.Complete.{
  IsOneLine, HasLineNames, status_reply-IsReply, handle_control_command-Fine,
}
use drivewire_rs.Control.Outcome.{handled, mount_session, mount_line-IsLine}
use drivewire_rs.Control.Serving.{get-insert_self, get-insert_ne}
use drivewire_rs.Control.Status.{
  IsDistinct, IsRising, find_row, shown_disk, drive_summary_lem, mount-IsDistinct,
}
use drivewire_rs.Command.{
  Cmd, Daemon, read_reply, written_to, connected_to, request, run_status, Outside, replied, main,
}
use drivewire_rs.Command.Reading.{read_reply-IsReply}

-- The reply to STATUS does not end the session.
vserial_lines_go_on :
    (rows : List VserialRow) (t : Text)
    → starts_with (chars "BYE") t ≡ false
    → starts_with (chars "BYE") (vserial_lines rows t) ≡ false
unfolding vserial_lines vserial_line
vserial_lines_go_on [] t h = h
vserial_lines_go_on ((ch, is_open, inbox, outbox) ∷ rows) t h =
    elim (Bool-cases (is_open || (ltb 0 inbox || ltb 0 outbox))) [
      | inl e ↦ rw e refl
      | inr e ↦ rw e (vserial_lines_go_on rows t h)
    ]

drive_lines_go_on :
    (rows : List DriveRow) (t : Text)
    → starts_with (chars "BYE") t ≡ false
    → starts_with (chars "BYE") (drive_lines rows t) ≡ false
unfolding drive_lines drive_line
drive_lines_go_on [] t h = h
drive_lines_go_on (row ∷ rows) t h = refl

status_goes_on : (s : Server) → starts_with (chars "BYE") (status_reply s) ≡ false
unfolding status_reply
status_goes_on s =
    drive_lines_go_on (drive_summary s) _ (vserial_lines_go_on (vserial_summary s) _ refl)

module _ (wording : Wording) (directory : Directory) (files : Files) (s : Server) where
  status_command :
      handle_control_command wording directory files (chars "STATUS") s ≡ (status_reply s, s)
  unfolding handle_control_command run_verb splitn3
  status_command = refl

  status_session :
      handle_control wording directory files ((chars "STATUS", none) ∷ []) s ≡ (status_reply s, s)
  unfolding handle_control trim_start
  status_session =
      let solid : trim (chars "STATUS") ≡ chars "STATUS" = refl in
      rw (handle_control, solid, status_command, status_goes_on s, append-nil (status_reply s)) refl

-- The row of each slot behind a mount.
row_behind :
    (slot j : ℕ) (d : DskFile) (s : Server)
    → shown_disk (get j (mount slot d s).drives)
      ≡ (if j == slot then some (d.path, d.sector_count) else shown_disk (get j s.drives))
unfolding mount shown_disk
row_behind slot j d s = elim (Bool-cases (j == slot)) [
  | inl e ↦ rw (e, (==_iff j slot).0 e, get-insert_self slot d s.drives) refl
  | inr e ↦ rw (e, get-insert_ne slot j d s.drives (λ k. ground arith)) refl
]

-- The rows of STATUS behind a mount in this slot.
abbrev pub Shows : ℕ → Text → ℕ → Server → Server → Type 0
Shows slot path count s s' =
    IsRising (drive_summary s')
    × ((j : ℕ)
        → find_row j (drive_summary s')
          ≡ (if j == slot then some (path, count) else find_row j (drive_summary s)))

mount-Shows :
    (slot : ℕ) (d : DskFile) (s : Server)
    → IsDistinct s.drives
    → Shows slot d.path d.sector_count s (mount slot d s)
mount-Shows slot d s h =
    let (rising, rows) = drive_summary_lem (mount slot d s) (mount-IsDistinct slot d s h) in
    let (_, before) = drive_summary_lem s h in
    (rising, λ j. rows j ∙ row_behind slot j d s ∙ rw (before j) refl)

module _ (wording : Wording) (one : IsOneLine wording) (directory : Directory) (files : Files) where
  -- The server behind the session of a mount that succeeds, and the names of its disks.
  mounted_behind :
      (slot : ℕ) (path : Text) (s : Server) (d : DskFile)
      → slot ≤ 255
      → trim_end path ≡ path
      → is_empty path ≡ false
      → open_dsk directory files path false ≡ ok d
      → (handle_control wording directory files ((mount_line slot path, none) ∷ []) s).1
        ≡ mount slot d s
  unfolding mount_dsk
  mounted_behind slot path s d h solid some_path e =
      ap (λ r. r.1) (mount_session wording directory files slot path s h solid some_path)
      ∙ ap (λ r. r.1) (handled wording directory files slot path s h solid some_path)
      ∙ rw e refl

  names_behind :
      (slot : ℕ) (path : Text) (s : Server)
      → slot ≤ 255
      → trim_end path ≡ path
      → is_empty path ≡ false
      → IsLine path
      → HasLineNames s.drives
      → HasLineNames
          (handle_control wording directory files ((mount_line slot path, none) ∷ []) s).1.drives
  names_behind slot path s h solid some_path line names =
      rw (mount_session wording directory files slot path s h solid some_path)
        (handle_control_command-Fine wording one directory files (mount_line slot path) s
          (mount_line-IsLine slot path line) names).1

  -- A connection to a session of the server.
  main-status :
      (fuel : ℕ) (o : Outside) (socket rest : Text) (d : Daemon) (s : Server)
      → HasLineNames s.drives
      → o.connect socket ≡ ok d
      → d.refuses ≡ none
      → d.replies status_request
        ≡ (handle_control wording directory files ((chars "STATUS", none) ∷ []) s).0 ++ rest
      → main fuel o (Cmd.status (record { socket = socket })) ≡ replied (ok (status_reply s))
  unfolding main run_status request connected_to written_to
  main-status fuel o socket rest d s names c r e =
      ap (λ x. replied (connected_to status_request x)) c
      ∙ ap (λ x. replied (written_to d status_request x)) r
      ∙ ap (λ x. replied (read_reply x d.broken))
          (e ∙ ap (λ x. x.0 ++ rest) (status_session wording directory files s))
      ∙ ap replied
          (read_reply-IsReply (status_reply s) rest d.broken (status_reply-IsReply s names))

  -- If a control session has had the line of dw mount, for a slot of 8 bits and a path of one line
  -- that is not empty, does not end with white space and can be opened, on a server whose slots are
  -- distinct and whose disks have no line feed in their names, where no text that the standard
  -- library or the host prints has one; and if dw status then reaches a session of that server,
  -- which takes the request: dw status succeeds and prints the server's whole reply and nothing
  -- behind it, whatever text or error stands there. The rows of the disks in that reply rise in
  -- their slots; that of the mounted slot has the path and the sector count of the opened disk, and
  -- every other slot has the row that it had.
  pub main-Shows :
      (fuel : ℕ) (o : Outside) (slot : ℕ) (path socket rest : Text) (d : Daemon) (disk : DskFile)
      (s : Server)
      → slot ≤ 255
      → trim_end path ≡ path
      → is_empty path ≡ false
      → IsLine path
      → HasLineNames s.drives
      → IsDistinct s.drives
      → open_dsk directory files path false ≡ ok disk
      → o.connect socket ≡ ok d
      → d.refuses ≡ none
      → d.replies status_request
        ≡ (handle_control wording directory files
            ((chars "STATUS", none) ∷ [])
            (handle_control wording directory files ((mount_line slot path, none) ∷ []) s).1).0
          ++ rest
      → let s' = (handle_control wording directory files ((mount_line slot path, none) ∷ []) s).1 in
        (main fuel o (Cmd.status (record { socket = socket })) ≡ replied (ok (status_reply s')))
        × Shows slot path disk.sector_count s s'
  main-Shows fuel o slot path socket rest d disk s h solid some_path line names distinct opened c r
        e =
      let s' = (handle_control wording directory files ((mount_line slot path, none) ∷ []) s).1 in
      let behind = mounted_behind slot path s disk h solid some_path opened in
      (
        main-status fuel o socket rest d s' (names_behind slot path s h solid some_path line names)
            c r e,
        rw (behind, ← open_dsk-path directory files path false disk opened)
            (mount-Shows slot disk s distinct),
      )
