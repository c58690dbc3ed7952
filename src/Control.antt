-- ===== src/Control.antt =====
-- The control socket: `drive_summary`, `vserial_summary`, `mount_dsk`, `handle_control` and
-- `handle_control_command` of crates/drivewire-server/src/lib.rs, and the mounts of `serve` in
-- crates/drivewire-cli/src/main.rs. A path is a text here.
pub mod Client
pub mod Outcome
pub mod Reply
pub mod Requests
pub mod Complete
pub mod Status
pub mod Serving
pub mod Performed
use drivewire_rs.Prelude.{
  ℕ, zero, suc, ◌-◌, ◌<◌, ltb, leb, ◌||◌, Bool, true, false, Option, none, some, List, [], ◌∷◌,
  ◌++◌, Result, ok, err, get_or, length, take, map, if◌then◌else◌,
}
use drivewire_rs.Io.{IoKind}
use drivewire_rs.Proto.Lsn.{Lsn}
use drivewire_rs.Vdisk
use drivewire_rs.Vdisk.{VDiskError, out_of_range, DskFile, Directory, Files, open_dsk}
use drivewire_rs.Server.State.{Server, Drives, vserial_channels, mount, unmount}
use drivewire_rs.Text.{
  Text, chars, trim, is_empty, splitn3, to_ascii_uppercase, starts_with, same, decimal, parse_u8,
}

-- What the standard library and the host print: `{:?}` of a text, and an `io::Error`.
pub record Wording : Type 0 where
  pub debug : Text → Text
  pub message : IoKind → Text

-- A row of the summary: slot, name and sector count.
abbrev pub DriveRow : Type 0
DriveRow = ℕ × Text × ℕ

abbrev pub drive_row : ℕ × DskFile → DriveRow
drive_row (slot, d) = (slot, d.path, d.sector_count)

unfoldable pub insert_row : DriveRow → List DriveRow → List DriveRow
insert_row row [] = row ∷ []
insert_row row (r ∷ rows) =
    let below = insert_row row rows in if leb row.0 r.0 then row ∷ r ∷ rows else r ∷ below

-- `sort_by_key` on the slot.
unfoldable pub sort_rows : List DriveRow → List DriveRow
unfolding insert_row
sort_rows [] = []
sort_rows (row ∷ rows) = insert_row row (sort_rows rows)

unfoldable pub drive_summary : Server → List DriveRow
unfolding sort_rows
drive_summary s = sort_rows (map drive_row s.drives)

-- A row of the summary: channel, whether it is open, and the bytes in its inbox and its outbox.
abbrev pub VserialRow : Type 0
VserialRow = ℕ × Bool × ℕ × ℕ

abbrev pub vserial_row : Server → ℕ → VserialRow
vserial_row s i = (
  i,
  get_or s.vserial_open i false,
  length (get_or s.vserial_inbox i []),
  length (get_or s.vserial_outbox i []),
)

-- The rows of `n` channels from channel `i` on.
unfoldable pub vserial_rows : Server → ℕ → ℕ → List VserialRow
vserial_rows s i zero = []
vserial_rows s i (suc n) = vserial_row s i ∷ vserial_rows s (suc i) n

unfoldable pub vserial_summary : Server → List VserialRow
unfolding vserial_rows
vserial_summary s = vserial_rows s 0 vserial_channels

abbrev pub mount_opened :
    ℕ → Server → Result VDiskError DskFile → Result VDiskError (ℕ × Text) × Server
mount_opened slot s (err e) = (err e, s)
mount_opened slot s (ok disk) = (ok (disk.sector_count, disk.path), mount slot disk s)

unfoldable pub mount_dsk :
    Directory → Files → ℕ → Text → Bool → Server → Result VDiskError (ℕ × Text) × Server
mount_dsk directory files slot path ro s = mount_opened slot s (open_dsk directory files path ro)

-- The loop of `serve` over the four `--disk` options, from slot `slot` on.
unfoldable pub serve_disks :
    Directory → Files → ℕ → List (Option Text) → Server → Result VDiskError (Unit {0}) × Server
unfolding mount_dsk
serve_disks directory files slot [] s = (ok tt, s)
serve_disks directory files slot (none ∷ rest) s = serve_disks directory files (suc slot) rest s
serve_disks directory files slot (some path ∷ rest) s =
    let (outcome, s') = mount_dsk directory files slot path false s in
    let others = serve_disks directory files (suc slot) rest s' in
    elim outcome [ err e ↦ (err e, s') | ok _ ↦ others ]

abbrev pub line_feed : Text
line_feed = 0x0a ∷ []

unfoldable pub drive_line : DriveRow → Text
drive_line (slot, name, sectors) =
    chars "drive " ++ (decimal slot ++ (chars " " ++ (decimal sectors ++ (chars " " ++ name))))

unfoldable pub vserial_line : VserialRow → Text
vserial_line (ch, is_open, inbox, outbox) =
    chars "vserial "
    ++ (decimal ch
        ++ ((if is_open then chars " open" else chars " closed")
            ++ (chars " inbox=" ++ (decimal inbox ++ (chars " outbox=" ++ decimal outbox)))))

unfoldable pub drive_lines : List DriveRow → Text → Text
drive_lines [] tail = tail
drive_lines (row ∷ rows) tail = drive_line row ++ (line_feed ++ drive_lines rows tail)

-- Channels that are closed and empty have no line.
unfoldable pub vserial_lines : List VserialRow → Text → Text
vserial_lines [] tail = tail
vserial_lines ((ch, is_open, inbox, outbox) ∷ rows) tail =
    let rest = vserial_lines rows tail in
    if is_open || (ltb 0 inbox || ltb 0 outbox)
    then vserial_line (ch, is_open, inbox, outbox) ++ (line_feed ++ rest)
    else rest

unfoldable pub status_reply : Server → Text
unfolding drive_summary vserial_summary drive_lines vserial_lines
status_reply s =
    drive_lines (drive_summary s) (vserial_lines (vserial_summary s) (chars "OK" ++ line_feed))

-- `Display` of `VDiskError`
unfoldable pub error_text : Wording → VDiskError → Text
error_text wording (out_of_range lsn) =
    chars "sector Lsn(" ++ (decimal lsn.value ++ chars ") out of range")
error_text wording VDiskError.read_only = chars "read-only disk"
error_text wording (VDiskError.io kind) = chars "i/o: " ++ wording.message kind

unfoldable pub mount_reply : Wording → ℕ → Result VDiskError (ℕ × Text) → Text
unfolding error_text
mount_reply wording slot (ok (sectors, name)) =
    chars "OK mounted slot "
    ++ (decimal slot
        ++ (chars " sectors=" ++ (decimal sectors ++ (chars " path=" ++ (name ++ line_feed)))))
mount_reply wording slot (err e) =
    chars "ERROR mount failed: " ++ (error_text wording e ++ line_feed)

unfoldable pub bad_slot : Wording → Text → Text
bad_slot wording slot =
    chars "ERROR slot must be a u8 (got " ++ (wording.debug slot ++ (chars ")" ++ line_feed))

unfoldable pub unmount_reply : ℕ → Text
unmount_reply slot = chars "OK unmounted slot " ++ (decimal slot ++ line_feed)

module _ (wording : Wording) (directory : Directory) (files : Files) where
  unfoldable pub mount_at : Text → Text → Option ℕ → Server → Text × Server
  unfolding mount_reply bad_slot
  mount_at text path none s = (bad_slot wording text, s)
  mount_at text path (some slot) s =
      let (outcome, s') = mount_dsk directory files slot path false s in
      (mount_reply wording slot outcome, s')

  unfoldable pub mount_command : Option Text → Option Text → Server → Text × Server
  unfolding mount_at
  mount_command (some slot) (some path) s = mount_at slot path (parse_u8 slot) s
  mount_command _ _ s = (chars "ERROR usage: MOUNT <slot> <path>" ++ line_feed, s)

  unfoldable pub unmount_at : Text → Option ℕ → Server → Text × Server
  unfolding bad_slot unmount_reply
  unmount_at text none s = (bad_slot wording text, s)
  unmount_at text (some slot) s = (unmount_reply slot, unmount slot s)

  unfoldable pub unmount_command : Option Text → Server → Text × Server
  unfolding unmount_at
  unmount_command none s = (chars "ERROR usage: UNMOUNT <slot>" ++ line_feed, s)
  unmount_command (some slot) s = unmount_at slot (parse_u8 slot) s

  unfoldable pub run_verb : Text → Option Text → Option Text → Server → Text × Server
  unfolding mount_command unmount_command status_reply
  run_verb verb slot path s =
      if same verb (chars "MOUNT")
      then mount_command slot path s
      else if same verb (chars "UNMOUNT")
      then unmount_command slot s
      else if same verb (chars "STATUS")
      then (status_reply s, s)
      else if same verb (chars "QUIT")
      then (chars "BYE" ++ line_feed, s)
      else (chars "ERROR unknown verb: " ++ (verb ++ line_feed), s)

  unfoldable pub handle_control_command : Text → Server → Text × Server
  unfolding run_verb
  handle_control_command line s =
      let (verb, slot, path) = splitn3 line in run_verb (to_ascii_uppercase verb) slot path s

  -- One session over the lines that the client sends, each with how much of the response the client takes: all, or
  -- so much, behind which the write fails. The result is what was written, and the server.
  unfoldable pub handle_control : List (Text × Option ℕ) → Server → Text × Server
  unfolding handle_control_command
  handle_control [] s = ([], s)
  handle_control ((line, accepts) ∷ lines) s =
      let skipped = handle_control lines s in
      let (response, s') = handle_control_command (trim line) s in
      let (more, s'') = handle_control lines s' in
      if is_empty (trim line) then skipped else elim accepts [
        | none ↦
            if starts_with (chars "BYE") response then (response, s') else (response ++ more, s'')
        | some n ↦ (take n response, s')
      ]
