-- ===== src/Control/Serving.antt =====
-- From the control socket to the disk handlers: what a mounted path serves.
use drivewire_rs.Prelude.{
  ℕ, ◌≤◌, ◌<◌, ◌/◌, ◌%◌, ◌^◌, ◌≡◌, ◌≢◌, refl, true, false, none, some, [], ◌∷◌, arith, ok, length,
}
use drivewire_rs.Vdisk.{DskFile, Directory, Files, sector_size, open_dsk}
use drivewire_rs.Vdisk.Laws.{stored, open_dsk_of_ok, open_dsk-IsOpen}
use drivewire_rs.Proto.Lsn.{Lsn}
use drivewire_rs.Server.State.{Server, Drives, get, mount, insert, remove}
use drivewire_rs.Server.Handlers.{served}
use drivewire_rs.Server.Run.RoundTrip.{served_lem}
use drivewire_rs.Text.{Text, trim, trim_end, is_empty}
use drivewire_rs.Control.{Wording, mount_dsk, handle_control_command}
use drivewire_rs.Control.Client.{mount_line}
use drivewire_rs.Control.Requests.{handle_control_command-mount_line}

get-remove_ne :
    (slot j : ℕ) (drives : Drives) → j ≢ slot → get j (remove slot drives) ≡ get j drives
unfolding get remove
get-remove_ne slot j [] h = refl
get-remove_ne slot j ((i, d) ∷ rest) h = ground (arith, get-remove_ne slot j rest h)

pub get-insert_self :
    (slot : ℕ) (d : DskFile) (drives : Drives) → get slot (insert slot d drives) ≡ some d
unfolding get insert
get-insert_self slot d drives = ground arith

pub get-insert_ne :
    (slot j : ℕ) (d : DskFile) (drives : Drives)
    → j ≢ slot
    → get j (insert slot d drives) ≡ get j drives
unfolding get insert
get-insert_ne slot j d drives h = ground (arith, get-remove_ne slot j drives h)

served_of_get :
    (drives drives' : Drives) (files : Files) (slot : ℕ) (l : Lsn)
    → get slot drives ≡ get slot drives'
    → served drives files slot l ≡ served drives' files slot l
unfolding served
served_of_get drives drives' files slot l e = rw (served, e)

-- What a server serves behind a mount of an image that opens.
served-mount_dsk :
    (directory : Directory) (files : Files) (slot : ℕ) (path : Text) (s : Server) (d : DskFile)
    → open_dsk directory files path false ≡ ok d
    → let after = (mount_dsk directory files slot path false s).1 in
      ((l : Lsn)
        → l.value < d.sector_count
        → served after.drives files slot l ≡ stored (files d.file) l.value)
      × ((j : ℕ) (l : Lsn) → j ≢ slot → served after.drives files j l ≡ served s.drives files j l)
unfolding mount_dsk mount
served-mount_dsk directory files slot path s d e = rw e (
  λ l h. served_lem (insert slot d s.drives) files slot d l (record {
    mounted = get-insert_self slot d s.drives;
    image = open_dsk-IsOpen directory files path false d e;
    in_range = h;
  }),
  λ j l h.
      served_of_get (insert slot d s.drives) s.drives files j l (get-insert_ne slot j d s.drives h),
)

-- If the host opens a path for writing, to a file without a fault, then behind the line of dw mount
-- for it, with a slot of 8 bits and a path that is not empty and does not end with white space,
-- READs of the slot are served each whole sector of that file, up to a count that wraps at 32 bits,
-- and every other slot serves what it did.
pub served-mount_line :
    (wording : Wording) (directory : Directory) (files : Files) (slot : ℕ) (path : Text) (id : ℕ)
    (s : Server)
    → slot ≤ 255
    → trim_end path ≡ path
    → is_empty path ≡ false
    → directory path true ≡ ok id
    → (files id).fault ≡ none
    → let after =
        (handle_control_command wording directory files (trim (mount_line slot path)) s).1 in
      ((l : Lsn)
        → l.value < length (files id).bytes / sector_size % 2 ^ 32
        → served after.drives files slot l ≡ stored (files id) l.value)
      × ((j : ℕ) (l : Lsn) → j ≢ slot → served after.drives files j l ≡ served s.drives files j l)
served-mount_line wording directory files slot path id s h e k o f =
    rw (handle_control_command-mount_line wording directory files slot path s h e k) (
      served-mount_dsk directory files slot path s _
        (open_dsk_of_ok directory files path false id o f))
