-- ===== src/Tests/Disk.antt =====
-- Sectors read and written over the wire.
use drivewire_rs.Prelude.{
  ℕ, ◌<◌, none, true, List, get_or, ◌≡◌, refl, [], ◌∷◌, ◌++◌, arith, ok, err, leb, if◌then◌else◌,
  replicate,
}
use drivewire_rs.Proto.Checksum.{checksum16}
use drivewire_rs.Proto.Lsn.{Lsn, from_be3}
use drivewire_rs.Vdisk.{read, out_of_range, Directory}
use drivewire_rs.Vdisk.Laws.{IsOpen, stored, read_lem}
use drivewire_rs.Vdisk.{DskFile}
use drivewire_rs.Vdisk.Trait.{Request, read_sector, write_sector, contents_of}
use drivewire_rs.Vdisk.Trait.Dsk.{AllOpen}
use drivewire_rs.Vdisk.Trait.Traces.{calls, abstract_calls, Agrees}
use drivewire_rs.Vdisk.Trait.Images.{through, images-Agrees}
use drivewire_rs.Server.State.{get}
use drivewire_rs.Server.Session.{to_be2}
use drivewire_rs.Server.Session.Laws.{fed, sent}
use drivewire_rs.Server.Handlers.Disk.{write_frame}
use drivewire_rs.Server.Run.{turn}
use drivewire_rs.Server.Run.RoundTrip.{
  Holds, read_after_write, after_write, seen, corruption_refused,
}
use drivewire_rs.Server.Sessions.{Guests, turn_of, world_of}
use drivewire_rs.Server.Sessions.Shared.{sends, replied, read_after_guest}
use drivewire_rs.Tests.Fixtures.{image, files, server, world, ones, clock, quiet}

abbrev first : Lsn
first = record { value = 1 }

image-IsOpen : IsOpen image files
image-IsOpen = record { fits = omega arith; small = omega arith; healthy = refl }

read_lem_example :
    read image first files ≡ (if leb 2 1 then err (out_of_range first) else ok (stored (files 0) 1))
read_lem_example = read_lem image first files image-IsOpen

abbrev directory : Directory
directory path writable = ok 0

holds : (slot : ℕ) → slot < 2 → Holds server.drives files slot image (from_be3 0 0 1)
unfolding get from_be3
holds slot h = record { mounted = ground arith; image = image-IsOpen; in_range = omega arith }

read_after_write_example :
    let w' = after_write 0 0 0 1 ones 1 0 [] world in
    let answer = seen image (from_be3 0 0 1) ones 1 image (from_be3 0 0 1) world in
    (w'.wire.output ≡ 0 ∷ [])
    × (turn (fed (0x52 ∷ 1 ∷ 0 ∷ 0 ∷ 1 ∷ []) w')
        ≡ (ok tt, sent (answer ++ to_be2 (checksum16 answer)) (fed [] w')))
unfolding checksum16
read_after_write_example =
    read_after_write 0 0 0 1 1 0 1 0 0 1 ones [] [] image image world refl (holds 0 (omega arith))
      (holds 1 (omega arith)) refl refl refl

-- A sector of 255 ones and a 2, with the checksum of 256 ones.
corruption_refused_example :
    turn (fed (0x57 ∷ write_frame 0 0 0 1 ([] ++ (2 ∷ replicate 255 1)) 1 0 []) world)
    ≡ (ok tt, sent (0xf3 ∷ []) (fed [] world))
unfolding checksum16
corruption_refused_example =
    corruption_refused 0 0 0 1 1 0 1 2 [] (replicate 255 1) [] world refl refl (omega arith)
      (omega arith) (omega arith) refl

-- One guest that writes through slot 0, and one that reads through slot 1.
abbrev two_guests : Guests
two_guests = record {
  server = server;
  files = files;
  clock = clock;
  sessions =
      sends (0x57 ∷ write_frame 0 0 0 1 ones 1 0 []) quiet
      ∷ sends (0x52 ∷ 1 ∷ 0 ∷ 0 ∷ 1 ∷ []) quiet
      ∷ [];
}

read_after_guest_example :
    let after = turn_of 1 (turn_of 0 two_guests) in
    let x = seen image (from_be3 0 0 1) ones 1 image (from_be3 0 0 1) (world_of two_guests quiet) in
    (get_or after.sessions 0 none ≡ replied [] (0 ∷ []) quiet)
    × (get_or after.sessions 1 none ≡ replied [] (x ++ to_be2 (checksum16 x)) quiet)
unfolding checksum16
read_after_guest_example =
    read_after_guest 0 0 0 1 1 0 1 0 0 1 ones [] [] image image 0 1 quiet quiet two_guests (λ e. cc)
      (omega arith) (omega arith) refl refl refl refl (holds 0 (omega arith))
      (holds 1 (omega arith)) refl refl refl

-- One file behind a handle that may write and one that may not.
abbrev protected : DskFile
protected = record image { read_only = true }

abbrev requests : List (ℕ × Request)
requests =
    (0, write_sector first ones)
    ∷ (1, read_sector first)
    ∷ (1, write_sector first ones)
    ∷ (0, read_sector (record { value = 2 }))
    ∷ []

protected-IsOpen : IsOpen protected files
protected-IsOpen = record { fits = omega arith; small = omega arith; healthy = refl }

images-Agrees_example :
    Agrees
      (AllOpen (image ∷ protected ∷ []))
      (calls (through (image ∷ protected ∷ []) requests) files)
      (abstract_calls (through (image ∷ protected ∷ []) requests) (contents_of files))
images-Agrees_example =
    images-Agrees (image ∷ protected ∷ []) requests files (refl, (tt, (refl, (tt, tt))))
      (image-IsOpen, (protected-IsOpen, tt))
