-- ===== src/Vdisk/Laws.antt =====
-- Reads see what writes stored, through whichever handle.
use drivewire_rs.Prelude.{
  ℕ, ◌+◌, ◌*◌, ◌/◌, ◌%◌, ◌^◌, ◌≤◌, ◌<◌, ◌≡◌, refl, ap, Bool, not, true, false, none, List, ok, err,
  arith, leb, ◌==◌, ◌&&◌, take, drop, length, if◌then◌else◌, Bool-cases, ==_iff, inl, inr,
}
use native.Mathlib.Decide.{dec_lt}
use drivewire_rs.Prelude.Lists.{length-drop}
use drivewire_rs.Proto.Lsn.{Lsn}
use drivewire_rs.Io.Laws.{split_exact_enough}
use drivewire_rs.Vdisk.{
  DskFile, HostFile, Files, Sector, out_of_range, Directory, sector_size, update, read, write,
  read_at, splice, open_dsk, offset,
}
use drivewire_rs.Vdisk.Splice.{
  length-splice, window-splice_self, window-splice_before, window-splice_after,
}

-- An image that is at least as long as its handle says, on media without a fault.
pub record IsOpen (d : DskFile) (files : Files) : Type 0 where
  pub fits : d.sector_count * sector_size ≤ length (files d.file).bytes
  pub small : d.sector_count < 2 ^ 32
  pub healthy : (files d.file).fault ≡ none

-- The bytes of a sector.
abbrev pub stored : HostFile → ℕ → List ℕ
stored f l = take sector_size (drop (l * sector_size) f.bytes)

read_at_lem :
    (f : HostFile) (start : ℕ)
    → f.fault ≡ none
    → start + sector_size ≤ length f.bytes
    → read_at f start ≡ ok (take sector_size (drop start f.bytes))
unfolding read_at
read_at_lem f start h k =
    ground (arith, split_exact_enough sector_size (drop start f.bytes), length-drop start f.bytes)

offset_small : (l : Lsn) → l.value < 2 ^ 32 → offset l ≡ l.value * sector_size
offset_small l h = omega arith

-- On an open image a read below the sector count gives that sector's bytes, and any other read is an
-- out-of-range error.
pub read_lem :
    (d : DskFile) (l : Lsn) (files : Files)
    → IsOpen d files
    → read d l files ≡ (
        if leb d.sector_count l.value
        then err (out_of_range l)
        else ok (stored (files d.file) l.value))
unfolding read
read_lem d l files o = elim (Bool-cases (leb d.sector_count l.value)) [
  | inl e ↦ rw e
  | inr e ↦
      let lt : l.value < d.sector_count = ground arith in
      rw (
        e,
        offset_small l (omega arith),
        read_at_lem (files d.file) (l.value * sector_size) o.healthy (omega arith),
      )
]

pub write_in_range :
    (d : DskFile) (l : Lsn) (s : Sector) (files : Files)
    → IsOpen d files
    → d.read_only ≡ false
    → l.value < d.sector_count
    → write d l s files ≡ (
      ok tt,
      update files d.file
          (record (files d.file) { bytes = splice (files d.file).bytes (l.value * sector_size) s }),
    )
unfolding write
write_in_range d l s files o w h =
    let g : leb d.sector_count l.value ≡ false = ground arith in
    ground (arith, w, g, o.healthy, offset_small l (omega (arith, o.small)))

pub stored-splice :
    (f : HostFile) (l k : ℕ) (s : Sector)
    → length s ≡ sector_size
    → l * sector_size + sector_size ≤ length f.bytes
    → stored (record f { bytes = splice f.bytes (l * sector_size) s }) k
      ≡ (if l == k then s else stored f k)
stored-splice f l k s n h = elim (dec_lt l k) [
  | yes p ↦
      let e : (l == k) ≡ false = ground arith in
      rw e (
        window-splice_after f.bytes (l * sector_size) s inside (k * sector_size) sector_size
          (omega arith))
  | no p ↦ elim (dec_lt k l) [
    | yes q ↦
        let e : (l == k) ≡ false = ground arith in
        rw e (
          window-splice_before f.bytes (l * sector_size) s inside (k * sector_size) sector_size
            (omega arith))
    | no q ↦
        let eq : l ≡ k = omega arith in
        let e : (l == k) ≡ true = ground arith in
        rw (e, ← eq) (rw n at (window-splice_self f.bytes (l * sector_size) s inside))
  ]
]
  where
    inside : l * sector_size + length s ≤ length f.bytes
    inside = omega arith

-- What `write` leaves in the file of its handle.
abbrev pub rewritten : HostFile → ℕ → Sector → HostFile
rewritten f l s = record f { bytes = splice f.bytes (l * sector_size) s }

update_lem :
    (files : Files) (i j : ℕ) (f : HostFile) → update files i f j ≡ (if i == j then f else files j)
update_lem files i j f = refl

module _ (d e : DskFile) (l k : Lsn) (s : Sector) (files : Files) (od : IsOpen d files)
    (oe : IsOpen e files) (w : d.read_only ≡ false) (hl : l.value < d.sector_count)
    (n : length s ≡ sector_size) where
  rewritten-length : length (rewritten (files d.file) l.value s).bytes ≡ length (files d.file).bytes
  rewritten-length =
      length-splice (files d.file).bytes (l.value * sector_size) s (omega (arith, od.fits))

  -- A write in range of a whole sector leaves every open image open: its file as long as its sector
  -- count says and without a fault.
  pub write-IsOpen : IsOpen e (write d l s files).1
  write-IsOpen = rw (write_in_range d l s files od w hl) (elim (Bool-cases (d.file == e.file)) [
    | inl p ↦
        let q : d.file ≡ e.file = (==_iff _ _).0 p in
        record {
          fits =
              rw p (omega (arith, rewritten-length, ap (λ i. length (files i).bytes) q, oe.fits));
          small = oe.small;
          healthy = rw p od.healthy;
        }
    | inr p ↦ record { fits = rw p oe.fits; small = oe.small; healthy = rw p oe.healthy }
  ])

  stored-write :
      stored ((write d l s files).1 e.file) k.value
      ≡ (if d.file == e.file && l.value == k.value then s else stored (files e.file) k.value)
  stored-write = rw (write_in_range d l s files od w hl) (elim (Bool-cases (d.file == e.file)) [
    | inl p ↦
        rw (p, ← (==_iff _ _).0 p)
          (stored-splice (files d.file) l.value k.value s n (omega (arith, od.fits)))
    | inr p ↦ rw p
  ])

  -- After a write in range through a handle that may write, a read through any handle on an open
  -- image gives the new sector at that sector of that file, what it gave before at every other
  -- sector below its count, and an out-of-range error from its count on.
  pub read-write : read e k (write d l s files).1 ≡ (
      if leb e.sector_count k.value
      then err (out_of_range k)
      else ok (if d.file == e.file && l.value == k.value then s else stored (files e.file) k.value))
  read-write = rw (read_lem e k (write d l s files).1 write-IsOpen, stored-write)

-- A disk that opens is the file that the path names, keeps its mode, and is an open image whose
-- sectors are all that the file holds whole.
open_dsk_lem :
    (directory : Directory) (files : Files) (path : List ℕ) (ro : Bool) (d : DskFile)
    → open_dsk directory files path ro ≡ ok d
    → (directory path (not ro) ≡ ok d.file)
      × (d.read_only ≡ ro)
      × (d.sector_count ≡ length (files d.file).bytes / sector_size % 2 ^ 32)
      × ((files d.file).fault ≡ none)
unfolding open_dsk
open_dsk_lem directory files path ro d h = ground arith

-- A path that the host opens, to a file without a fault, gives a disk of all of the file's whole sectors.
pub open_dsk_of_ok :
    (directory : Directory) (files : Files) (path : List ℕ) (ro : Bool) (id : ℕ)
    → directory path (not ro) ≡ ok id
    → (files id).fault ≡ none
    → open_dsk directory files path ro
      ≡ ok (record {
        path = path;
        file = id;
        sector_count = length (files id).bytes / sector_size % 2 ^ 32;
        read_only = ro;
      })
unfolding open_dsk
open_dsk_of_ok directory files path ro id h k = ground arith

pub open_dsk-path :
    (directory : Directory) (files : Files) (path : List ℕ) (ro : Bool) (d : DskFile)
    → open_dsk directory files path ro ≡ ok d
    → d.path ≡ path
unfolding open_dsk
open_dsk-path directory files path ro d h = ground arith

-- A disk that DskFile::open returns is an open image: its file is at least as long as its sector
-- count says, the count fits 32 bits, and the file has no fault.
pub open_dsk-IsOpen :
    (directory : Directory) (files : Files) (path : List ℕ) (ro : Bool) (d : DskFile)
    → open_dsk directory files path ro ≡ ok d
    → IsOpen d files
open_dsk-IsOpen directory files path ro d h =
    let (named, mode, count, healthy) = open_dsk_lem directory files path ro d h in
    record { fits = omega arith; small = omega arith; healthy = healthy }
