-- ===== src/Vdisk/Trait.antt =====
-- The trait `VDisk` of crates/drivewire-vdisk/src/lib.rs: its operations, what a client may count on, and an
-- abstract disk.
pub mod Dsk
pub mod Traces
pub mod Images
use drivewire_rs.Prelude.{
  ℕ, Bool, true, false, not, ◌&&◌, ◌≡◌, List, [], ◌∷◌, Result, ok, err, leb, ◌==◌, if◌then◌else◌,
  length,
}
use drivewire_rs.Text.{Text, chars}
use drivewire_rs.Proto.Lsn.{Lsn}
use drivewire_rs.Vdisk.{Files, Sector, VDiskError, out_of_range, sector_size}
use drivewire_rs.Vdisk.Laws.{stored}

-- The methods of a disk behind `dyn VDisk`, over the host's files.
pub record VDisk : Type 0 where
  pub read : Lsn → Files → Result VDiskError Sector
  pub write : Lsn → Sector → Files → Result VDiskError (Unit {0}) × Files
  pub sector_count : ℕ
  pub is_read_only : Bool
  pub name : Text

-- The methods that an implementation may leave out.
abbrev pub default_is_read_only : Bool
default_is_read_only = false

abbrev pub default_name : Text
default_name = chars "<unnamed>"

-- The sectors of each file.
abbrev pub Contents : Type 0
Contents = ℕ → ℕ → Sector

abbrev pub contents_of : Files → Contents
contents_of files id sector = stored (files id) sector

-- A call of a disk, and what it answers.
pub data Request : Type 0 where
  read_sector : Lsn → Request
  write_sector : Lsn → Sector → Request

pub data Answer : Type 0 where
  sector_is : Sector → Answer
  written : Answer
  refused : VDiskError → Answer

-- The abstract disk: an array of sectors that may be written or not.
abbrev pub reads_as : VDisk → ℕ → Lsn → Contents → Result VDiskError Sector
reads_as v id lsn c =
    if leb v.sector_count lsn.value then err (out_of_range lsn) else ok (c id lsn.value)

abbrev pub write_answer : VDisk → Lsn → Result VDiskError (Unit {0})
write_answer v lsn =
    if v.is_read_only
    then err VDiskError.read_only
    else if leb v.sector_count lsn.value
    then err (out_of_range lsn)
    else ok tt

abbrev pub takes : VDisk → Lsn → Bool
takes v lsn = not v.is_read_only && not (leb v.sector_count lsn.value)

abbrev pub writes_as : VDisk → ℕ → Lsn → Sector → Contents → Contents
writes_as v id lsn sector c j k =
    if takes v lsn && (id == j && lsn.value == k) then sector else c j k

-- What a client may count on, of a disk on file `id`, as long as the files are `Good`: it is the abstract
-- disk, and its writes keep the files so.
pub record Contract (Good : Files → Type 0) (v : VDisk) (id : ℕ) : Type 0 where
  pub reads :
      (lsn : Lsn) (files : Files)
      → Good files
      → v.read lsn files ≡ reads_as v id lsn (contents_of files)
  pub answers :
      (lsn : Lsn) (sector : Sector) (files : Files)
      → Good files
      → length sector ≡ sector_size
      → (v.write lsn sector files).0 ≡ write_answer v lsn
  pub stores :
      (lsn : Lsn) (sector : Sector) (files : Files) (j k : ℕ)
      → Good files
      → length sector ≡ sector_size
      → contents_of (v.write lsn sector files).1 j k
        ≡ writes_as v id lsn sector (contents_of files) j k
  pub stays_good :
      (lsn : Lsn) (sector : Sector) (files : Files)
      → Good files
      → length sector ≡ sector_size
      → Good (v.write lsn sector files).1
