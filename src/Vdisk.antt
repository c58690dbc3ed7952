-- ===== src/Vdisk.antt =====
-- crates/drivewire-vdisk/src/lib.rs: sectors of 256 bytes over a flat image file.
pub mod Splice
pub mod Laws
pub mod Bytes
pub mod Trait
use drivewire_rs.Prelude.{
  ℕ, zero, suc, ◌+◌, ◌-◌, ◌*◌, ◌/◌, ◌%◌, ◌^◌, Bool, true, false, not, Option, none, some, List, [],
  ◌∷◌, ◌++◌, Result, ok, err, leb, ◌==◌, take, drop, replicate, length, if◌then◌else◌,
}
use drivewire_rs.Io.{IoKind, unexpected_eof, split_exact}
use drivewire_rs.Proto.Lsn.{Lsn}

abbrev pub sector_size : ℕ
sector_size = 256

abbrev pub Sector : Type 0
Sector = List ℕ

pub data VDiskError : Type 0 where
  out_of_range : Lsn → VDiskError
  read_only : VDiskError
  io : IoKind → VDiskError

-- A file of the host. With a fault every operation on it fails in that way.
pub record HostFile : Type 0 where
  pub bytes : List ℕ
  pub fault : Option IoKind

-- Open files refer to the host's files by number, so two handles may share one.
abbrev pub Files : Type 0
Files = ℕ → HostFile

abbrev pub update : Files → ℕ → HostFile → Files
update files id f j = if id == j then f else files j

-- What `OpenOptions::open` answers for a path, with write access or without.
abbrev pub Directory : Type 0
Directory = List ℕ → Bool → Result IoKind ℕ

-- `struct DskFile`; `file` is the number of the open file.
pub record DskFile : Type 0 where
  pub path : List ℕ
  pub file : ℕ
  pub sector_count : ℕ
  pub read_only : Bool

-- The part of `DskFile::open` behind the successful `open`.
measured : List ℕ → Bool → ℕ → HostFile → Result VDiskError DskFile
measured path ro id f = elim f.fault [
  | some kind ↦ err (VDiskError.io kind)
  | none ↦ ok (record {
    path = path;
    file = id;
    sector_count = length f.bytes / sector_size % 2 ^ 32;
    read_only = ro;
  })
]

-- `DskFile::open`
unfoldable pub open_dsk : Directory → Files → List ℕ → Bool → Result VDiskError DskFile
unfolding measured
open_dsk directory files path ro = elim (directory path (not ro)) [
  | err kind ↦ err (VDiskError.io kind)
  | ok id ↦ measured path ro id (files id)
]

-- The byte offset that both operations seek to, a `u64`.
abbrev pub offset : Lsn → ℕ
offset lsn = lsn.value * sector_size % 2 ^ 64

-- `seek` and `read_exact` of one sector.
unfoldable pub read_at : HostFile → ℕ → Result VDiskError Sector
unfolding split_exact
read_at f start = elim f.fault [
  | some kind ↦ err (VDiskError.io kind)
  | none ↦ elim (split_exact sector_size (drop start f.bytes)) [
    | none ↦ err (VDiskError.io unexpected_eof)
    | some (sector, _) ↦ ok sector
  ]
]

-- The bytes of a file after a write at an offset: a gap before it reads as zeros.
unfoldable pub splice : List ℕ → ℕ → List ℕ → List ℕ
splice bytes start new =
    take start bytes
    ++ (replicate (start - length bytes) 0 ++ (new ++ drop (start + length new) bytes))

-- `DskFile::read`
unfoldable pub read : DskFile → Lsn → Files → Result VDiskError Sector
read d lsn files =
    if leb d.sector_count lsn.value
    then err (out_of_range lsn)
    else read_at (files d.file) (offset lsn)

write_at : ℕ → ℕ → Sector → Files → Result VDiskError (Unit {0}) × Files
unfolding splice
write_at id start sector files =
    let f = files id in
    elim f.fault [
      | some kind ↦ (err (VDiskError.io kind), files)
      | none ↦ (ok tt, update files id (record f { bytes = splice f.bytes start sector }))
    ]

-- `DskFile::write`: the read-only test comes before the range test.
unfoldable pub write : DskFile → Lsn → Sector → Files → Result VDiskError (Unit {0}) × Files
unfolding write_at
write d lsn sector files =
    if d.read_only
    then (err VDiskError.read_only, files)
    else if leb d.sector_count lsn.value
    then (err (out_of_range lsn), files)
    else write_at d.file (offset lsn) sector files
