-- ===== src/Vdisk/Bytes.antt =====
-- Images of bytes: what a read gives and what a write leaves.
use drivewire_rs.Prelude.{
  ℕ, ◌-◌, ◌≡◌, refl, Option, none, some, List, arith, Bool-cases, inl, inr, Result, ok, err, leb,
  ◌==◌, IsByte, IsBytes, drop, length,
}
use native.Mathlib.Decide.{dec_le}
use drivewire_rs.Prelude.Bytes.{append-All, take-All, drop-All, replicate-All}
use drivewire_rs.Io.{IoKind}
use drivewire_rs.Io.Laws.{split_exact_enough, split_exact_short}
use drivewire_rs.Proto.Lsn.{Lsn}
use drivewire_rs.Vdisk.{
  DskFile, Files, HostFile, Sector, VDiskError, sector_size, update, offset, splice, read_at, read,
  write_at, write,
}

abbrev pub AreBytes : Files → Type 0
AreBytes files = (id : ℕ) → IsBytes (files id).bytes

-- The sector of a read, if it gives one.
abbrev pub SectorIsBytes : Result VDiskError Sector → Type 0
SectorIsBytes (ok sector) = IsBytes sector
SectorIsBytes (err e) = Unit

read_at-IsBytes :
    (bytes : List ℕ) (fault : Option IoKind) (start : ℕ)
    → IsBytes bytes
    → SectorIsBytes (read_at (record { bytes = bytes; fault = fault }) start)
unfolding read_at
read_at-IsBytes bytes (some kind) start h = tt
read_at-IsBytes bytes none start h = elim (dec_le sector_size (length (drop start bytes))) [
  | yes l ↦
      rw (read_at, split_exact_enough sector_size (drop start bytes) l)
        (take-All IsByte sector_size (drop start bytes) (drop-All IsByte start bytes h))
  | no l ↦ rw (read_at, split_exact_short sector_size (drop start bytes) (omega arith)) tt
]

pub read-IsBytes :
    (d : DskFile) (l : Lsn) (files : Files) → AreBytes files → SectorIsBytes (read d l files)
unfolding read
read-IsBytes d l files h = elim (Bool-cases (leb d.sector_count l.value)) [
  | inl e ↦ rw e tt
  | inr e ↦ rw e (read_at-IsBytes (files d.file).bytes (files d.file).fault (offset l) (h d.file))
]

splice-IsBytes :
    (bytes : List ℕ) (start : ℕ) (new : List ℕ)
    → IsBytes bytes
    → IsBytes new
    → IsBytes (splice bytes start new)
unfolding splice
splice-IsBytes bytes start new h k = append-All IsByte _ _ (take-All IsByte start bytes h) (
    append-All IsByte _ _ (replicate-All IsByte (start - length bytes) 0 (omega arith))
      (append-All IsByte _ _ k (drop-All IsByte _ bytes h)))

update-AreBytes :
    (files : Files) (id : ℕ) (f : HostFile)
    → AreBytes files
    → IsBytes f.bytes
    → AreBytes (update files id f)
update-AreBytes files id f h k j = elim (Bool-cases (id == j)) [
  | inl e ↦ rw e k
  | inr e ↦ rw e (h j)
]

write_at-AreBytes :
    (id start : ℕ) (sector : Sector) (files : Files)
    → AreBytes files
    → IsBytes sector
    → (fault : Option IoKind) → (files id).fault ≡ fault
    → AreBytes (write_at id start sector files).1
unfolding write_at
write_at-AreBytes id start sector files h k (some kind) e = rw (write_at, e) h
write_at-AreBytes id start sector files h k none e =
    rw (write_at, e) (update-AreBytes files id _ h (splice-IsBytes _ start sector (h id) k))

pub write-AreBytes :
    (d : DskFile) (l : Lsn) (sector : Sector) (files : Files)
    → AreBytes files
    → IsBytes sector
    → AreBytes (write d l sector files).1
unfolding write
write-AreBytes d l sector files h k = elim (Bool-cases d.read_only) [
  | inl e ↦ rw e h
  | inr e ↦ rw e (elim (Bool-cases (leb d.sector_count l.value)) [
    | inl e' ↦ rw e' h
    | inr e' ↦
        rw e' (write_at-AreBytes d.file (offset l) sector files h k (files d.file).fault refl)
  ])
]
