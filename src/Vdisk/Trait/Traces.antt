-- ===== src/Vdisk/Trait/Traces.antt =====
-- Any sequence of calls through any disks that keep the contract is one on abstract disks.
use drivewire_rs.Prelude.{
  ℕ, ◌≡◌, refl, ap, ◌∙◌, fun_ext, List, [], ◌∷◌, Result, ok, err, length, All,
}
use drivewire_rs.Vdisk.{Files, Sector, VDiskError, sector_size}
use drivewire_rs.Vdisk.Trait.{
  VDisk, Contents, contents_of, Request, read_sector, write_sector, Answer, sector_is, written,
  refused, reads_as, write_answer, writes_as, Contract,
}

-- A disk and the file that it is on.
abbrev pub Handle : Type 0
Handle = VDisk × ℕ

abbrev pub read_result : Result VDiskError Sector → Answer
read_result (ok sector) = sector_is sector
read_result (err e) = refused e

abbrev pub write_result : Result VDiskError (Unit {0}) → Answer
write_result (ok _) = written
write_result (err e) = refused e

-- One call through a handle.
abbrev pub call : Handle → Request → Files → Answer × Files
call h (read_sector lsn) files = (read_result (h.0.read lsn files), files)
call h (write_sector lsn sector) files =
    let (r, files') = h.0.write lsn sector files in (write_result r, files')

unfoldable pub calls : List (Handle × Request) → Files → List Answer × Files
calls [] files = ([], files)
calls ((h, r) ∷ rest) files =
    let (answer, files') = call h r files in
    let (answers, files'') = calls rest files' in (answer ∷ answers, files'')

-- The same call of the abstract disk.
abbrev pub abstract_call : Handle → Request → Contents → Answer × Contents
abstract_call h (read_sector lsn) c = (read_result (reads_as h.0 h.1 lsn c), c)
abstract_call h (write_sector lsn sector) c =
    (write_result (write_answer h.0 lsn), writes_as h.0 h.1 lsn sector c)

unfoldable pub abstract_calls : List (Handle × Request) → Contents → List Answer × Contents
abstract_calls [] c = ([], c)
abstract_calls ((h, r) ∷ rest) c =
    let (answer, c') = abstract_call h r c in
    let (answers, c'') = abstract_calls rest c' in (answer ∷ answers, c'')

-- What is written is a whole sector.
abbrev pub IsWhole : Request → Type 0
IsWhole (read_sector lsn) = Unit
IsWhole (write_sector lsn sector) = length sector ≡ sector_size

-- The contents are the abstract ones, and the files are still good.
abbrev pub Agrees : (Files → Type 0) → List Answer × Files → List Answer × Contents → Type 0
Agrees Good (answers, files) (answers', c) =
    (answers ≡ answers') × (contents_of files ≡ c) × Good files

module _ (Good : Files → Type 0) where
  call-Agrees :
      (h : Handle) (r : Request) (files : Files)
      → Contract Good h.0 h.1
      → IsWhole r
      → Good files
      → ((call h r files).0 ≡ (abstract_call h r (contents_of files)).0)
        × (contents_of (call h r files).1 ≡ (abstract_call h r (contents_of files)).1)
        × Good (call h r files).1
  call-Agrees h (read_sector lsn) files k w g = (ap read_result (k.reads lsn files g), refl, g)
  call-Agrees h (write_sector lsn sector) files k w g = (
    ap write_result (k.answers lsn sector files g w),
    fun_ext (λ j. fun_ext (λ n. k.stores lsn sector files j n g w)),
    k.stays_good lsn sector files g w,
  )

  -- Each request is of a disk that keeps the contract, and writes whole sectors.
  abbrev pub IsServed : Handle × Request → Type 0
  IsServed (h, r) = Contract Good h.0 h.1 × IsWhole r

  -- Through any disks that keep the contract, in any order, also where several are on one file: every
  -- read and write is answered as by the abstract disks, and the sectors of all files end as theirs.
  pub calls-Agrees :
      (run : List (Handle × Request)) (files : Files)
      → All IsServed run
      → Good files
      → Agrees Good (calls run files) (abstract_calls run (contents_of files))
  unfolding calls abstract_calls
  calls-Agrees [] files k g = (refl, refl, g)
  calls-Agrees ((h, r) ∷ run) files k g =
      let (answer, contents, good) = call-Agrees h r files k.0.0 k.0.1 g in
      let (answers, end, still) = calls-Agrees run (call h r files).1 k.1 good in
      let rest = ap (λ c. abstract_calls run c) contents in
      (λ i. answer i ∷ (answers ∙ ap (λ o. o.0) rest) i, end ∙ ap (λ o. o.1) rest, still)
