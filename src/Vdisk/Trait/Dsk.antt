-- ===== src/Vdisk/Trait/Dsk.antt =====
-- `impl VDisk for DskFile` of crates/drivewire-vdisk/src/lib.rs: mounted images keep the contract.
use mathlib.Core.Option.{some_inj}
use drivewire_rs.Prelude.{
  ℕ, zero, suc, ◌<◌, ◌≡◌, sym, ap, subst, ◌∙◌, some, get_elem?, true, false, ◌&&◌, List, [], ◌∷◌,
  ◌==◌, if◌then◌else◌, length, All, Bool-cases, ==_iff, inl, inr, arith,
}
use drivewire_rs.Text.{Text}
use drivewire_rs.Proto.Lsn.{Lsn}
use drivewire_rs.Vdisk.{DskFile, Files, Sector, sector_size, read, write}
use drivewire_rs.Vdisk.Laws.{IsOpen, read_lem, write_in_range, stored-splice, write-IsOpen}
use drivewire_rs.Vdisk.Trait.{VDisk, contents_of, write_answer, takes, writes_as, Contract}

-- `DskFile::path`
unfoldable pub path : DskFile → Text
path d = d.path

unfoldable pub as_disk : DskFile → VDisk
unfolding path
as_disk d = record {
  read = read d;
  write = write d;
  sector_count = d.sector_count;
  is_read_only = d.read_only;
  name = path d;
}

-- Images that are all open.
abbrev pub AllOpen : List DskFile → Files → Type 0
AllOpen images files = All (λ e. IsOpen e files) images

write_refused :
    (d : DskFile) (lsn : Lsn) (sector : Sector) (files : Files)
    → takes (as_disk d) lsn ≡ false
    → write d lsn sector files ≡ (write_answer (as_disk d) lsn, files)
unfolding write as_disk
write_refused d lsn sector files h = ground arith

taken_lem :
    (d : DskFile) (lsn : Lsn)
    → takes (as_disk d) lsn ≡ true
    → (d.read_only ≡ false) × (lsn.value < d.sector_count)
unfolding as_disk
taken_lem d lsn h = ground arith

-- An open image among the others.
member_open :
    (images : List DskFile) (i : ℕ) (d : DskFile) (files : Files)
    → get_elem? images i ≡ some d
    → AllOpen images files
    → IsOpen d files
member_open [] i d files m g = cc
member_open (e ∷ images) zero d files m g = subst (λ x. IsOpen x files) (some_inj.0 m) g.0
member_open (e ∷ images) (suc i) d files m g = member_open images i d files m g.1

all_open :
    (images : List DskFile) (files files' : Files)
    → ((e : DskFile) → IsOpen e files → IsOpen e files')
    → AllOpen images files
    → AllOpen images files'
all_open [] files files' f g = tt
all_open (e ∷ images) files files' f g = (f e g.0, all_open images files files' f g.1)

module _ (images : List DskFile) (i : ℕ) (d : DskFile) (m : get_elem? images i ≡ some d) (lsn : Lsn)
    (sector : Sector) (files : Files) (g : AllOpen images files)
    (w : length sector ≡ sector_size) where
  opened : IsOpen d files
  opened = member_open images i d files m g

  write_answers : (write d lsn sector files).0 ≡ write_answer (as_disk d) lsn
  unfolding as_disk
  write_answers = elim (Bool-cases (takes (as_disk d) lsn)) [
    | inl e ↦
        let (ro, lt) = taken_lem d lsn e in
        ap (λ o. o.0) (write_in_range d lsn sector files opened ro lt) ∙ ground arith
    | inr e ↦ ap (λ o. o.0) (write_refused d lsn sector files e)
  ]

  written_at :
      (j k : ℕ)
      → (d.read_only ≡ false) × (lsn.value < d.sector_count)
      → contents_of (write d lsn sector files).1 j k
        ≡ (if d.file == j && lsn.value == k then sector else contents_of files j k)
  written_at j k (ro, lt) =
      rw (write_in_range d lsn sector files opened ro lt) (elim (Bool-cases (d.file == j)) [
        | inl p ↦
            rw (p, ← (==_iff _ _).0 p)
              (stored-splice (files d.file) lsn.value k sector w (omega (arith, opened.fits)))
        | inr p ↦ rw p
      ])

  write_stores :
      (j k : ℕ)
      → contents_of (write d lsn sector files).1 j k
        ≡ writes_as (as_disk d) d.file lsn sector (contents_of files) j k
  write_stores j k = elim (Bool-cases (takes (as_disk d) lsn)) [
    | inl e ↦ rw e (written_at j k (taken_lem d lsn e))
    | inr e ↦ rw e (ap (λ o. contents_of o.1 j k) (write_refused d lsn sector files e))
  ]

  write_opens : AllOpen images (write d lsn sector files).1
  write_opens = elim (Bool-cases (takes (as_disk d) lsn)) [
    | inl e ↦
        let (ro, lt) = taken_lem d lsn e in
        all_open images files (write d lsn sector files).1
          (λ x o. write-IsOpen d x lsn lsn sector files opened o ro lt w) g
    | inr e ↦ subst (AllOpen images) (sym (ap (λ o. o.1) (write_refused d lsn sector files e))) g
  ]

-- Each of several open images, which may be on one file, keeps the contract on its file, as long as all of
-- them are open.
pub dsk-Contract :
    (images : List DskFile) (i : ℕ) (d : DskFile)
    → get_elem? images i ≡ some d
    → Contract (AllOpen images) (as_disk d) d.file
unfolding as_disk
dsk-Contract images i d m = record {
  reads = λ lsn files g. read_lem d lsn files (member_open images i d files m g);
  answers = λ lsn sector files g w. write_answers images i d m lsn sector files g w;
  stores = λ lsn sector files j k g w. write_stores images i d m lsn sector files g w j k;
  stays_good = λ lsn sector files g w. write_opens images i d m lsn sector files g w;
}
