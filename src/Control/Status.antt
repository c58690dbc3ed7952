-- ===== src/Control/Status.antt =====
-- The rows of STATUS: `drive_summary` and `vserial_summary`.
use drivewire_rs.Prelude.{
  ℕ, ◌<◌, ◌≡◌, ◌≢◌, refl, ◌∙◌, Option, none, some, List, [], ◌∷◌, arith, ◌==◌, leb, All, Bool-cases,
  inl, inr, map, if◌then◌else◌,
}
use drivewire_rs.Vdisk.{DskFile}
use drivewire_rs.Server.State.{Server, Drives, get, mount, unmount, insert, remove}
use drivewire_rs.Server.State.{
  push_vserial, set_channel_open, send_to_vserial, drain_vserial, wait_vserial_inbox,
}
use drivewire_rs.Server.Handlers.{extend_inbox}
use drivewire_rs.Server.Actions.{
  Action, write, write_many, poll_one, poll_many, open_channel, host_send, host_drain, host_wait,
  mount_disk, unmount_disk, print_byte, print_flush, perform, perform_all,
}
use drivewire_rs.Text.{Text}
use drivewire_rs.Control.{DriveRow, drive_row, insert_row, sort_rows, drive_summary}
use drivewire_rs.Control.Reply.{insert_row-All, sort_rows-All}

-- The name and the sector count in the row of a slot.
unfoldable pub find_row : ℕ → List DriveRow → Option (Text × ℕ)
find_row slot [] = none
find_row slot (row ∷ rows) = if row.0 == slot then some (row.1, row.2) else find_row slot rows

unfoldable pub shown_disk : Option DskFile → Option (Text × ℕ)
shown_disk none = none
shown_disk (some d) = some (d.path, d.sector_count)

-- Rows in rising order of their slots, no two of one slot.
abbrev pub IsRising : List DriveRow → Type 0
IsRising [] = Unit
IsRising (row ∷ rows) = All (λ r. row.0 < r.0) rows × IsRising rows

-- No two entries are of one slot.
abbrev pub IsDistinct : Drives → Type 0
IsDistinct [] = Unit
IsDistinct (p ∷ rest) = All (λ q. p.0 ≢ q.0) rest × IsDistinct rest

find_row-insert_row :
    (slot : ℕ) (row : DriveRow) (rows : List DriveRow)
    → find_row slot (insert_row row rows)
      ≡ (if row.0 == slot then some (row.1, row.2) else find_row slot rows)
unfolding find_row insert_row
find_row-insert_row slot row [] = refl
find_row-insert_row slot row (r ∷ rows) = elim (Bool-cases (leb row.0 r.0)) [
  | inl e ↦ rw e refl
  | inr e ↦ ground (arith, find_row-insert_row slot row rows, e)
]

find_row-sort_rows :
    (slot : ℕ) (drives : Drives)
    → find_row slot (sort_rows (map drive_row drives)) ≡ shown_disk (get slot drives)
unfolding find_row sort_rows shown_disk get
find_row-sort_rows slot [] = refl
find_row-sort_rows slot ((j, d) ∷ rest) =
    find_row-insert_row slot (drive_row (j, d)) (sort_rows (map drive_row rest))
    ∙ ground (arith, find_row-sort_rows slot rest)

insert_row-IsRising :
    (row : DriveRow) (rows : List DriveRow)
    → All (λ r. row.0 ≢ r.0) rows
    → IsRising rows
    → IsRising (insert_row row rows)
unfolding insert_row
insert_row-IsRising row [] n h = (tt, tt)
insert_row-IsRising row (r ∷ rows) (n, ns) (b, h) = elim (Bool-cases (leb row.0 r.0)) [
  | inl e ↦
      let below : row.0 < r.0 = ground arith in rw e ((below, above row.0 r.0 rows below b), (b, h))
  | inr e ↦
      rw e (
        insert_row-All (λ q. r.0 < q.0) row rows (ground arith) b,
        insert_row-IsRising row rows ns h,
      )
]
  where
    above :
        (i j : ℕ) (rows : List DriveRow) → i < j → All (λ q. j < q.0) rows → All (λ q. i < q.0) rows
    above i j [] l h = tt
    above i j (q ∷ rows) l (k, h) = (omega arith, above i j rows l h)

rows-distinct :
    (slot : ℕ) (drives : Drives)
    → All (λ q. slot ≢ q.0) drives
    → All (λ r. slot ≢ r.0) (map drive_row drives)
rows-distinct slot [] h = tt
rows-distinct slot (p ∷ rest) (n, h) = (n, rows-distinct slot rest h)

sort_rows-IsRising :
    (drives : Drives) → IsDistinct drives → IsRising (sort_rows (map drive_row drives))
unfolding sort_rows
sort_rows-IsRising [] h = tt
sort_rows-IsRising (p ∷ rest) (n, h) =
    insert_row-IsRising (drive_row p) (sort_rows (map drive_row rest))
      (sort_rows-All (λ r. p.0 ≢ r.0) (map drive_row rest) (rows-distinct p.0 rest n))
      (sort_rows-IsRising rest h)

-- On a server whose drives have distinct slots, the rows of drive_summary rise in their slots, and a
-- slot has a row just when a disk is mounted there, with that disk's path and sector count.
pub drive_summary_lem :
    (s : Server)
    → IsDistinct s.drives
    → IsRising (drive_summary s)
      × ((slot : ℕ) → find_row slot (drive_summary s) ≡ shown_disk (get slot s.drives))
unfolding drive_summary
drive_summary_lem s h = (sort_rows-IsRising s.drives h, λ slot. find_row-sort_rows slot s.drives)

module _ {κ} (P : ℕ × DskFile → Type κ) where
  remove-All : (slot : ℕ) (drives : Drives) → All P drives → All P (remove slot drives)
  unfolding remove
  remove-All slot [] h = tt
  remove-All slot (p ∷ rest) (q, h) = elim (Bool-cases (p.0 == slot)) [
    | inl e ↦ rw e (remove-All slot rest h)
    | inr e ↦ rw e (q, remove-All slot rest h)
  ]

remove-absent : (slot : ℕ) (drives : Drives) → All (λ q. slot ≢ q.0) (remove slot drives)
unfolding remove
remove-absent slot [] = tt
remove-absent slot (p ∷ rest) = elim (Bool-cases (p.0 == slot)) [
  | inl e ↦ rw e (remove-absent slot rest)
  | inr e ↦ rw e ((λ q. ground arith), remove-absent slot rest)
]

remove-IsDistinct :
    (slot : ℕ) (drives : Drives) → IsDistinct drives → IsDistinct (remove slot drives)
unfolding remove
remove-IsDistinct slot [] h = tt
remove-IsDistinct slot (p ∷ rest) (n, h) = elim (Bool-cases (p.0 == slot)) [
  | inl e ↦ rw e (remove-IsDistinct slot rest h)
  | inr e ↦ rw e (remove-All (λ q. p.0 ≢ q.0) slot rest n, remove-IsDistinct slot rest h)
]

pub mount-IsDistinct :
    (slot : ℕ) (d : DskFile) (s : Server) → IsDistinct s.drives → IsDistinct (mount slot d s).drives
unfolding mount insert
mount-IsDistinct slot d s h = (remove-absent slot s.drives, remove-IsDistinct slot s.drives h)

unmount-IsDistinct :
    (slot : ℕ) (s : Server) → IsDistinct s.drives → IsDistinct (unmount slot s).drives
unfolding unmount
unmount-IsDistinct slot s h = remove-IsDistinct slot s.drives h

same_drives :
    (a : Action) (s : Server)
    → IsDistinct s.drives
    → (perform a s).drives ≡ s.drives
    → IsDistinct (perform a s).drives
same_drives a s h e = rw e h

pub perform-IsDistinct :
    (a : Action) (s : Server) → IsDistinct s.drives → IsDistinct (perform a s).drives
unfolding perform push_vserial extend_inbox set_channel_open send_to_vserial drain_vserial
    wait_vserial_inbox
perform-IsDistinct (mount_disk slot d) s h = mount-IsDistinct slot d s h
perform-IsDistinct (unmount_disk slot) s h = unmount-IsDistinct slot s h
perform-IsDistinct (write c b) s h = same_drives (write c b) s h (ground arith)
perform-IsDistinct (write_many c bs) s h = same_drives (write_many c bs) s h (ground arith)
perform-IsDistinct poll_one s h = h
perform-IsDistinct (poll_many c n) s h = h
perform-IsDistinct (open_channel c b) s h = same_drives (open_channel c b) s h (ground arith)
perform-IsDistinct (host_send c bs) s h = same_drives (host_send c bs) s h (ground arith)
perform-IsDistinct (host_drain c) s h = same_drives (host_drain c) s h (ground arith)
perform-IsDistinct (host_wait c) s h = same_drives (host_wait c) s h (ground arith)
perform-IsDistinct (print_byte b) s h = h
perform-IsDistinct print_flush s h = h

-- Whatever the tasks do, no two entries of the server's drives are of one slot.
pub perform_all-IsDistinct :
    (actions : List Action) (s : Server)
    → IsDistinct s.drives
    → IsDistinct (perform_all actions s).drives
unfolding perform_all
perform_all-IsDistinct [] s h = h
perform_all-IsDistinct (a ∷ rest) s h =
    perform_all-IsDistinct rest (perform a s) (perform-IsDistinct a s h)
