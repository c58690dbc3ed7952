-- ===== src/Server/Handlers/Bytes.antt =====
-- Every byte that a session stores or sends fits the `u8` that the code keeps it in.
use drivewire_rs.Prelude.{
  ℕ, zero, suc, ◌+◌, ◌≤◌, ◌<◌, ◌≡◌, refl, Option, none, some, List, [], ◌∷◌, arith, Bool-cases, inl,
  inr, Result, ok, err, ltb, All, IsByte, IsBytes, get_or, length,
}
use drivewire_rs.Prelude.Bytes.{replicate-All, set-All, get_or-All}
use drivewire_rs.Vdisk.Bytes.{AreBytes, SectorIsBytes, read-IsBytes, write-AreBytes}
use drivewire_rs.Proto.ErrorCode
use drivewire_rs.Proto.Lsn.{Lsn}
use drivewire_rs.Prelude.Int.{ℤ, pos, negsuc}
use drivewire_rs.Vdisk
use drivewire_rs.Vdisk.{
  Files, HostFile, DskFile, VDiskError, Sector, sector_size, read_at, offset, splice, update,
}
use drivewire_rs.Server.State.{Server, Drives, get, poll, pop_each, read_many, vserial_channels}
use drivewire_rs.Server.Actions.Valid.{IsValid}
use drivewire_rs.Server.Session.{World, Moment}
use drivewire_rs.Server.Handlers.{
  zero_sector, now, served, store, write_status, clamped, time_bytes,
}

-- The queues and the printer hold bytes.
pub record IsTyped (s : Server) : Type 0 where
  pub valid : IsValid s
  pub inboxes : All IsBytes s.vserial_inbox
  pub outboxes : All IsBytes s.vserial_outbox
  pub printed : IsBytes s.print_buffer

-- The parts of a moment that `time` reports as `u8`.
abbrev pub calendar : Moment → List ℕ
calendar m = m.month ∷ m.day ∷ m.hour ∷ m.minute ∷ m.second ∷ []

-- So do the disks, the stream in both directions, and the clock.
pub record IsTypedWorld (w : World) : Type 0 where
  pub server : IsTyped w.server
  pub files : AreBytes w.files
  pub input : IsBytes w.wire.input
  pub output : IsBytes w.wire.output
  pub clock : IsBytes (calendar (now w.clock))

-- Both parts of a poll's answer.
abbrev pub IsAnswer : List ℕ × List (List ℕ) → Type 0
IsAnswer r = IsBytes r.0 × All IsBytes r.1

pub poll-IsBytes :
    (idx : ℕ) (qs : List (List ℕ))
    → idx + length qs ≤ vserial_channels
    → All IsBytes qs
    → IsAnswer (poll idx qs)
unfolding poll
poll-IsBytes idx [] h t = ((omega arith, (omega arith, tt)), tt)
poll-IsBytes idx ([] ∷ qs) h (p, t) =
    let (a, b) = poll-IsBytes (suc idx) qs (omega arith) t in (a, (tt, b))
poll-IsBytes idx ((b ∷ q) ∷ qs) h ((p, t), u) = elim (Bool-cases (ltb (length (b ∷ q)) 3)) [
  | inl e ↦ rw e ((omega arith, (p, tt)), (t, u))
  | inr e ↦ rw e ((omega arith, (omega arith, tt)), ((p, t), u))
]

pop_each-IsBytes :
    (n : ℕ) (q : List ℕ) → IsBytes q → IsBytes (pop_each n q).0 × IsBytes (pop_each n q).1
unfolding pop_each
pop_each-IsBytes zero q h = (tt, h)
pop_each-IsBytes (suc n) [] h = let (a, b) = pop_each-IsBytes n [] h in ((omega arith, a), b)
pop_each-IsBytes (suc n) (x ∷ q) (p, h) = let (a, b) = pop_each-IsBytes n q h in ((p, a), b)

pub read_many-IsBytes :
    (c n : ℕ) (qs : List (List ℕ)) → All IsBytes qs → IsAnswer (read_many c n qs)
unfolding read_many
read_many-IsBytes c n qs h = elim (Bool-cases (ltb c vserial_channels)) [
  | inl e ↦
      let (a, b) = pop_each-IsBytes n (get_or qs c []) (get_or-All IsBytes qs c [] h tt) in
      rw e (a, set-All IsBytes qs c _ h b)
  | inr e ↦ rw e (replicate-All IsByte n 0 (omega arith), h)
]

or_zero-IsBytes :
    (r : Result VDiskError Sector)
    → SectorIsBytes r
    → IsBytes (elim r [ ok sector ↦ sector | err _ ↦ zero_sector ])
or_zero-IsBytes (ok sector) h = h
or_zero-IsBytes (err e) h = replicate-All IsByte sector_size 0 (omega arith)

pub served-IsBytes :
    (drives : Drives) (files : Files) (slot : ℕ) (l : Lsn)
    → AreBytes files
    → IsBytes (served drives files slot l)
unfolding served
served-IsBytes drives files slot l h =
    elim (get slot drives)
      as (λ o. IsBytes (elim o [
        | none ↦ zero_sector
        | some d ↦ elim (Vdisk.read d l files) [ ok sector ↦ sector | err _ ↦ zero_sector ]
      ])) [
        | none ↦ replicate-All IsByte sector_size 0 (omega arith)
        | some d ↦ or_zero-IsBytes (Vdisk.read d l files) (read-IsBytes d l files h)
      ]

pub write_status-lt : (r : Result VDiskError (Unit {0})) → write_status r < 256
unfolding write_status ErrorCode.to_byte
write_status-lt (ok _) = omega arith
write_status-lt (err e) = omega arith

store_in-IsBytes :
    (drives : Drives) (files : Files) (slot : ℕ) (l : Lsn) (sector : Sector)
    → AreBytes files
    → IsBytes sector
    → (mounted : Option DskFile) → get slot drives ≡ mounted
    → ((store drives files slot l sector).0 < 256) × AreBytes (store drives files slot l sector).1
unfolding store ErrorCode.to_byte
store_in-IsBytes drives files slot l sector h k none e = rw (store, e) (omega arith, h)
store_in-IsBytes drives files slot l sector h k (some d) e =
    rw (store, e)
      (write_status-lt (Vdisk.write d l sector files).0, write-AreBytes d l sector files h k)

pub store-IsBytes :
    (drives : Drives) (files : Files) (slot : ℕ) (l : Lsn) (sector : Sector)
    → AreBytes files
    → IsBytes sector
    → ((store drives files slot l sector).0 < 256) × AreBytes (store drives files slot l sector).1
store-IsBytes drives files slot l sector h k =
    store_in-IsBytes drives files slot l sector h k (get slot drives) refl

clamped-lt : (z : ℤ) → clamped z < 256
unfolding clamped
clamped-lt (pos n) = omega arith
clamped-lt (negsuc n) = omega arith

pub time_bytes-IsBytes : (m : Moment) → IsBytes (calendar m) → IsBytes (time_bytes m)
unfolding time_bytes
time_bytes-IsBytes m h = (clamped-lt _, h)
