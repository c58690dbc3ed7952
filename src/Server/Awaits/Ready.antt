-- ===== src/Server/Awaits/Ready.antt =====
-- Where in a turn the server is touched: at most once, and a program tells whether it is still to come.
use drivewire_rs.Prelude.{
  ℕ, Bool, true, false, none, some, List, Result, ◌==◌, ◌⊎◌, inl, inr, Bool-cases,
}
use drivewire_rs.Proto.Checksum.{checksum16}
use drivewire_rs.Proto.Opcode.{Opcode, Decoded, from_byte}
use drivewire_rs.Vdisk.{DskFile, Sector, VDiskError}
use drivewire_rs.Server.Session.{Moment, at, from_be2}
use drivewire_rs.Server.Handlers.{open_code, close_code, comst}
use drivewire_rs.Server.Awaits.{
  Program, stop, fetching, receiving, sending, looking, reading, writing, locking, timing,
  reply_body, read_found, read_body, write_found, write_checked, write_body, set_stat_body, op_body,
  body, head,
}
use drivewire_rs.Server.Awaits.Tasks.{HoldsDisk, KeepsDrives}

-- Only the session's own stream is read and written from here on.
abbrev pub Silent : Program → Type 0
Silent stop = Unit
Silent (receiving n k) = (bytes : List ℕ) → Silent (k bytes)
Silent (sending bytes p) = Silent p
Silent _ = ⊥

-- One access to what is shared is still to come, or an end with none: the disk of a looked-up drive is
-- used at once.
abbrev pub Ready : Program → Type 0
Ready stop = ⊥
Ready (fetching k) = (bytes : List ℕ) → Silent (k bytes) ⊎ Ready (k bytes)
Ready (receiving n k) = (bytes : List ℕ) → Silent (k bytes) ⊎ Ready (k bytes)
Ready (sending bytes p) = Ready p
Ready (looking slot k) =
    Silent (k none) × ((d : DskFile) → HoldsDisk (k (some d)) × Ready (k (some d)))
Ready (reading d lsn k) = (r : Result VDiskError Sector) → Silent (k r)
Ready (writing d lsn sector k) = (r : Result VDiskError (Unit {0})) → Silent (k r)
Ready (locking a k) = KeepsDrives a × ((bytes : List ℕ) → Silent (k bytes))
Ready (timing k) = (m : Moment) → Silent (k m)

reply-Silent : (extended : Bool) (sector : Sector) → Silent (reply_body extended sector)
unfolding reply_body
reply-Silent true sector = λ _. tt
reply-Silent false sector = tt

read-Ready : (extended : Bool) → Ready (read_body extended)
unfolding read_body read_found
read-Ready extended hdr = inr (reply-Silent extended _, λ d. (tt, λ r. reply-Silent extended _))

write_checked-Ready :
    (hdr sector sum : List ℕ)
    → Silent (write_checked hdr sector sum) ⊎ Ready (write_checked hdr sector sum)
unfolding write_checked write_found
write_checked-Ready hdr sector sum =
    elim (Bool-cases (from_be2 (at sum 0) (at sum 1) == checksum16 sector)) [
      | inl e ↦ rw e (inr (tt, λ d. (tt, λ r. tt)))
      | inr e ↦ rw e (inl tt)
    ]

write-Ready : Ready write_body
unfolding write_body
write-Ready hdr = inr (λ sector. inr (λ sum. write_checked-Ready hdr sector sum))

set_stat-Ready :
    (channel code : ℕ) → Silent (set_stat_body channel code) ⊎ Ready (set_stat_body channel code)
unfolding set_stat_body
set_stat-Ready channel code = elim (Bool-cases (code == open_code)) [
  | inl e ↦ rw e (inr (tt, λ _. tt))
  | inr e ↦ elim (Bool-cases (code == close_code)) [
    | inl f ↦ rw (e, f) (inr (tt, λ _. tt))
    | inr f ↦ elim (Bool-cases (code == comst)) [
      | inl g ↦ rw (e, f, g) (inl (λ _. tt))
      | inr g ↦ rw (e, f, g) (inl tt)
    ]
  ]
]

op-Ready : (o : Opcode) → Silent (op_body o) ⊎ Ready (op_body o)
unfolding op_body
op-Ready Opcode.nop = inl tt
op-Ready Opcode.reset1 = inl tt
op-Ready Opcode.reset2 = inl tt
op-Ready Opcode.reset3 = inl tt
op-Ready Opcode.read = inr (read-Ready false)
op-Ready Opcode.reread = inr (read-Ready false)
op-Ready Opcode.read_ex = inr (read-Ready true)
op-Ready Opcode.reread_ex = inr (read-Ready true)
op-Ready Opcode.write = inr write-Ready
op-Ready Opcode.rewrite = inr write-Ready
op-Ready Opcode.dw_init = inl (λ _. tt)
op-Ready Opcode.time = inr (λ _. tt)
op-Ready Opcode.init = inl tt
op-Ready Opcode.term = inl tt
op-Ready Opcode.get_stat = inl (λ _. tt)
op-Ready Opcode.set_stat = inl (λ _. tt)
op-Ready Opcode.print = inr (λ _. inr (tt, λ _. tt))
op-Ready Opcode.print_flush = inr (tt, λ _. tt)
op-Ready Opcode.ser_read = inr (tt, λ _. tt)
op-Ready Opcode.ser_read_m = inr (λ _. inr (tt, λ _. tt))
op-Ready Opcode.ser_init = inr (λ _. inr (tt, λ _. tt))
op-Ready Opcode.ser_term = inr (λ _. inr (tt, λ _. tt))
op-Ready Opcode.ser_write = inr (λ _. inr (tt, λ _. tt))
op-Ready Opcode.ser_write_m = inr (λ _. inr (λ _. inr (tt, λ _. tt)))
op-Ready Opcode.ser_set_stat = inr (λ hdr. set_stat-Ready (at hdr 0) (at hdr 1))
op-Ready Opcode.ser_get_stat = inl (λ _. tt)
op-Ready Opcode.wirebug_mode = inl tt

body-Ready : (d : Decoded) → Silent (body d) ⊎ Ready (body d)
unfolding body
body-Ready (Decoded.op o) = op-Ready o
body-Ready (Decoded.fast_write channel) = inr (λ _. inr (tt, λ _. tt))
body-Ready (Decoded.unknown b) = inl tt

-- Every handler touches what is shared at most once, and reads and writes only its stream from then on.
pub head-Ready : Ready head
head-Ready byte = body-Ready (from_byte (at byte 0))
