-- ===== src/Server/Awaits/Bounded.antt =====
-- How many awaits a turn of a session takes.
use drivewire_rs.Prelude.{
  ℕ, zero, suc, Bool, true, false, Option, none, some, List, Result, ◌==◌, Bool-cases, inl, inr,
}
use drivewire_rs.Proto.Checksum.{checksum16}
use drivewire_rs.Proto.Lsn.{Lsn}
use drivewire_rs.Proto.Opcode.{Opcode, Decoded}
use drivewire_rs.Vdisk.{DskFile, Sector, VDiskError}
use drivewire_rs.Server.Session.{Moment, at, from_be2}
use drivewire_rs.Server.Handlers.{zero_sector, open_code, close_code, comst}
use drivewire_rs.Server.Awaits.{
  Program, stop, fetching, receiving, sending, looking, reading, writing, locking, timing, or_zeros,
  reply_body, read_found, read_body, write_found, write_checked, write_body, set_stat_body, op_body,
  body,
}

-- A program that ends within so many awaits, whatever they bring.
abbrev pub Within : Program → ℕ → Type 0
Within stop n = Unit
Within _ zero = ⊥
Within (fetching k) (suc n) = (bytes : List ℕ) → Within (k bytes) n
Within (receiving m k) (suc n) = (bytes : List ℕ) → Within (k bytes) n
Within (sending bytes p) (suc n) = Within p n
Within (looking slot k) (suc n) = (found : Option DskFile) → Within (k found) n
Within (reading d lsn k) (suc n) = (r : Result VDiskError Sector) → Within (k r) n
Within (writing d lsn sector k) (suc n) = (r : Result VDiskError (Unit {0})) → Within (k r) n
Within (locking a k) (suc n) = (bytes : List ℕ) → Within (k bytes) n
Within (timing k) (suc n) = (m : Moment) → Within (k m) n

Within-suc : (p : Program) (n : ℕ) → Within p n → Within p (suc n)
Within-suc stop n h = tt
Within-suc (fetching k) (suc n) h = λ b. Within-suc (k b) n (h b)
Within-suc (receiving m k) (suc n) h = λ b. Within-suc (k b) n (h b)
Within-suc (sending bytes p) (suc n) h = Within-suc p n h
Within-suc (looking slot k) (suc n) h = λ f. Within-suc (k f) n (h f)
Within-suc (reading d lsn k) (suc n) h = λ r. Within-suc (k r) n (h r)
Within-suc (writing d lsn sector k) (suc n) h = λ r. Within-suc (k r) n (h r)
Within-suc (locking a k) (suc n) h = λ b. Within-suc (k b) n (h b)
Within-suc (timing k) (suc n) h = λ m. Within-suc (k m) n (h m)
Within-suc (fetching k) zero h = absurd h
Within-suc (receiving m k) zero h = absurd h
Within-suc (sending bytes p) zero h = absurd h
Within-suc (looking slot k) zero h = absurd h
Within-suc (reading d lsn k) zero h = absurd h
Within-suc (writing d lsn sector k) zero h = absurd h
Within-suc (locking a k) zero h = absurd h
Within-suc (timing k) zero h = absurd h

reply-Within : (extended : Bool) (sector : Sector) → Within (reply_body extended sector) 2
unfolding reply_body
reply-Within true sector = λ _. tt
reply-Within false sector = tt

read_found-Within :
    (extended : Bool) (lsn : Lsn) (found : Option DskFile)
    → Within (read_found extended lsn found) 4
unfolding read_found
read_found-Within extended lsn none =
    Within-suc (reply_body extended zero_sector) 2 (reply-Within extended zero_sector)
read_found-Within extended lsn (some d) = λ r. reply-Within extended (or_zeros r)

read-Within : (extended : Bool) → Within (read_body extended) 6
unfolding read_body
read-Within extended = λ hdr found. read_found-Within extended _ found

write_found-Within :
    (lsn : Lsn) (sector : Sector) (found : Option DskFile) → Within (write_found lsn sector found) 2
unfolding write_found
write_found-Within lsn sector none = tt
write_found-Within lsn sector (some d) = λ r. tt

write-Within : Within write_body 6
unfolding write_body write_checked
write-Within hdr sector sum =
    elim (Bool-cases (from_be2 (at sum 0) (at sum 1) == checksum16 sector)) [
      | inl e ↦ rw e (λ found. write_found-Within _ sector found)
      | inr e ↦ rw e tt
    ]

set_stat-Within : (channel code : ℕ) → Within (set_stat_body channel code) 5
unfolding set_stat_body
set_stat-Within channel code = elim (Bool-cases (code == open_code)) [
  | inl e ↦ rw e (λ _. tt)
  | inr e ↦ elim (Bool-cases (code == close_code)) [
    | inl f ↦ rw (e, f) (λ _. tt)
    | inr f ↦ elim (Bool-cases (code == comst)) [
      | inl g ↦ rw (e, f, g) (λ _. tt)
      | inr g ↦ rw (e, f, g) tt
    ]
  ]
]

op-Within : (o : Opcode) → Within (op_body o) 6
unfolding op_body
op-Within Opcode.read = read-Within false
op-Within Opcode.reread = read-Within false
op-Within Opcode.read_ex = read-Within true
op-Within Opcode.reread_ex = read-Within true
op-Within Opcode.write = write-Within
op-Within Opcode.rewrite = write-Within
op-Within Opcode.dw_init = λ _. tt
op-Within Opcode.time = λ _. tt
op-Within Opcode.get_stat = λ _. tt
op-Within Opcode.set_stat = λ _. tt
op-Within Opcode.ser_get_stat = λ _. tt
op-Within Opcode.print = λ _ _. tt
op-Within Opcode.print_flush = λ _. tt
op-Within Opcode.ser_read = λ _. tt
op-Within Opcode.ser_read_m = λ _ _. tt
op-Within Opcode.ser_init = λ _ _. tt
op-Within Opcode.ser_term = λ _ _. tt
op-Within Opcode.ser_write = λ _ _. tt
op-Within Opcode.ser_write_m = λ _ _ _. tt
op-Within Opcode.ser_set_stat = λ hdr. set_stat-Within (at hdr 0) (at hdr 1)
op-Within _ = tt

pub body-Within : (d : Decoded) → Within (body d) 6
unfolding body
body-Within (Decoded.op o) = op-Within o
body-Within (Decoded.fast_write channel) = λ _ _. tt
body-Within (Decoded.unknown b) = tt
