-- ===== src/Server/Awaits/Typed.antt =====
-- What is left of a turn keeps to bytes, whatever its awaits bring.
use drivewire_rs.Prelude.{
  ℕ, Bool, true, false, Option, none, some, List, arith, Result, ok, err, ◌==◌, if◌then◌else◌,
  IsByte, IsBytes,
}
use drivewire_rs.Prelude.Bytes.{at-lt, replicate-All}
use drivewire_rs.Proto.Checksum.{checksum16}
use drivewire_rs.Proto.ErrorCode
use drivewire_rs.Proto.Lsn.{Lsn}
use drivewire_rs.Proto.Opcode.{Opcode, Decoded}
use drivewire_rs.Vdisk.{DskFile, Sector, VDiskError, sector_size}
use drivewire_rs.Vdisk.Bytes.{SectorIsBytes}
use drivewire_rs.Server.Session.{Moment, at, from_be2}
use drivewire_rs.Server.Handlers.{open_code, close_code, comst}
use drivewire_rs.Server.Handlers.Bytes.{calendar, time_bytes-IsBytes, write_status-lt}
use drivewire_rs.Server.Run.Rules.{to_be2-IsBytes, handshake-IsBytes}
use drivewire_rs.Server.Sessions.{BringsBytes}
use drivewire_rs.Server.Awaits.{
  Program, stop, fetching, receiving, sending, looking, reading, writing, locking, timing, or_zeros,
  reply_body, read_found, read_body, write_found, write_checked, write_body, set_stat_body, op_body,
  body,
}

-- What is left of a turn sends and stores bytes, if what it is given are bytes.
abbrev pub Expects : Program → Type 0
Expects stop = Unit
Expects (fetching k) = (bytes : List ℕ) → IsBytes bytes → Expects (k bytes)
Expects (receiving n k) = (bytes : List ℕ) → IsBytes bytes → Expects (k bytes)
Expects (sending bytes p) = IsBytes bytes × Expects p
Expects (looking slot k) = (found : Option DskFile) → Expects (k found)
Expects (reading d lsn k) = (r : Result VDiskError Sector) → SectorIsBytes r → Expects (k r)
Expects (writing d lsn sector k) =
    IsBytes sector × ((r : Result VDiskError (Unit {0})) → Expects (k r))
Expects (locking a k) = BringsBytes a × ((bytes : List ℕ) → IsBytes bytes → Expects (k bytes))
Expects (timing k) = (m : Moment) → IsBytes (calendar m) → Expects (k m)

reply-Expects : (extended : Bool) (sector : Sector) → Expects (reply_body extended sector)
unfolding reply_body
reply-Expects true sector = λ sum h. (handshake-IsBytes _ _, tt)
reply-Expects false sector = (to_be2-IsBytes (checksum16 sector), tt)

or_zeros-IsBytes : (r : Result VDiskError Sector) → SectorIsBytes r → IsBytes (or_zeros r)
or_zeros-IsBytes (ok sector) h = h
or_zeros-IsBytes (err e) h = replicate-All IsByte sector_size 0 (omega arith)

read_found-Expects :
    (extended : Bool) (lsn : Lsn) (found : Option DskFile) → Expects (read_found extended lsn found)
unfolding read_found
read_found-Expects extended lsn none =
    (replicate-All IsByte sector_size 0 (omega arith), reply-Expects extended _)
read_found-Expects extended lsn (some d) =
    λ r h. (or_zeros-IsBytes r h, reply-Expects extended (or_zeros r))

read-Expects : (extended : Bool) → Expects (read_body extended)
unfolding read_body
read-Expects extended = λ hdr h found. read_found-Expects extended _ found

write_found-Expects :
    (lsn : Lsn) (sector : Sector) (found : Option DskFile)
    → IsBytes sector
    → Expects (write_found lsn sector found)
unfolding write_found ErrorCode.to_byte
write_found-Expects lsn sector none h = ((omega arith, tt), tt)
write_found-Expects lsn sector (some d) h = (h, λ r. ((write_status-lt r, tt), tt))

-- A branch that the code takes.
if-Expects : (b : Bool) (p q : Program) → Expects p → Expects q → Expects (if b then p else q)
if-Expects true p q h k = h
if-Expects false p q h k = k

write-Expects : Expects write_body
unfolding write_body write_checked ErrorCode.to_byte
write-Expects = λ hdr h sector k sum l.
    if-Expects (from_be2 (at sum 0) (at sum 1) == checksum16 sector) _ _
      (λ found. write_found-Expects _ sector found k) ((omega arith, tt), tt)

set_stat-Expects : (channel code : ℕ) → Expects (set_stat_body channel code)
unfolding set_stat_body
set_stat-Expects channel code =
    if-Expects (code == open_code) _ _ (tt, λ bytes h. tt)
      (if-Expects (code == close_code) _ _ (tt, λ bytes h. tt)
        (if-Expects (code == comst) _ _ (λ bytes h. tt) tt))

op-Expects : (o : Opcode) → Expects (op_body o)
unfolding op_body
op-Expects Opcode.read = read-Expects false
op-Expects Opcode.reread = read-Expects false
op-Expects Opcode.read_ex = read-Expects true
op-Expects Opcode.reread_ex = read-Expects true
op-Expects Opcode.write = write-Expects
op-Expects Opcode.rewrite = write-Expects
op-Expects Opcode.dw_init = λ b h. ((omega arith, tt), tt)
op-Expects Opcode.time = λ m h. (time_bytes-IsBytes m h, tt)
op-Expects Opcode.get_stat = λ p h. tt
op-Expects Opcode.set_stat = λ p h. tt
op-Expects Opcode.ser_get_stat = λ p h. tt
op-Expects Opcode.print = λ b h. (at-lt b 0 h, λ bytes k. tt)
op-Expects Opcode.print_flush = (tt, λ bytes h. tt)
op-Expects Opcode.ser_read = (tt, λ reply h. (h, tt))
op-Expects Opcode.ser_read_m = λ p h. (tt, λ bytes k. (k, tt))
op-Expects Opcode.ser_init = λ ch h. (tt, λ bytes k. tt)
op-Expects Opcode.ser_term = λ ch h. (tt, λ bytes k. tt)
op-Expects Opcode.ser_write = λ p h. (at-lt p 1 h, λ bytes k. tt)
op-Expects Opcode.ser_write_m = λ hdr h buf k. (k, λ bytes l. tt)
op-Expects Opcode.ser_set_stat = λ hdr h. set_stat-Expects (at hdr 0) (at hdr 1)
op-Expects Opcode.nop = tt
op-Expects Opcode.reset1 = tt
op-Expects Opcode.reset2 = tt
op-Expects Opcode.reset3 = tt
op-Expects Opcode.init = tt
op-Expects Opcode.term = tt
op-Expects Opcode.wirebug_mode = tt

pub body-Expects : (d : Decoded) → Expects (body d)
unfolding body
body-Expects (Decoded.op o) = op-Expects o
body-Expects (Decoded.fast_write channel) = λ b h. (at-lt b 0 h, λ bytes k. tt)
body-Expects (Decoded.unknown b) = tt
