-- ===== src/Server/Handlers.antt =====
-- The handlers of one opcode each, as actions. What a handler writes to the log is left out.
pub mod Framing
pub mod Disk
pub mod Bytes
pub mod Typed
pub mod Keeps
use drivewire_rs.Prelude.{
  ℕ, zero, suc, ◌+◌, ◌-◌, ◌%◌, Bool, true, false, Option, none, some, List, [], ◌∷◌, ◌++◌, Result,
  ok, err, ltb, leb, ◌==◌, get_or, set, replicate, min, if◌then◌else◌,
}
use drivewire_rs.Prelude.Int.{ℤ, pos, negsuc, ◌-ℤ◌}
use drivewire_rs.Proto.Checksum.{checksum16}
use drivewire_rs.Proto.ErrorCode
use drivewire_rs.Proto.ErrorCode.{DwError}
use drivewire_rs.Proto.Lsn.{Lsn, from_be3}
use drivewire_rs.Vdisk
use drivewire_rs.Vdisk.{DskFile, Files, Sector, sector_size}
use drivewire_rs.Server.State.{
  Server, Drives, get, vserial_channels, push_vserial, set_channel_open, poll, read_many, extend,
}
use drivewire_rs.Server.Session.{
  World, Moment, Clock, Session, ◌>>=◌, ◌>>◌, done, gets, modify, receive, send, at, from_be2,
  to_be2,
}

abbrev pub dwinit_response : ℕ
dwinit_response = 0x04

-- `ss::COMST`, `ss::OPEN`, `ss::CLOSE`, `ss::COMST_PAYLOAD_LEN`
abbrev pub comst : ℕ
comst = 0x28

abbrev pub open_code : ℕ
open_code = 0x29

abbrev pub close_code : ℕ
close_code = 0x2a

abbrev pub comst_payload_len : ℕ
comst_payload_len = 26

abbrev pub zero_sector : Sector
zero_sector = replicate sector_size 0

-- What a READ of a slot serves: zeros where no disk is mounted or the disk's read fails.
unfoldable pub served : Drives → Files → ℕ → Lsn → Sector
served drives files slot lsn = elim (get slot drives) [
  | none ↦ zero_sector
  | some d ↦ elim (Vdisk.read d lsn files) [ ok sector ↦ sector | err _ ↦ zero_sector ]
]

-- The status of a READEX handshake.
abbrev pub handshake : ℕ → ℕ → ℕ
handshake guest_sum host_sum = if guest_sum == host_sum then 0x00 else ErrorCode.to_byte DwError.crc

unfoldable pub read_reply : Bool → Sector → Session (Unit {0})
read_reply true sector = do
  sum ← receive 2
  send (handshake (from_be2 (at sum 0) (at sum 1)) (checksum16 sector) ∷ [])
read_reply false sector = send (to_be2 (checksum16 sector))

unfoldable pub handle_read : Bool → Session (Unit {0})
unfolding read_reply
handle_read extended = do
  hdr ← receive 4
  sector ←
      gets
        (λ w. served w.server.drives w.files (at hdr 0) (from_be3 (at hdr 1) (at hdr 2) (at hdr 3)))
  send sector
  read_reply extended sector

-- The status byte of a disk's answer to a write.
unfoldable pub write_status : Result Vdisk.VDiskError (Unit {0}) → ℕ
write_status (ok _) = 0x00
write_status (err _) = ErrorCode.to_byte DwError.write

-- The write of a sector whose checksum was right: its status byte and the files behind it.
unfoldable pub store : Drives → Files → ℕ → Lsn → Sector → ℕ × Files
unfolding write_status
store drives files slot lsn sector = elim (get slot drives) [
  | none ↦ (ErrorCode.to_byte DwError.not_ready, files)
  | some d ↦ let (r, files') = Vdisk.write d lsn sector files in (write_status r, files')
]

unfoldable pub store_sector : ℕ → Lsn → Sector → Session ℕ
unfolding store
store_sector slot lsn sector w =
    let (status, files') = store w.server.drives w.files slot lsn sector in
    (ok status, record w { files = files' })

unfoldable pub handle_write : Session (Unit {0})
unfolding store_sector
handle_write = do
  hdr ← receive 4
  sector ← receive sector_size
  sum ← receive 2
  if from_be2 (at sum 0) (at sum 1) == checksum16 sector
      then (do
        status ← store_sector (at hdr 0) (from_be3 (at hdr 1) (at hdr 2) (at hdr 3)) sector
        send (status ∷ []))
      else send (ErrorCode.to_byte DwError.crc ∷ [])

unfoldable pub handle_dwinit : Session (Unit {0})
handle_dwinit = do driver ← receive 1; send (dwinit_response ∷ [])

-- `handle_stat`, and the arm of OP_SERGETSTAT.
unfoldable pub handle_stat : Session (Unit {0})
handle_stat = do p ← receive 2; done

unfoldable pub handle_print : Session (Unit {0})
handle_print = do
  b ← receive 1
  modify (λ s. record s { print_buffer = s.print_buffer ++ (at b 0 ∷ []) })

unfoldable pub handle_print_flush : Session (Unit {0})
handle_print_flush = modify (λ s. record s { print_buffer = [] })

unfoldable pub handle_fastwrite : ℕ → Session (Unit {0})
handle_fastwrite channel = do b ← receive 1; modify (push_vserial channel (at b 0))

-- The arm of OP_SERWRITE.
unfoldable pub handle_serwrite : Session (Unit {0})
handle_serwrite = do p ← receive 2; modify (push_vserial (at p 0) (at p 1))

-- The arms of OP_SERINIT and OP_SERTERM.
unfoldable pub handle_ser_open : Bool → Session (Unit {0})
handle_ser_open flag = do ch ← receive 1; modify (set_channel_open (at ch 0) flag)

unfoldable pub poll_outbox : Session (List ℕ)
poll_outbox w =
    let (reply, rest) = poll 0 w.server.vserial_outbox in
    (ok reply, record w { server = record w.server { vserial_outbox = rest } })

unfoldable pub handle_serread : Session (Unit {0})
unfolding poll_outbox
handle_serread = do reply ← poll_outbox; send reply

-- The bytes of a burst join the inbox. No `Notify` is signalled.
unfoldable pub extend_inbox : ℕ → List ℕ → Server → Server
extend_inbox channel buf s =
    if ltb channel vserial_channels
    then record s { vserial_inbox = extend s.vserial_inbox channel buf }
    else s

unfoldable pub handle_serwritem : Session (Unit {0})
handle_serwritem = do
  hdr ← receive 2
  buf ← receive (at hdr 1)
  modify (extend_inbox (at hdr 0) buf)

-- The match of `handle_sersetstat` on the code.
unfoldable pub set_stat : ℕ → ℕ → Session (Unit {0})
set_stat channel code =
    if code == open_code
    then modify (set_channel_open channel true)
    else if code == close_code
    then modify (set_channel_open channel false)
    else if code == comst
    then (do payload ← receive comst_payload_len; done)
    else done

unfoldable pub handle_sersetstat : Session (Unit {0})
unfolding set_stat
handle_sersetstat = do hdr ← receive 2; set_stat (at hdr 0) (at hdr 1)

unfoldable pub take_outbox : ℕ → ℕ → Session (List ℕ)
take_outbox channel count w =
    let (bytes, rest) = read_many channel count w.server.vserial_outbox in
    (ok bytes, record w { server = record w.server { vserial_outbox = rest } })

unfoldable pub handle_serreadm : Session (Unit {0})
unfolding take_outbox
handle_serreadm = do p ← receive 2; bytes ← take_outbox (at p 0) (at p 1); send bytes

-- `(year - 1900).clamp(0, 255) as u8`
clamped : ℤ → ℕ
clamped (pos n) = min n 255
clamped (negsuc n) = 0

abbrev pub now : Clock → Moment
now c = elim c.now_local [ some m ↦ m | none ↦ c.now_utc ]

unfoldable pub time_bytes : Moment → List ℕ
unfolding clamped ◌-ℤ◌
time_bytes m = clamped (m.year -ℤ pos 1900) ∷ m.month ∷ m.day ∷ m.hour ∷ m.minute ∷ m.second ∷ []

unfoldable pub handle_time : Session (Unit {0})
handle_time = do m ← gets (λ w. now w.clock); send (time_bytes m)
