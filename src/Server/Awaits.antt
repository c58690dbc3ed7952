-- ===== src/Server/Awaits.antt =====
-- A session's code cut at its awaits: what each handler of crates/drivewire-server/src/lib.rs reads,
-- sends, looks up and changes, as a program that other tasks may interrupt before every await.
pub mod Meaning
pub mod Tasks
pub mod Ready
pub mod Moving
pub mod Counting
pub mod Following
pub mod Whole
pub mod Atomic
pub mod Stale
pub mod Late
pub mod Bounded
pub mod Ending
pub mod Typed
pub mod Leaves
pub mod Anytime
pub mod Streams
pub mod Flow
use drivewire_rs.Prelude.{
  ℕ, Bool, true, false, Option, none, some, List, [], ◌∷◌, Result, ok, err, ◌==◌, if◌then◌else◌,
}
use drivewire_rs.Proto.Checksum.{checksum16}
use drivewire_rs.Proto.ErrorCode
use drivewire_rs.Proto.ErrorCode.{DwError}
use drivewire_rs.Proto.Lsn.{Lsn, from_be3}
use drivewire_rs.Proto.Opcode.{Opcode, Decoded, from_byte}
use drivewire_rs.Vdisk
use drivewire_rs.Vdisk.{DskFile, Sector, VDiskError, sector_size}
use drivewire_rs.Server.State.{Server, get, poll, read_many}
use drivewire_rs.Server.Actions.{
  Action, write, write_many, poll_one, poll_many, open_channel, print_byte, print_flush, perform,
}
use drivewire_rs.Server.Session.{
  World, Moment, Session, ◌>>=◌, done, gets, receive, send, at, from_be2, to_be2,
}
use drivewire_rs.Server.Handlers.{
  zero_sector, handshake, write_status, dwinit_response, open_code, close_code, comst,
  comst_payload_len, now, time_bytes,
}
use drivewire_rs.Server.Run.{receive_opcode}

-- What is left of a turn, by its next await: a read at the head of the loop, a read, a write, the lookup
-- of a drive, a read or a write of a disk under that disk's lock, a critical section of the server, or
-- the clock. `stop` is the end of the turn.
pub data Program : Type 0 where
  stop : Program
  fetching : (List ℕ → Program) → Program
  receiving : ℕ → (List ℕ → Program) → Program
  sending : List ℕ → Program → Program
  looking : ℕ → (Option DskFile → Program) → Program
  reading : DskFile → Lsn → (Result VDiskError Sector → Program) → Program
  writing : DskFile → Lsn → Sector → (Result VDiskError (Unit {0}) → Program) → Program
  locking : Action → (List ℕ → Program) → Program
  timing : (Moment → Program) → Program

-- What a critical section brings out: the reply of a poll, or the bytes of a SERREADM.
unfoldable pub answer : Action → Server → List ℕ
answer poll_one s = (poll 0 s.vserial_outbox).0
answer (poll_many channel count) s = (read_many channel count s.vserial_outbox).0
answer _ s = []

unfoldable pub locked : Action → Session (List ℕ)
locked a w = (ok (answer a w.server), record w { server = perform a w.server })

unfoldable pub write_disk : DskFile → Lsn → Sector → Session (Result VDiskError (Unit {0}))
write_disk d lsn sector w =
    let (r, files') = Vdisk.write d lsn sector w.files in (ok r, record w { files = files' })

-- `d.read(lsn).await.unwrap_or_else(..)`
abbrev pub or_zeros : Result VDiskError Sector → Sector
or_zeros (ok sector) = sector
or_zeros (err _) = zero_sector

unfoldable pub reply_body : Bool → Sector → Program
reply_body true sector =
    receiving 2
      (λ sum. sending (handshake (from_be2 (at sum 0) (at sum 1)) (checksum16 sector) ∷ []) stop)
reply_body false sector = sending (to_be2 (checksum16 sector)) stop

-- The clone of the `Arc` outlives the lock on the drives.
unfoldable pub read_found : Bool → Lsn → Option DskFile → Program
unfolding reply_body
read_found extended lsn none = sending zero_sector (reply_body extended zero_sector)
read_found extended lsn (some d) =
    reading d lsn (λ r. sending (or_zeros r) (reply_body extended (or_zeros r)))

unfoldable pub read_body : Bool → Program
unfolding read_found
read_body extended = receiving 4 (λ hdr.
    looking (at hdr 0)
      (λ found. read_found extended (from_be3 (at hdr 1) (at hdr 2) (at hdr 3)) found))

unfoldable pub write_found : Lsn → Sector → Option DskFile → Program
write_found lsn sector none = sending (ErrorCode.to_byte DwError.not_ready ∷ []) stop
write_found lsn sector (some d) = writing d lsn sector (λ r. sending (write_status r ∷ []) stop)

unfoldable pub write_checked : List ℕ → Sector → List ℕ → Program
unfolding write_found
write_checked hdr sector sum =
    if from_be2 (at sum 0) (at sum 1) == checksum16 sector
    then looking (at hdr 0)
        (λ found. write_found (from_be3 (at hdr 1) (at hdr 2) (at hdr 3)) sector found)
    else sending (ErrorCode.to_byte DwError.crc ∷ []) stop

unfoldable pub write_body : Program
unfolding write_checked
write_body =
    receiving 4
      (λ hdr. receiving sector_size (λ sector. receiving 2 (λ sum. write_checked hdr sector sum)))

unfoldable pub set_stat_body : ℕ → ℕ → Program
set_stat_body channel code =
    if code == open_code
    then locking (open_channel channel true) (λ _. stop)
    else if code == close_code
    then locking (open_channel channel false) (λ _. stop)
    else if code == comst
    then receiving comst_payload_len (λ _. stop)
    else stop

abbrev stat_body : Program
stat_body = receiving 2 (λ _. stop)

abbrev open_body : Bool → Program
open_body flag = receiving 1 (λ ch. locking (open_channel (at ch 0) flag) (λ _. stop))

unfoldable pub op_body : Opcode → Program
unfolding read_body write_body set_stat_body
op_body Opcode.nop = stop
op_body Opcode.reset1 = stop
op_body Opcode.reset2 = stop
op_body Opcode.reset3 = stop
op_body Opcode.read = read_body false
op_body Opcode.reread = read_body false
op_body Opcode.read_ex = read_body true
op_body Opcode.reread_ex = read_body true
op_body Opcode.write = write_body
op_body Opcode.rewrite = write_body
op_body Opcode.dw_init = receiving 1 (λ _. sending (dwinit_response ∷ []) stop)
op_body Opcode.time = timing (λ m. sending (time_bytes m) stop)
op_body Opcode.init = stop
op_body Opcode.term = stop
op_body Opcode.get_stat = stat_body
op_body Opcode.set_stat = stat_body
op_body Opcode.print = receiving 1 (λ b. locking (print_byte (at b 0)) (λ _. stop))
op_body Opcode.print_flush = locking print_flush (λ _. stop)
op_body Opcode.ser_read = locking poll_one (λ reply. sending reply stop)
op_body Opcode.ser_read_m =
    receiving 2 (λ p. locking (poll_many (at p 0) (at p 1)) (λ bytes. sending bytes stop))
op_body Opcode.ser_init = open_body true
op_body Opcode.ser_term = open_body false
op_body Opcode.ser_write = receiving 2 (λ p. locking (write (at p 0) (at p 1)) (λ _. stop))
op_body Opcode.ser_write_m =
    receiving 2
      (λ hdr. receiving (at hdr 1) (λ buf. locking (write_many (at hdr 0) buf) (λ _. stop)))
op_body Opcode.ser_set_stat = receiving 2 (λ hdr. set_stat_body (at hdr 0) (at hdr 1))
op_body Opcode.ser_get_stat = stat_body
op_body Opcode.wirebug_mode = stop

unfoldable pub body : Decoded → Program
unfolding op_body
body (Decoded.op o) = op_body o
body (Decoded.fast_write channel) = receiving 1 (λ b. locking (write channel (at b 0)) (λ _. stop))
body (Decoded.unknown b) = stop

-- The head of the loop, where every turn starts.
abbrev pub head : Program
head = fetching (λ byte. body (from_byte (at byte 0)))

abbrev pub then_at {ℓ} : {A : Type ℓ} → Session A → (A → Program) → Session Program
then_at m k = m >>= λ a. gets (λ _. k a)

-- One await: what is left behind it. Behind the end of a turn stands the head of the loop.
unfoldable pub await : Program → Session Program
unfolding locked write_disk
await stop = gets (λ _. head)
await (fetching k) = then_at receive_opcode k
await (receiving n k) = then_at (receive n) k
await (sending bytes p) = then_at (send bytes) (λ _. p)
await (looking slot k) = then_at (gets (λ w. get slot w.server.drives)) k
await (reading d lsn k) = then_at (gets (λ w. Vdisk.read d lsn w.files)) k
await (writing d lsn sector k) = then_at (write_disk d lsn sector) k
await (locking a k) = then_at (locked a) k
await (timing k) = then_at (gets (λ w. now w.clock)) k

-- The whole of a program, with no other task between its awaits.
unfoldable pub uninterrupted : Program → Session (Unit {0})
unfolding locked write_disk
uninterrupted stop = done
uninterrupted (fetching k) = receive_opcode >>= λ b. uninterrupted (k b)
uninterrupted (receiving n k) = receive n >>= λ b. uninterrupted (k b)
uninterrupted (sending bytes p) = send bytes >>= λ _. uninterrupted p
uninterrupted (looking slot k) =
    gets (λ w. get slot w.server.drives) >>= λ found. uninterrupted (k found)
uninterrupted (reading d lsn k) = gets (λ w. Vdisk.read d lsn w.files) >>= λ r. uninterrupted (k r)
uninterrupted (writing d lsn sector k) = write_disk d lsn sector >>= λ r. uninterrupted (k r)
uninterrupted (locking a k) = locked a >>= λ b. uninterrupted (k b)
uninterrupted (timing k) = gets (λ w. now w.clock) >>= λ m. uninterrupted (k m)
