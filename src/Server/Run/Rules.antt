-- ===== src/Server/Run/Rules.antt =====
-- What it takes to show a property of every handler: one rule for each thing that a handler does.
use drivewire_rs.Prelude.{
  ℕ, ◌<◌, Bool, true, false, List, [], ◌∷◌, arith, ◌==◌, if◌then◌else◌, ◌++◌, IsBytes,
}
use drivewire_rs.Prelude.Bytes.{at-lt}
use drivewire_rs.Proto.Checksum.{checksum16}
use drivewire_rs.Proto.ErrorCode
use drivewire_rs.Proto.ErrorCode.{DwError}
use drivewire_rs.Proto.Lsn.{Lsn, from_be3}
use drivewire_rs.Proto.Opcode.{Opcode, Decoded}
use drivewire_rs.Vdisk.{Sector}
use drivewire_rs.Server.State.{push_vserial, set_channel_open}
use drivewire_rs.Server.Session.{
  Session, ◌>>=◌, done, gets, modify, receive, send, at, to_be2, from_be2,
}
use drivewire_rs.Server.Handlers.{
  served, handshake, store_sector, extend_inbox, poll_outbox, take_outbox, now, time_bytes,
  handle_read, read_reply, handle_write, handle_dwinit, handle_stat, handle_print,
  handle_print_flush, handle_fastwrite, handle_serwrite, handle_ser_open, handle_serread,
  handle_serwritem, set_stat, handle_sersetstat, handle_serreadm, handle_time, open_code,
  close_code, comst,
}
use drivewire_rs.Server.Run.{handle_op, dispatch}

-- The rules for a property `P` of actions. Where `T` is inhabited they may count on bytes that fit, and
-- have to see to it.
pub record Rules (T : Type 0) (P : (A : Type 0) → Session A → Type 0) : Type 1 where
  pub receives :
      (B : Type 0) (n : ℕ) (f : List ℕ → Session B)
      → ((xs : List ℕ) → (T → IsBytes xs) → P B (f xs))
      → P B (receive n >>= f)
  pub serves :
      (B : Type 0) (slot : ℕ) (lsn : Lsn) (f : Sector → Session B)
      → ((sector : Sector) → (T → IsBytes sector) → P B (f sector))
      → P B (gets (λ w. served w.server.drives w.files slot lsn) >>= f)
  pub sends : (xs : List ℕ) → (T → IsBytes xs) → P (Unit {0}) (send xs)
  pub sends_then :
      (B : Type 0) (xs : List ℕ) (f : Unit {0} → Session B)
      → (T → IsBytes xs)
      → P B (f tt)
      → P B (send xs >>= f)
  pub stops : P (Unit {0}) done
  pub pushes : (c b : ℕ) → (T → b < 256) → P (Unit {0}) (modify (push_vserial c b))
  pub extends : (c : ℕ) (bs : List ℕ) → (T → IsBytes bs) → P (Unit {0}) (modify (extend_inbox c bs))
  pub opens : (c : ℕ) (flag : Bool) → P (Unit {0}) (modify (set_channel_open c flag))
  pub prints :
      (b : ℕ)
      → (T → b < 256)
      → P (Unit {0}) (modify (λ s. record s { print_buffer = s.print_buffer ++ (b ∷ []) }))
  pub flushes : P (Unit {0}) (modify (λ s. record s { print_buffer = [] }))
  pub polls : P (Unit {0}) (poll_outbox >>= λ reply. send reply)
  pub takes : (c n : ℕ) → P (Unit {0}) (take_outbox c n >>= λ bytes. send bytes)
  pub stores :
      (slot : ℕ) (lsn : Lsn) (sector : Sector)
      → (T → IsBytes sector)
      → P (Unit {0}) (store_sector slot lsn sector >>= λ status. send (status ∷ []))
  pub tells_time : P (Unit {0}) (gets (λ w. now w.clock) >>= λ m. send (time_bytes m))

pub to_be2-IsBytes : (n : ℕ) → IsBytes (to_be2 n)
to_be2-IsBytes n = (omega arith, (omega arith, tt))

pub handshake-IsBytes : (a b : ℕ) → IsBytes (handshake a b ∷ [])
unfolding ErrorCode.to_byte
handshake-IsBytes a b = (ground arith, tt)

module _ (T : Type 0) (P : (A : Type 0) → Session A → Type 0) (r : Rules T P) where
  if-rule :
      (b : Bool) {m n : Session (Unit {0})}
      → P (Unit {0}) m
      → P (Unit {0}) n
      → P (Unit {0}) (if b then m else n)
  if-rule true p q = p
  if-rule false p q = q

  read_reply-rule : (extended : Bool) (sector : Sector) → P (Unit {0}) (read_reply extended sector)
  unfolding read_reply
  read_reply-rule true sector = r.receives _ 2 _ λ sum g. r.sends _ λ t. handshake-IsBytes _ _
  read_reply-rule false sector = r.sends _ λ t. to_be2-IsBytes (checksum16 sector)

  handle_read-rule : (extended : Bool) → P (Unit {0}) (handle_read extended)
  unfolding handle_read
  handle_read-rule extended = r.receives _ 4 _ λ hdr g.
      r.serves _ (at hdr 0) (from_be3 (at hdr 1) (at hdr 2) (at hdr 3)) _
        λ sector h. r.sends_then _ sector _ h (read_reply-rule extended sector)

  handle_write-rule : P (Unit {0}) handle_write
  unfolding handle_write ErrorCode.to_byte
  handle_write-rule = r.receives _ 4 _ λ hdr g. r.receives _ 256 _ λ sector h.
      r.receives _ 2 _ λ sum k.
        if-rule (from_be2 (at sum 0) (at sum 1) == checksum16 sector) (r.stores _ _ sector h)
          (r.sends _ λ t. omega arith)

  set_stat-rule : (channel code : ℕ) → P (Unit {0}) (set_stat channel code)
  unfolding set_stat
  set_stat-rule channel code = if-rule (code == open_code) (r.opens channel true) (
      if-rule (code == close_code) (r.opens channel false)
        (if-rule (code == comst) (r.receives _ 26 _ λ payload g. r.stops) r.stops))

  handle_op-rule : (o : Opcode) → P (Unit {0}) (handle_op o)
  unfolding handle_op handle_dwinit handle_stat handle_print handle_print_flush handle_serwrite
      handle_ser_open handle_serread handle_serwritem handle_sersetstat handle_serreadm handle_time
  handle_op-rule Opcode.read = handle_read-rule false
  handle_op-rule Opcode.reread = handle_read-rule false
  handle_op-rule Opcode.read_ex = handle_read-rule true
  handle_op-rule Opcode.reread_ex = handle_read-rule true
  handle_op-rule Opcode.write = handle_write-rule
  handle_op-rule Opcode.rewrite = handle_write-rule
  handle_op-rule Opcode.dw_init = r.receives _ 1 _ λ driver g. r.sends _ λ t. omega arith
  handle_op-rule Opcode.time = r.tells_time
  handle_op-rule Opcode.get_stat = r.receives _ 2 _ λ p g. r.stops
  handle_op-rule Opcode.set_stat = r.receives _ 2 _ λ p g. r.stops
  handle_op-rule Opcode.ser_get_stat = r.receives _ 2 _ λ p g. r.stops
  handle_op-rule Opcode.print = r.receives _ 1 _ λ b g. r.prints (at b 0) λ t. at-lt b 0 (g t)
  handle_op-rule Opcode.print_flush = r.flushes
  handle_op-rule Opcode.ser_read = r.polls
  handle_op-rule Opcode.ser_read_m = r.receives _ 2 _ λ p g. r.takes (at p 0) (at p 1)
  handle_op-rule Opcode.ser_init = r.receives _ 1 _ λ ch g. r.opens (at ch 0) true
  handle_op-rule Opcode.ser_term = r.receives _ 1 _ λ ch g. r.opens (at ch 0) false
  handle_op-rule Opcode.ser_write =
      r.receives _ 2 _ λ p g. r.pushes (at p 0) (at p 1) λ t. at-lt p 1 (g t)
  handle_op-rule Opcode.ser_write_m =
      r.receives _ 2 _ λ hdr g. r.receives _ (at hdr 1) _ λ buf h. r.extends (at hdr 0) buf h
  handle_op-rule Opcode.ser_set_stat = r.receives _ 2 _ λ hdr g. set_stat-rule (at hdr 0) (at hdr 1)
  handle_op-rule _ = r.stops

  -- The property holds of every command.
  pub dispatch-rule : (d : Decoded) → P (Unit {0}) (dispatch d)
  unfolding dispatch handle_fastwrite
  dispatch-rule (Decoded.op o) = handle_op-rule o
  dispatch-rule (Decoded.fast_write channel) =
      r.receives _ 1 _ λ b g. r.pushes channel (at b 0) λ t. at-lt b 0 (g t)
  dispatch-rule (Decoded.unknown b) = r.stops
