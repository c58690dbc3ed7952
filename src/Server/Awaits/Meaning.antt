-- ===== src/Server/Awaits/Meaning.antt =====
-- With no other task between its awaits, the program of an opcode is its handler.
use drivewire_rs.Prelude.{
  ℕ, Bool, true, false, Option, none, some, List, [], ◌∷◌, Result, ok, err, ◌==◌, if◌then◌else◌,
  ◌≡◌, refl, ap, ◌∙◌, fun_ext,
}
use drivewire_rs.Proto.Checksum.{checksum16}
use drivewire_rs.Proto.ErrorCode
use drivewire_rs.Proto.ErrorCode.{DwError}
use drivewire_rs.Proto.Lsn.{Lsn, from_be3}
use drivewire_rs.Proto.Opcode.{Opcode, Decoded, from_byte}
use drivewire_rs.Vdisk
use drivewire_rs.Vdisk.{DskFile, Sector, VDiskError, sector_size}
use drivewire_rs.Server.State.{get}
use drivewire_rs.Server.Actions.{
  Action, write, write_many, poll_one, poll_many, open_channel, print_byte, print_flush, perform,
}
use drivewire_rs.Server.Session.{
  World, ServerError, Session, ◌>>=◌, and_then, done, gets, modify, receive, send, at, from_be2,
}
use drivewire_rs.Server.Handlers.{
  served, zero_sector, store, store_sector, write_status, read_reply, handle_read, handle_write,
  handle_dwinit, handle_stat, handle_print, handle_print_flush, handle_fastwrite, handle_serwrite,
  handle_ser_open, poll_outbox, handle_serread, handle_serwritem, set_stat, handle_sersetstat,
  take_outbox, handle_serreadm, handle_time, time_bytes, open_code, close_code, comst,
}
use drivewire_rs.Server.Run.{handle_op, dispatch, receive_opcode, turn}
use drivewire_rs.Server.Awaits.{
  Program, stop, locking, sending, or_zeros, answer, locked, write_disk, reply_body, read_found,
  read_body, write_found, write_checked, write_body, set_stat_body, op_body, body, head,
  uninterrupted,
}

-- Two sessions whose rests agree.
bind-ext :
    {A B : Type 0} (m : Session A) (f g : A → Session B)
    → ((a : A) → f a ≡ g a)
    → (m >>= f) ≡ (m >>= g)
bind-ext m f g h = ap (λ k. m >>= k) (fun_ext h)

and_then-done : (p : Result ServerError (Unit {0}) × World) → and_then (λ _. done) p ≡ p
unfolding and_then done
and_then-done (ok _, w) = refl
and_then-done (err e, w) = refl

bind-done : (m : Session (Unit {0})) → (m >>= λ _. done) ≡ m
unfolding ◌>>=◌
bind-done m = fun_ext (λ w. and_then-done (m w))

reply-meaning :
    (extended : Bool) (sector : Sector)
    → uninterrupted (reply_body extended sector) ≡ read_reply extended sector
unfolding uninterrupted reply_body read_reply
reply-meaning true sector = bind-ext (receive 2) _ _ (λ sum. bind-done (send _))
reply-meaning false sector = bind-done (send _)

-- What is sent once the sector is there.
replies : Bool → Sector → Session (Unit {0})
replies extended sector = send sector >>= λ _. read_reply extended sector

replies-meaning :
    (extended : Bool) (sector : Sector)
    → uninterrupted (sending sector (reply_body extended sector)) ≡ replies extended sector
unfolding uninterrupted replies
replies-meaning extended sector = ap (λ k. send sector >>= λ _. k) (reply-meaning extended sector)

or_zeros_lem :
    (r : Result VDiskError Sector)
    → or_zeros r ≡ elim r [ ok sector ↦ sector | err _ ↦ zero_sector ]
or_zeros_lem (ok sector) = refl
or_zeros_lem (err e) = refl

-- The rest of a READ once the drives have been looked up in world `w`.
read_found-meaning :
    (extended : Bool) (lsn : Lsn) (slot : ℕ) (w : World) (found : Option DskFile)
    → get slot w.server.drives ≡ found
    → uninterrupted (read_found extended lsn found) w
      ≡ replies extended (served w.server.drives w.files slot lsn) w
unfolding read_found uninterrupted ◌>>=◌ and_then gets served
read_found-meaning extended lsn slot w none e =
    ap (λ m. m w) (replies-meaning extended zero_sector)
    ∙ ap (λ x. replies extended x w) (rw (served, e))
read_found-meaning extended lsn slot w (some d) e =
    ap (λ m. m w) (replies-meaning extended (or_zeros (Vdisk.read d lsn w.files)))
    ∙ ap (λ x. replies extended x w) (rw (served, e) (or_zeros_lem (Vdisk.read d lsn w.files)))

read-meaning : (extended : Bool) → uninterrupted (read_body extended) ≡ handle_read extended
unfolding uninterrupted read_body handle_read replies ◌>>=◌ and_then gets
read-meaning extended = bind-ext (receive 4) _ _ (λ hdr.
    fun_ext (λ w. read_found-meaning extended _ (at hdr 0) w (get (at hdr 0) w.server.drives) refl))

-- The rest of a WRITE whose checksum was right, from the lookup on.
write_found-meaning :
    (lsn : Lsn) (sector : Sector) (slot : ℕ) (w : World) (found : Option DskFile)
    → get slot w.server.drives ≡ found
    → uninterrupted (write_found lsn sector found) w
      ≡ (store_sector slot lsn sector >>= λ status. send (status ∷ [])) w
unfolding uninterrupted write_found ◌>>=◌ and_then store_sector store write_disk done
write_found-meaning lsn sector slot w none e =
    ap (λ m. m w) (bind-done (send _))
    ∙ ap (λ p. send (p.0 ∷ []) (record w { files = p.1 }))
        (let found : (ErrorCode.to_byte DwError.not_ready, w.files)
              ≡ store w.server.drives w.files slot lsn sector =
            rw (store, e) in
          found)
write_found-meaning lsn sector slot w (some d) e =
    let (r, files') = Vdisk.write d lsn sector w.files in
    ap (λ m. m (record w { files = files' })) (bind-done (send _))
    ∙ ap (λ p. send (p.0 ∷ []) (record w { files = p.1 }))
        (let found : (write_status r, files') ≡ store w.server.drives w.files slot lsn sector =
            rw (store, e) in
          found)

-- A branch that the code takes.
uninterrupted-if :
    (b : Bool) (p q : Program) (m n : Session (Unit {0}))
    → uninterrupted p ≡ m
    → uninterrupted q ≡ n
    → uninterrupted (if b then p else q) ≡ (if b then m else n)
uninterrupted-if true p q m n h k = h
uninterrupted-if false p q m n h k = k

write_checked-meaning :
    (hdr sector sum : List ℕ)
    → uninterrupted (write_checked hdr sector sum) ≡ (
        if from_be2 (at sum 0) (at sum 1) == checksum16 sector
        then (store_sector (at hdr 0) (from_be3 (at hdr 1) (at hdr 2) (at hdr 3)) sector
            >>= λ status. send (status ∷ []))
        else send (ErrorCode.to_byte DwError.crc ∷ []))
unfolding write_checked uninterrupted gets ◌>>=◌ and_then
write_checked-meaning hdr sector sum =
    uninterrupted-if (from_be2 (at sum 0) (at sum 1) == checksum16 sector) _ _ _ _
      (fun_ext
        (λ w. write_found-meaning _ sector (at hdr 0) w (get (at hdr 0) w.server.drives) refl))
      (bind-done (send _))

write-meaning : uninterrupted write_body ≡ handle_write
unfolding uninterrupted write_body handle_write
write-meaning = bind-ext (receive 4) _ _ (λ hdr.
    bind-ext (receive sector_size) _ _
      (λ sector. bind-ext (receive 2) _ _ (λ sum. write_checked-meaning hdr sector sum)))

-- A critical section that ends the turn.
locking-stop : (a : Action) → uninterrupted (locking a (λ _. stop)) ≡ modify (perform a)
unfolding uninterrupted ◌>>=◌ and_then done modify
locking-stop a = refl

set_stat-meaning :
    (channel code : ℕ) → uninterrupted (set_stat_body channel code) ≡ set_stat channel code
unfolding set_stat_body set_stat perform uninterrupted
set_stat-meaning channel code =
    uninterrupted-if (code == open_code) _ _ _ _ (locking-stop (open_channel channel true)) (
      uninterrupted-if (code == close_code) _ _ _ _ (locking-stop (open_channel channel false))
        (uninterrupted-if (code == comst) _ _ _ _ refl refl))

op-meaning : (o : Opcode) → uninterrupted (op_body o) ≡ handle_op o
unfolding op_body handle_op handle_dwinit handle_print handle_serwrite handle_print_flush
    handle_stat handle_ser_open handle_sersetstat handle_time handle_serread handle_serreadm
    handle_serwritem poll_outbox take_outbox answer uninterrupted perform
op-meaning Opcode.nop = refl
op-meaning Opcode.reset1 = refl
op-meaning Opcode.reset2 = refl
op-meaning Opcode.reset3 = refl
op-meaning Opcode.read = read-meaning false
op-meaning Opcode.reread = read-meaning false
op-meaning Opcode.read_ex = read-meaning true
op-meaning Opcode.reread_ex = read-meaning true
op-meaning Opcode.write = write-meaning
op-meaning Opcode.rewrite = write-meaning
op-meaning Opcode.dw_init = bind-ext (receive 1) _ _ (λ _. bind-done (send _))
op-meaning Opcode.time = bind-ext (gets _) _ _ (λ m. bind-done (send (time_bytes m)))
op-meaning Opcode.init = refl
op-meaning Opcode.term = refl
op-meaning Opcode.get_stat = refl
op-meaning Opcode.set_stat = refl
op-meaning Opcode.print = bind-ext (receive 1) _ _ (λ b. locking-stop (print_byte (at b 0)))
op-meaning Opcode.print_flush = locking-stop print_flush
op-meaning Opcode.ser_read = bind-ext (locked poll_one) _ _ (λ reply. bind-done (send reply))
op-meaning Opcode.ser_read_m =
    bind-ext (receive 2) _ _
      (λ p. bind-ext (locked (poll_many (at p 0) (at p 1))) _ _ (λ bytes. bind-done (send bytes)))
op-meaning Opcode.ser_init =
    bind-ext (receive 1) _ _ (λ ch. locking-stop (open_channel (at ch 0) true))
op-meaning Opcode.ser_term =
    bind-ext (receive 1) _ _ (λ ch. locking-stop (open_channel (at ch 0) false))
op-meaning Opcode.ser_write = bind-ext (receive 2) _ _ (λ p. locking-stop (write (at p 0) (at p 1)))
op-meaning Opcode.ser_write_m =
    bind-ext (receive 2) _ _
      (λ hdr. bind-ext (receive (at hdr 1)) _ _ (λ buf. locking-stop (write_many (at hdr 0) buf)))
op-meaning Opcode.ser_set_stat =
    bind-ext (receive 2) _ _ (λ hdr. set_stat-meaning (at hdr 0) (at hdr 1))
op-meaning Opcode.ser_get_stat = refl
op-meaning Opcode.wirebug_mode = refl

body-meaning : (d : Decoded) → uninterrupted (body d) ≡ dispatch d
unfolding body dispatch handle_fastwrite uninterrupted perform
body-meaning (Decoded.op o) = op-meaning o
body-meaning (Decoded.fast_write channel) =
    bind-ext (receive 1) _ _ (λ b. locking-stop (write channel (at b 0)))
body-meaning (Decoded.unknown b) = refl

-- With no other task between its awaits, the program of the loop's head is a turn of the loop: each
-- opcode's handler.
pub head-turn : uninterrupted head ≡ turn
unfolding uninterrupted turn
head-turn = bind-ext receive_opcode _ _ (λ byte. body-meaning (from_byte (at byte 0)))
