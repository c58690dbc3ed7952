-- ===== src/Server/Run/Asked.antt =====
-- What each opcode asks of the shared server, read off its payload alone, and that its handler does so.
use drivewire_rs.Prelude.{
  ℕ, ◌≡◌, refl, ap, Bool, true, false, List, [], ◌∷◌, ◌==◌, if◌then◌else◌, take, drop,
}
use drivewire_rs.Proto.Checksum.{checksum16}
use drivewire_rs.Proto.Lsn.{Lsn}
use drivewire_rs.Proto.Opcode.{Opcode, Decoded}
use drivewire_rs.Vdisk.{Sector}
use drivewire_rs.Server.Actions.{
  Action, write, write_many, poll_one, poll_many, open_channel, print_byte, print_flush, perform,
  perform_all,
}
use drivewire_rs.Server.Session.{Session, ◌>>=◌, receive, at, from_be2}
use drivewire_rs.Server.Handlers.{
  store_sector, poll_outbox, take_outbox, handle_read, read_reply, handle_write, handle_dwinit,
  handle_stat, handle_print, handle_print_flush, handle_fastwrite, handle_serwrite, handle_ser_open,
  handle_serread, handle_serwritem, set_stat, handle_sersetstat, handle_serreadm, handle_time,
  open_code, close_code, comst,
}
use drivewire_rs.Server.Run.{handle_op, dispatch}
use drivewire_rs.Server.Run.Doing.{
  Does, Acts, Acts-Does, Acts-then, Does-still, Acts-gets, Acts-send, Acts-modify, Does-done,
  Does-if, Does-either, Does-receive, Does-cast,
}

-- SERSETSTAT opens or closes its channel by the code SS.Open or SS.Close.
abbrev pub told : ℕ → ℕ → List Action
told channel code =
    if code == 0x29
    then open_channel channel true ∷ []
    else if code == 0x2a
    then open_channel channel false ∷ []
    else []

-- The steps that an opcode asks for, from what follows it in the stream.
unfoldable pub asked : Decoded → List ℕ → List Action
asked (Decoded.fast_write channel) xs = write channel (at xs 0) ∷ []
asked (Decoded.op Opcode.ser_write) xs = write (at xs 0) (at xs 1) ∷ []
asked (Decoded.op Opcode.ser_write_m) xs = write_many (at xs 0) (take (at xs 1) (drop 2 xs)) ∷ []
asked (Decoded.op Opcode.ser_read) xs = poll_one ∷ []
asked (Decoded.op Opcode.ser_read_m) xs = poll_many (at xs 0) (at xs 1) ∷ []
asked (Decoded.op Opcode.ser_init) xs = open_channel (at xs 0) true ∷ []
asked (Decoded.op Opcode.ser_term) xs = open_channel (at xs 0) false ∷ []
asked (Decoded.op Opcode.ser_set_stat) xs = told (at xs 0) (at xs 1)
asked (Decoded.op Opcode.print) xs = print_byte (at xs 0) ∷ []
asked (Decoded.op Opcode.print_flush) xs = print_flush ∷ []
asked _ xs = []

store_sector-Acts :
    (slot : ℕ) (lsn : Lsn) (sector : Sector) → Acts [] (store_sector slot lsn sector)
unfolding store_sector perform_all
store_sector-Acts slot lsn sector = record { at = λ w s. (_, _, refl, s, refl) }

poll_outbox-Acts : Acts (poll_one ∷ []) poll_outbox
unfolding poll_outbox perform_all perform
poll_outbox-Acts = record { at = λ w s. (_, _, refl, s, refl) }

take_outbox-Acts : (c n : ℕ) → Acts (poll_many c n ∷ []) (take_outbox c n)
unfolding take_outbox perform_all perform
take_outbox-Acts c n = record { at = λ w s. (_, _, refl, s, refl) }

read_reply-Does : (extended : Bool) (sector : Sector) → Does (λ _. []) (read_reply extended sector)
unfolding read_reply
read_reply-Does true sector = Does-receive 2 λ sum. Acts-Does (Acts-send _)
read_reply-Does false sector = Acts-Does (Acts-send _)

handle_read-Does : (extended : Bool) → Does (λ _. []) (handle_read extended)
unfolding handle_read
handle_read-Does extended = Does-receive 4 λ hdr.
    Does-still (Acts-gets _)
      λ sector. Does-still (Acts-send sector) λ _. read_reply-Does extended sector

handle_write-Does : Does (λ _. []) handle_write
unfolding handle_write
handle_write-Does = Does-receive 4 λ hdr. Does-receive 256 λ sector. Does-receive 2 λ sum.
    Does-either (from_be2 (at sum 0) (at sum 1) == checksum16 sector)
      (Acts-Does (Acts-then (store_sector-Acts _ _ sector) λ status. Acts-send _))
      (Acts-Does (Acts-send _))

set_stat-Does : (channel code : ℕ) → Does (λ _. told channel code) (set_stat channel code)
unfolding set_stat perform
set_stat-Does channel code =
    Does-if (code == open_code) (Acts-Does (Acts-modify (open_channel channel true) _ (λ s. refl)))
      (Does-if (code == close_code)
        (Acts-Does (Acts-modify (open_channel channel false) _ (λ s. refl)))
        (Does-either (code == comst) (Does-receive 26 λ payload. Does-done) Does-done))

-- The bytes of a payload that has been cut off the input.
first_of_one : (xs : List ℕ) → at (take 1 xs) 0 ≡ at xs 0
first_of_one [] = refl
first_of_one (x ∷ xs) = refl

first_of_two : (xs : List ℕ) → at (take 2 xs) 0 ≡ at xs 0
first_of_two [] = refl
first_of_two (x ∷ []) = refl
first_of_two (x ∷ y ∷ xs) = refl

second_of_two : (xs : List ℕ) → at (take 2 xs) 1 ≡ at xs 1
second_of_two [] = refl
second_of_two (x ∷ []) = refl
second_of_two (x ∷ y ∷ xs) = refl

module _ (act : ℕ → Action) {f : ℕ → Session (Unit {0})} where
  Does-one :
      ((b : ℕ) → Does (λ _. act b ∷ []) (f b))
      → Does (λ xs. act (at xs 0) ∷ []) (receive 1 >>= λ bytes. f (at bytes 0))
  Does-one k =
      Does-cast (λ xs. ap (λ b. act b ∷ []) (first_of_one xs))
        (Does-receive 1 λ bytes. k (at bytes 0))

module _ (acts : ℕ → ℕ → List Action) {f : ℕ → ℕ → Session (Unit {0})} where
  Does-two :
      ((a b : ℕ) → Does (λ _. acts a b) (f a b))
      → Does (λ xs. acts (at xs 0) (at xs 1)) (receive 2 >>= λ bytes. f (at bytes 0) (at bytes 1))
  Does-two k =
      Does-cast (λ xs i. acts (first_of_two xs i) (second_of_two xs i))
        (Does-receive 2 λ bytes. k (at bytes 0) (at bytes 1))

handle_serwritem-Does : Does (asked (Decoded.op Opcode.ser_write_m)) handle_serwritem
unfolding handle_serwritem asked perform
handle_serwritem-Does =
    Does-cast (λ xs i. write_many (first_of_two xs i) (take (second_of_two xs i) (drop 2 xs)) ∷ [])
      (Does-receive 2 λ hdr.
        Does-receive (at hdr 1)
          λ buf. Acts-Does (Acts-modify (write_many (at hdr 0) buf) _ (λ s. refl)))

handle_op-Does : (o : Opcode) → Does (asked (Decoded.op o)) (handle_op o)
unfolding asked handle_op handle_dwinit handle_stat handle_print handle_print_flush handle_serwrite
    handle_ser_open handle_serread handle_sersetstat handle_serreadm handle_time perform
handle_op-Does Opcode.read = handle_read-Does false
handle_op-Does Opcode.reread = handle_read-Does false
handle_op-Does Opcode.read_ex = handle_read-Does true
handle_op-Does Opcode.reread_ex = handle_read-Does true
handle_op-Does Opcode.write = handle_write-Does
handle_op-Does Opcode.rewrite = handle_write-Does
handle_op-Does Opcode.dw_init = Does-receive 1 λ driver. Acts-Does (Acts-send _)
handle_op-Does Opcode.time = Acts-Does (Acts-then (Acts-gets _) λ m. Acts-send _)
handle_op-Does Opcode.get_stat = Does-receive 2 λ p. Does-done
handle_op-Does Opcode.set_stat = Does-receive 2 λ p. Does-done
handle_op-Does Opcode.ser_get_stat = Does-receive 2 λ p. Does-done
handle_op-Does Opcode.print =
    Does-one print_byte (λ b. Acts-Does (Acts-modify (print_byte b) _ (λ s. refl)))
handle_op-Does Opcode.print_flush = Acts-Does (Acts-modify print_flush _ (λ s. refl))
handle_op-Does Opcode.ser_read = Acts-Does (Acts-then poll_outbox-Acts λ reply. Acts-send reply)
handle_op-Does Opcode.ser_read_m =
    Does-two (λ c n. poll_many c n ∷ [])
      (λ c n. Acts-Does (Acts-then (take_outbox-Acts c n) λ bytes. Acts-send bytes))
handle_op-Does Opcode.ser_init =
    Does-one (λ c. open_channel c true)
      (λ c. Acts-Does (Acts-modify (open_channel c true) _ (λ s. refl)))
handle_op-Does Opcode.ser_term =
    Does-one (λ c. open_channel c false)
      (λ c. Acts-Does (Acts-modify (open_channel c false) _ (λ s. refl)))
handle_op-Does Opcode.ser_write =
    Does-two (λ c b. write c b ∷ []) (λ c b. Acts-Does (Acts-modify (write c b) _ (λ s. refl)))
handle_op-Does Opcode.ser_write_m = handle_serwritem-Does
handle_op-Does Opcode.ser_set_stat = Does-two told set_stat-Does
handle_op-Does _ = Does-done

-- Every opcode does what its payload asks for.
pub dispatch-Does : (d : Decoded) → Does (asked d) (dispatch d)
unfolding asked dispatch handle_fastwrite perform
dispatch-Does (Decoded.op o) = handle_op-Does o
dispatch-Does (Decoded.fast_write channel) =
    Does-one (write channel) (λ b. Acts-Does (Acts-modify (write channel b) _ (λ s. refl)))
dispatch-Does (Decoded.unknown b) = Does-done
