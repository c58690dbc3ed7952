-- ===== src/Server/Run/Framing.antt =====
-- Each arm of the loop takes exactly its payload.
use mathlib.Core.Path.{subst}
use drivewire_rs.Prelude.{
  ℕ, ◌+◌, ◌≤◌, ◌<◌, ◌≡◌, refl, ap, List, [], ◌∷◌, arith, true, false, Result, ok, err, ◌==◌,
  if◌then◌else◌, get_or, take, drop, length,
}
use drivewire_rs.Io.{steady}
use drivewire_rs.Proto.Opcode.{Opcode, Decoded, from_byte}
use drivewire_rs.Server.Session.{World, ServerError, io, Session, at}
use drivewire_rs.Server.Session.Laws.{bind_of_ok, bind_of_err, receive_enough, receive_short, fed}
use drivewire_rs.Server.Session.Framed.{Framed, Frame, Quiet-done, Quiet-Framed, IsOk}
use drivewire_rs.Server.Handlers.{comst}
use drivewire_rs.Server.Handlers.Framing.{
  handle_read-Framed, handle_write-Framed, handle_dwinit-Framed, handle_stat-Framed,
  handle_print-Framed, handle_print_flush-Framed, handle_fastwrite-Framed, handle_serwrite-Framed,
  handle_ser_open-Framed, handle_serread-Framed, handle_serreadm-Framed, handle_time-Framed,
  handle_serwritem-Framed, handle_sersetstat-Framed,
}
use drivewire_rs.Server.Run.{handle_op, dispatch, head_result, head_error, receive_opcode, turn}

-- The payload that the protocol gives an opcode, from what follows the opcode in the stream.
unfoldable pub payload_len : Decoded → List ℕ → ℕ
payload_len (Decoded.unknown b) xs = 0
payload_len (Decoded.fast_write channel) xs = 1
payload_len (Decoded.op Opcode.read) xs = 4
payload_len (Decoded.op Opcode.reread) xs = 4
payload_len (Decoded.op Opcode.read_ex) xs = 4 + 2
payload_len (Decoded.op Opcode.reread_ex) xs = 4 + 2
payload_len (Decoded.op Opcode.write) xs = 4 + 256 + 2
payload_len (Decoded.op Opcode.rewrite) xs = 4 + 256 + 2
payload_len (Decoded.op Opcode.dw_init) xs = 1
payload_len (Decoded.op Opcode.get_stat) xs = 2
payload_len (Decoded.op Opcode.set_stat) xs = 2
payload_len (Decoded.op Opcode.print) xs = 1
payload_len (Decoded.op Opcode.ser_read_m) xs = 2
payload_len (Decoded.op Opcode.ser_init) xs = 1
payload_len (Decoded.op Opcode.ser_term) xs = 1
payload_len (Decoded.op Opcode.ser_write) xs = 2
payload_len (Decoded.op Opcode.ser_get_stat) xs = 2
payload_len (Decoded.op Opcode.ser_write_m) xs = 2 + get_or xs 1 0
payload_len (Decoded.op Opcode.ser_set_stat) xs = 2 + (if get_or xs 1 0 == comst then 26 else 0)
payload_len (Decoded.op _) xs = 0

at-take : (xs : List ℕ) → at (take 2 xs) 1 ≡ get_or xs 1 0
at-take [] = refl
at-take (x ∷ []) = refl
at-take (x ∷ y ∷ xs) = refl

Framed-cast :
    {len len' : List ℕ → ℕ} {m : Session (Unit {0})}
    → ((xs : List ℕ) → len xs ≡ len' xs)
    → Framed len m
    → Framed len' m
Framed-cast {m = m} e fr = record {
  at = λ w s. subst (λ n. Frame n w.wire.input w.wire.ending (m w)) (e w.wire.input) (fr.at w s);
}

-- Every known opcode, and every fast write, takes its payload and no more.
dispatch-Framed : (d : Decoded) → Framed (payload_len d) (dispatch d)
unfolding payload_len dispatch handle_op
dispatch-Framed (Decoded.unknown b) = Quiet-Framed Quiet-done
dispatch-Framed (Decoded.fast_write channel) = handle_fastwrite-Framed channel
dispatch-Framed (Decoded.op Opcode.read) = handle_read-Framed false
dispatch-Framed (Decoded.op Opcode.reread) = handle_read-Framed false
dispatch-Framed (Decoded.op Opcode.read_ex) = handle_read-Framed true
dispatch-Framed (Decoded.op Opcode.reread_ex) = handle_read-Framed true
dispatch-Framed (Decoded.op Opcode.write) = handle_write-Framed
dispatch-Framed (Decoded.op Opcode.rewrite) = handle_write-Framed
dispatch-Framed (Decoded.op Opcode.dw_init) = handle_dwinit-Framed
dispatch-Framed (Decoded.op Opcode.get_stat) = handle_stat-Framed
dispatch-Framed (Decoded.op Opcode.set_stat) = handle_stat-Framed
dispatch-Framed (Decoded.op Opcode.print) = handle_print-Framed
dispatch-Framed (Decoded.op Opcode.print_flush) = handle_print_flush-Framed
dispatch-Framed (Decoded.op Opcode.time) = handle_time-Framed
dispatch-Framed (Decoded.op Opcode.ser_read) = handle_serread-Framed
dispatch-Framed (Decoded.op Opcode.ser_read_m) = handle_serreadm-Framed
dispatch-Framed (Decoded.op Opcode.ser_init) = handle_ser_open-Framed true
dispatch-Framed (Decoded.op Opcode.ser_term) = handle_ser_open-Framed false
dispatch-Framed (Decoded.op Opcode.ser_write) = handle_serwrite-Framed
dispatch-Framed (Decoded.op Opcode.ser_get_stat) = handle_stat-Framed
dispatch-Framed (Decoded.op Opcode.ser_write_m) =
    Framed-cast (λ xs. omega (arith, at-take xs)) handle_serwritem-Framed
dispatch-Framed (Decoded.op Opcode.ser_set_stat) =
    Framed-cast (λ xs. rw (at-take xs)) handle_sersetstat-Framed
dispatch-Framed (Decoded.op _) = Quiet-Framed Quiet-done

-- With a byte to read, a turn decodes it and dispatches on the rest.
pub turn-fed :
    (b : ℕ) (xs : List ℕ) (w : World) → turn (fed (b ∷ xs) w) ≡ dispatch (from_byte b) (fed xs w)
unfolding turn receive_opcode
turn-fed b xs w =
    bind_of_ok receive_opcode _ (fed (b ∷ xs) w)
      (ap head_result (receive_enough 1 (fed (b ∷ xs) w) (omega arith)))

pub turn-fed_nil : (w : World) → turn (fed [] w) ≡ (err (head_error (io w.wire.ending)), fed [] w)
unfolding turn receive_opcode
turn-fed_nil w =
    bind_of_err receive_opcode _ (fed [] w)
      (ap head_result (receive_short 1 (fed [] w) (omega arith)))

-- On a peer that takes every byte, a turn of the session loop takes exactly the opcode and its
-- payload if the payload is there, and ends with the error of a short read, with all input taken, if
-- it is not.
pub turn_framing :
    (b : ℕ) (xs : List ℕ) (w : World)
    → w.wire.sink ≡ steady
    → let n = payload_len (from_byte b) xs in
      let (r, w') = turn (fed (b ∷ xs) w) in
      (w'.wire.input ≡ drop n xs)
      × (w'.wire.sink ≡ steady)
      × (w'.wire.ending ≡ w.wire.ending)
      × (n ≤ length xs → r ≡ ok tt)
      × (length xs < n → r ≡ err (io w.wire.ending))
turn_framing b xs w s = rw (turn-fed b xs w) (
    let fr = (dispatch-Framed (from_byte b)).at (fed xs w) s in
    (fr.rest, fr.stays, fr.ends, λ h. ok_of_IsOk _ (fr.enough h), fr.short))
  where
    ok_of_IsOk : (r : Result ServerError (Unit {0})) → IsOk r → r ≡ ok tt
    ok_of_IsOk (ok tt) h = refl
    ok_of_IsOk (err e) h = absurd h
