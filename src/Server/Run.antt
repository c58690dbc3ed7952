-- ===== src/Server/Run.antt =====
-- `Server::run`: the loop over the opcodes of one session.
pub mod Framing
pub mod Ending
pub mod Returns
pub mod Performed
pub mod Doing
pub mod Asked
pub mod Rules
pub mod Typed
pub mod Refinement
pub mod First
pub mod Atomic
pub mod RoundTrip
use drivewire_rs.Prelude.{
  ℕ, zero, suc, Bool, true, false, Option, none, some, List, [], ◌∷◌, Result, ok, err, length,
}
use drivewire_rs.Io
use drivewire_rs.Io.{IoKind, unexpected_eof, other_kind}
use drivewire_rs.Proto.Opcode.{Opcode, Decoded, from_byte}
use drivewire_rs.Server.Session.{World, ServerError, eof, io, Session, ◌>>=◌, done, receive, at}
use drivewire_rs.Server.Handlers.{
  handle_read, handle_write, handle_dwinit, handle_stat, handle_print, handle_print_flush,
  handle_fastwrite, handle_serwrite, handle_ser_open, handle_serread, handle_serwritem,
  handle_sersetstat, handle_serreadm, handle_time,
}

-- The arms of the match on a known opcode.
unfoldable pub handle_op : Opcode → Session (Unit {0})
handle_op Opcode.nop = done
handle_op Opcode.reset1 = done
handle_op Opcode.reset2 = done
handle_op Opcode.reset3 = done
handle_op Opcode.read = handle_read false
handle_op Opcode.reread = handle_read false
handle_op Opcode.read_ex = handle_read true
handle_op Opcode.reread_ex = handle_read true
handle_op Opcode.write = handle_write
handle_op Opcode.rewrite = handle_write
handle_op Opcode.dw_init = handle_dwinit
handle_op Opcode.time = handle_time
handle_op Opcode.init = done
handle_op Opcode.term = done
handle_op Opcode.get_stat = handle_stat
handle_op Opcode.set_stat = handle_stat
handle_op Opcode.print = handle_print
handle_op Opcode.print_flush = handle_print_flush
handle_op Opcode.ser_read = handle_serread
handle_op Opcode.ser_read_m = handle_serreadm
handle_op Opcode.ser_init = handle_ser_open true
handle_op Opcode.ser_term = handle_ser_open false
handle_op Opcode.ser_write = handle_serwrite
handle_op Opcode.ser_write_m = handle_serwritem
handle_op Opcode.ser_set_stat = handle_sersetstat
handle_op Opcode.ser_get_stat = handle_stat
-- known and unimplemented: skipped
handle_op Opcode.wirebug_mode = done

-- An unknown byte is skipped: the next byte is taken for an opcode.
unfoldable pub dispatch : Decoded → Session (Unit {0})
dispatch (Decoded.op o) = handle_op o
dispatch (Decoded.fast_write channel) = handle_fastwrite channel
dispatch (Decoded.unknown b) = done

-- The error of the read at the head of the loop: the end of the stream is `Eof`.
unfoldable pub head_error : ServerError → ServerError
head_error (io unexpected_eof) = eof
head_error e = e

unfoldable pub head_result :
    Result ServerError (List ℕ) × World → Result ServerError (List ℕ) × World
unfolding head_error
head_result (ok b, w) = (ok b, w)
head_result (err e, w) = (err (head_error e), w)

unfoldable pub receive_opcode : Session (List ℕ)
unfolding head_result
receive_opcode w = head_result (receive 1 w)

-- One turn of the loop.
unfoldable pub turn : Session (Unit {0})
unfolding receive_opcode
turn = do byte ← receive_opcode; dispatch (from_byte (at byte 0))

-- A turn that succeeds is followed by the rest of the loop.
unfoldable pub next :
    (World → Option (ServerError × World))
    → Result ServerError (Unit {0}) × World
    → Option (ServerError × World)
next loop (ok _, w) = loop w
next loop (err e, w) = some (e, w)

-- The loop ends with an error only; `none` is the end of the fuel.
unfoldable pub run : ℕ → World → Option (ServerError × World)
unfolding next
run zero w = none
run (suc fuel) w = next (λ w'. run fuel w') (turn w)
