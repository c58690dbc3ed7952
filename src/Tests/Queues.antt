-- ===== src/Tests/Queues.antt =====
-- A guest and an attached client that talk over a channel.
use mathlib.Core.List.{flat_map}
use drivewire_rs.Prelude.{◌≡◌, refl, ◌++◌, some, [], ◌∷◌, arith}
use drivewire_rs.Io.{split_exact, taken, read_exact, write_to, write_all}
use drivewire_rs.EchoGuest.{decode_reply}
use drivewire_rs.Proto.Opcode.{from_byte, try_from}
use drivewire_rs.Server.State.{poll, push_vserial, drain_vserial, send_to_vserial}
use drivewire_rs.Server.State.Poll.{guest_reply}
use drivewire_rs.Server.State.Queues.{queue}
use drivewire_rs.Server.Actions.{host_send, host_drain, perform, guest_bytes, to_host, carried}
use drivewire_rs.Server.Actions.Valid.{IsValid}
use drivewire_rs.Server.Session.{lift_io, receive, send, modify, and_then, ◌>>=◌}
use drivewire_rs.Server.Handlers.{handle_serread, handle_serwrite, poll_outbox}
use drivewire_rs.Server.Run.{turn, receive_opcode, head_result, dispatch, handle_op}
use drivewire_rs.Server.Run.Framing.{payload_len}
use drivewire_rs.Server.Run.Asked.{asked}
use drivewire_rs.Server.Run.First.{first_asked, first_given, given_by}
use drivewire_rs.Server.Sessions.{Guests, turn_of}
use drivewire_rs.Server.Awaits.Whole.{Turns, acts, taken_whole, done_outside}
use drivewire_rs.Server.Awaits.Streams.{written, drained, given}
use drivewire_rs.Server.Awaits.Flow.{Turns-to_host_fifo}
use drivewire_rs.Tests.Fixtures.{files, server, clock, quiet}

-- A client sends to channel 2, a guest writes to it and polls, and the client drains what was written.
abbrev talking : Guests
talking = record {
  server = server;
  files = files;
  clock = clock;
  sessions = some (record quiet { input = 0xc3 ∷ 2 ∷ 0x68 ∷ 0x43 ∷ [] }) ∷ [];
}

abbrev told_7 : Guests
told_7 = record talking { server = perform (host_send 2 (7 ∷ [])) server }

abbrev answered : Guests
answered = turn_of 0 (turn_of 0 told_7)

abbrev talked : Guests
talked = record answered { server = perform (host_drain 2) answered.server }

talk : Turns (acts (host_send 2 (7 ∷ [])) ∷ acts (host_drain 2) ∷ []) talking talked
talk =
    done_outside talking (host_send 2 (7 ∷ [])) (omega arith, tt)
      (taken_whole told_7 0 (
        taken_whole (turn_of 0 told_7) 0
          (done_outside answered (host_drain 2) tt (Turns.here talked))))

server-IsValid : IsValid server
server-IsValid = record { inboxes = refl; outboxes = refl; flags = refl; permits = refl }

-- The poll gives the host's byte, and what is written and drained is the guest's.
guest_and_host_hear :
    (given 2 talk ≡ 7 ∷ []) × (written 2 talk ≡ 0x68 ∷ []) × (drained 2 talk ≡ 0x68 ∷ [])
unfolding given written drained turn_of first_given first_asked asked given_by turn receive_opcode
    head_result receive read_exact split_exact taken lift_io dispatch handle_op from_byte try_from
    payload_len handle_serread handle_serwrite poll_outbox poll guest_reply decode_reply carried
    send write_all write_to send_to_vserial drain_vserial perform ◌>>=◌ and_then modify push_vserial
    guest_bytes to_host talk flat_map
guest_and_host_hear = (refl, refl, refl)

Turns-to_host_fifo_example :
    queue server.vserial_inbox 2 ++ written 2 talk
    ≡ drained 2 talk ++ queue talked.server.vserial_inbox 2
Turns-to_host_fifo_example =
    Turns-to_host_fifo talk 2 server-IsValid (refl, tt) (tt, (tt, tt)) (omega arith)
