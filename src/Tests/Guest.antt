-- ===== src/Tests/Guest.antt =====
-- The example guest against a session, and sessions that break off.
use drivewire_rs.Prelude.{◌≡◌, refl, [], ◌∷◌, arith, err, IsByte, IsBytes}
use drivewire_rs.Prelude.Bytes.{replicate-All}
use drivewire_rs.Io.{unexpected_eof}
use drivewire_rs.EchoGuest.Loop.{converse}
use drivewire_rs.EchoGuest.Served.{served_link, session}
use drivewire_rs.EchoGuest.Conversation.{waiting, Echoed, converse-Echoed}
use drivewire_rs.Proto.Opcode.{from_byte, try_from}
use drivewire_rs.Server.State.{Server, new}
use drivewire_rs.Server.Actions.Valid.{IsValid}
use drivewire_rs.Server.Session.{World, io}
use drivewire_rs.Server.Session.Laws.{fed}
use drivewire_rs.Server.Handlers.Bytes.{IsTypedWorld}
use drivewire_rs.Server.Run.{turn, run}
use drivewire_rs.Server.Run.Atomic.{IsUntouched, turn_atomic}
use drivewire_rs.Server.Run.Framing.{payload_len, turn_framing}
use drivewire_rs.Server.Run.Returns.{Returns}
use drivewire_rs.Server.Run.Typed.{run-IsTypedWorld}
use drivewire_rs.Tests.Fixtures.{world}

-- Four bytes for channel 1, and two for channel 2.
abbrev sent_to_guest : Server
sent_to_guest = record new {
  vserial_outbox =
      []
      ∷ (1 ∷ 2 ∷ 3 ∷ 4 ∷ [])
      ∷ (5 ∷ 6 ∷ [])
      ∷ []
      ∷ []
      ∷ []
      ∷ []
      ∷ []
      ∷ []
      ∷ []
      ∷ []
      ∷ []
      ∷ []
      ∷ []
      ∷ []
      ∷ []
      ∷ [];
}

sent_to_guest-IsValid : IsValid sent_to_guest
sent_to_guest-IsValid = record { inboxes = refl; outboxes = refl; flags = refl; permits = refl }

converse-Echoed_example :
    Echoed world sent_to_guest (converse served_link 6 (session world sent_to_guest))
unfolding waiting
converse-Echoed_example =
    converse-Echoed 6 world sent_to_guest sent_to_guest-IsValid refl (omega arith)

-- OP_WRITE that breaks off behind its header.
abbrev broken_off : World
broken_off = fed (0x57 ∷ 0 ∷ 0 ∷ 0 ∷ 1 ∷ 9 ∷ []) world

broken_off_lem : (turn broken_off).0 ≡ err (io unexpected_eof)
unfolding payload_len from_byte try_from
broken_off_lem =
    let (left, stays, ends, enough, short) =
      turn_framing 0x57 (0 ∷ 0 ∷ 0 ∷ 1 ∷ 9 ∷ []) world refl in
    short (omega arith)

turn_atomic_example : IsUntouched broken_off (turn broken_off).1
turn_atomic_example = turn_atomic broken_off (io unexpected_eof) refl broken_off_lem

world-IsTypedWorld : IsTypedWorld (fed (0x43 ∷ 0xff ∷ []) world)
world-IsTypedWorld = record {
  server = record {
    valid = record { inboxes = refl; outboxes = refl; flags = refl; permits = refl };
    inboxes = replicate-All IsBytes 16 [] tt;
    outboxes = replicate-All IsBytes 16 [] tt;
    printed = tt;
  };
  files = λ id. replicate-All IsByte 512 7 (omega arith);
  input = (omega arith, (omega arith, tt));
  output = tt;
  clock = (omega arith, (omega arith, (omega arith, (omega arith, (omega arith, tt)))));
}

run-IsTypedWorld_example : Returns IsTypedWorld (run 3 (fed (0x43 ∷ 0xff ∷ []) world))
run-IsTypedWorld_example =
    run-IsTypedWorld 3 (fed (0x43 ∷ 0xff ∷ []) world) (omega arith) world-IsTypedWorld
