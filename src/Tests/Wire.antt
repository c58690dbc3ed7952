-- ===== src/Tests/Wire.antt =====
-- The wire primitives, and the session loop.
use drivewire_rs.Prelude.{ℕ, ◌≤◌, ◌<◌, ◌≡◌, refl, List, [], ◌∷◌, arith, ok, err, length, drop, true}
use drivewire_rs.Io.{unexpected_eof, steady}
use drivewire_rs.Proto.Checksum.{checksum16}
use drivewire_rs.Proto.Opcode.{from_byte, try_from}
use drivewire_rs.Server.Session.{io}
use drivewire_rs.Server.Session.Laws.{fed}
use drivewire_rs.Server.Run.{turn, run}
use drivewire_rs.Server.Run.Framing.{payload_len, turn_framing}
use drivewire_rs.Server.Run.Ending.{Ends, run-Ends}
use drivewire_rs.Server.Run.Asked.{asked}
use drivewire_rs.Server.Run.Refinement.{asked_in, IsRefined, run-IsRefined}
use drivewire_rs.Server.Actions.{write, poll_one, open_channel}
use drivewire_rs.Tests.Fixtures.{world}

wraps : checksum16 (0xffff ∷ 2 ∷ []) ≡ 1
unfolding checksum16
wraps = refl

-- SERWRITEM of two bytes, and a NOP behind it.
abbrev burst : List ℕ
burst = 3 ∷ 2 ∷ 0x68 ∷ 0x69 ∷ 0x00 ∷ []

turn_framing_example :
    let n = payload_len (from_byte 0x64) burst in
    let (r, w') = turn (fed (0x64 ∷ burst) world) in
    (w'.wire.input ≡ drop n burst)
    × (w'.wire.sink ≡ steady)
    × (w'.wire.ending ≡ unexpected_eof)
    × (n ≤ length burst → r ≡ ok tt)
    × (length burst < n → r ≡ err (io unexpected_eof))
turn_framing_example = turn_framing 0x64 burst world refl

run-Ends_example : Ends (0x64 ∷ burst) unexpected_eof (run 7 (fed (0x64 ∷ burst) world))
run-Ends_example = run-Ends 7 (fed (0x64 ∷ burst) world) refl (omega arith)

-- SERINIT, SERWRITE and SERREAD, and a burst that is cut off.
abbrev several : List ℕ
several = 0x45 ∷ 3 ∷ 0xc3 ∷ 3 ∷ 0x68 ∷ 0x43 ∷ 0x64 ∷ 3 ∷ 2 ∷ 0x69 ∷ []

several_ask : asked_in 11 several ≡ open_channel 3 true ∷ write 3 0x68 ∷ poll_one ∷ []
unfolding asked_in asked from_byte try_from payload_len
several_ask = refl

run-IsRefined_example : IsRefined (asked_in 11 several) world.server (run 11 (fed several world))
run-IsRefined_example = run-IsRefined 11 (fed several world) refl (omega arith)
