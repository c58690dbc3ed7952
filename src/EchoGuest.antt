-- ===== src/EchoGuest.antt =====
-- crates/drivewire-cli/examples/echo-guest.rs: a guest that echoes what the host sends to it.
pub mod Loop
pub mod Served
pub mod Echo
pub mod Rounds
pub mod Conversation
use drivewire_rs.Prelude.{ℕ, ◌+◌, ◌-◌, List, [], ◌∷◌, ◌==◌, leb, if◌then◌else◌}

-- What the guest makes of the two bytes of a SERREAD reply: the arms of the match in `main`.
pub data Reply : Type 0 where
  idle : Reply
  single : ℕ → ℕ → Reply
  closing : ℕ → Reply
  burst : ℕ → ℕ → Reply
  unhandled : ℕ → Reply

unfoldable pub decode_reply : ℕ → ℕ → Reply
decode_reply code second =
    if code == 0x00
    then idle
    else if leb code 0x0f
    then single (code - 0x01) second
    else if code == 0x10
    then closing second
    else if leb code 0x1f
    then burst (code - 0x11) second
    else unhandled code

-- `echo_back`: each byte behind a fast-write opcode of the channel.
unfoldable pub echo_back : ℕ → List ℕ → List ℕ
echo_back channel [] = []
echo_back channel (b ∷ bytes) = (0x80 + channel) ∷ b ∷ echo_back channel bytes
