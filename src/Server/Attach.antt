-- ===== src/Server/Attach.antt =====
-- `Server::handle_attach`: the two tasks that tie a client's stream to a channel.
pub mod Wakeup
pub mod Notified
pub mod Client
pub mod Outbound
pub mod Delivery
pub mod Departed
pub mod EndToEnd
use drivewire_rs.Prelude.{ℕ, Bool, Option, none, some, List, [], ◌∷◌, ◌++◌, if◌then◌else◌}
use drivewire_rs.Server.State.{Server, drain_vserial, send_to_vserial, wait_vserial_inbox}

-- Where the loop of the outbound task stands: before its drain, asleep in `wait_vserial_inbox`, or left.
pub data Phase : Type 0 where
  draining waiting closed : Phase

-- The server, the outbound task and what it has written to the client.
pub record Attached : Type 0 where
  pub server : Server
  pub phase : Phase
  pub written : List ℕ

-- What the task does with the bytes that it drained; `accepts`: the client still takes bytes.
unfoldable pub deliver : Bool → List ℕ × Server → Attached → Attached
deliver accepts ([], s) a = record a { server = s; phase = waiting }
deliver accepts (b ∷ bytes, s) a =
    if accepts
    then record a { server = s; written = a.written ++ (b ∷ bytes) }
    else record a { server = s; phase = closed }

unfoldable pub wake : Option Server → Attached → Attached
wake none a = a
wake (some s) a = record a { server = s; phase = draining }

unfoldable pub outbound_at : Phase → ℕ → Bool → Attached → Attached
unfolding deliver wake
outbound_at draining channel accepts a = deliver accepts (drain_vserial channel a.server) a
outbound_at waiting channel accepts a = wake (wait_vserial_inbox channel a.server) a
outbound_at closed channel accepts a = a

-- One step of the outbound task. Asleep without a permit it stays as it is.
unfoldable pub outbound : ℕ → Bool → Attached → Attached
unfolding outbound_at
outbound channel accepts a = outbound_at a.phase channel accepts a

-- The inbound task over what the client's reads return: chunks, and `none` for an error. An empty chunk
-- is the end of the stream.
unfoldable pub inbound : ℕ → List (Option (List ℕ)) → Server → Server
inbound channel [] s = s
inbound channel (none ∷ reads) s = s
inbound channel (some [] ∷ reads) s = s
inbound channel (some (b ∷ bytes) ∷ reads) s =
    inbound channel reads (send_to_vserial channel (b ∷ bytes) s)
