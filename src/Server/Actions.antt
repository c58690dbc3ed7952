-- ===== src/Server/Actions.antt =====
-- The steps by which sessions, attached clients and the control socket change the shared server. Each
-- stands for one critical section, so any interleaving of the tasks is a list of them.
pub mod Fifo
pub mod Valid
use drivewire_rs.Prelude.{
  ℕ, Bool, Option, none, some, List, [], ◌∷◌, ◌++◌, ◌==◌, ltb, leb, take, length, get_or,
  if◌then◌else◌,
}
use drivewire_rs.EchoGuest.{Reply, idle, single, closing, burst, unhandled}
use drivewire_rs.Vdisk.{DskFile}
use drivewire_rs.Server.State.{
  Server, vserial_channels, mount, unmount, push_vserial, drain_vserial, send_to_vserial,
  wait_vserial_inbox, set_channel_open, poll, read_many,
}
use drivewire_rs.Server.State.Poll.{guest_reply}
use drivewire_rs.Server.Handlers.{extend_inbox}

pub data Action : Type 0 where
  -- a guest's SERWRITE or fast write, its SERWRITEM, and its polls
  write : ℕ → ℕ → Action
  write_many : ℕ → List ℕ → Action
  poll_one : Action
  poll_many : ℕ → ℕ → Action
  open_channel : ℕ → Bool → Action
  -- an attached client
  host_send : ℕ → List ℕ → Action
  host_drain : ℕ → Action
  host_wait : ℕ → Action
  -- the control socket
  mount_disk : ℕ → DskFile → Action
  unmount_disk : ℕ → Action
  -- the printer
  print_byte : ℕ → Action
  print_flush : Action

unfoldable pub perform : Action → Server → Server
perform (write channel byte) s = push_vserial channel byte s
perform (write_many channel bytes) s = extend_inbox channel bytes s
perform poll_one s = record s { vserial_outbox = (poll 0 s.vserial_outbox).1 }
perform (poll_many channel count) s = record s {
  vserial_outbox = (read_many channel count s.vserial_outbox).1;
}
perform (open_channel channel flag) s = set_channel_open channel flag s
perform (host_send channel bytes) s = send_to_vserial channel bytes s
perform (host_drain channel) s = (drain_vserial channel s).1
perform (host_wait channel) s = elim (wait_vserial_inbox channel s) [ none ↦ s | some s' ↦ s' ]
perform (mount_disk slot disk) s = mount slot disk s
perform (unmount_disk slot) s = unmount slot s
perform (print_byte byte) s = record s { print_buffer = s.print_buffer ++ (byte ∷ []) }
perform print_flush s = record s { print_buffer = [] }

unfoldable pub perform_all : List Action → Server → Server
perform_all [] s = s
perform_all (a ∷ rest) s = perform_all rest (perform a s)

-- What an action hands over for channel `c`: bytes from the host for the guest, and from the guest for
-- the host.
unfoldable pub host_bytes : ℕ → Action → List ℕ
host_bytes c (host_send channel bytes) = if channel == c then bytes else []
host_bytes c _ = []

unfoldable pub guest_bytes : ℕ → Action → List ℕ
guest_bytes c (write channel byte) = if channel == c then byte ∷ [] else []
guest_bytes c (write_many channel bytes) = if channel == c then bytes else []
guest_bytes c _ = []

-- The byte that a guest reads of a poll's reply, if it is for channel `c`.
unfoldable pub carried : ℕ → Reply → List ℕ
carried c (single channel byte) = if channel == c then byte ∷ [] else []
carried c _ = []

-- What a guest gets of channel `c` by an action: the byte that a reply carries, and of the answer of
-- SERREADM the part before the padding.
unfoldable pub to_guest : ℕ → Action → Server → List ℕ
unfolding carried
to_guest c poll_one s = carried c (guest_reply (poll 0 s.vserial_outbox).0)
to_guest c (poll_many channel count) s =
    if channel == c
    then take (length (get_or s.vserial_outbox c [])) (read_many channel count s.vserial_outbox).0
    else []
to_guest c _ s = []

-- What an attached client gets of channel `c` by an action.
unfoldable pub to_host : ℕ → Action → Server → List ℕ
to_host c (host_drain channel) s = if channel == c then (drain_vserial channel s).0 else []
to_host c _ s = []

-- The same over a list of actions.
unfoldable pub gathered : (Action → Server → List ℕ) → List Action → Server → List ℕ
gathered f [] s = []
gathered f (a ∷ rest) s = f a s ++ gathered f rest (perform a s)
