-- ===== src/Server/Sessions.antt =====
-- Many guests on one server: the loop of `serve` in crates/drivewire-cli/src/main.rs that starts a session
-- for each TCP connection, and the sessions' turns between the steps of the other tasks.
pub mod Sound
pub mod Shared
use drivewire_rs.Prelude.{
  ℕ, Option, none, some, List, [], ◌∷◌, ◌++◌, ◌≡◌, Result, ok, err, get_or, set, All, IsByte,
  IsBytes,
}
use drivewire_rs.Io.{Wire}
use drivewire_rs.Vdisk.{Files}
use drivewire_rs.Server.State.{Server}
use drivewire_rs.Server.Actions.{
  Action, write, write_many, poll_one, poll_many, open_channel, host_send, host_drain, host_wait,
  mount_disk, unmount_disk, print_byte, print_flush, perform,
}
use drivewire_rs.Server.Session.{World, ServerError, Clock}
use drivewire_rs.Server.Handlers.{now}
use drivewire_rs.Server.Handlers.Bytes.{calendar}
use drivewire_rs.Server.Run.{turn}

-- The sessions in the order in which they were accepted; `none` is one that has ended.
pub record Guests : Type 0 where
  pub server : Server
  pub files : Files
  pub clock : Clock
  pub sessions : List (Option Wire)

abbrev pub world_of : Guests → Wire → World
world_of g wire = record { server = g.server; files = g.files; wire = wire; clock = g.clock }

-- The guests behind a turn of one session, which ends with an error.
abbrev pub left_by : Result ServerError (Unit {0}) → Wire → Option Wire
left_by (ok _) wire = some wire
left_by (err e) wire = none

abbrev pub settle : ℕ → Guests → Result ServerError (Unit {0}) × World → Guests
settle i g (r, w) = record {
  server = w.server;
  files = w.files;
  clock = g.clock;
  sessions = set g.sessions i (left_by r w.wire);
}

abbrev pub turn_at : ℕ → Guests → Option Wire → Guests
turn_at i g none = g
turn_at i g (some wire) = settle i g (turn (world_of g wire))

unfoldable pub turn_of : ℕ → Guests → Guests
turn_of i g = turn_at i g (get_or g.sessions i none)

-- A new connection.
abbrev pub accept : Wire → Guests → Guests
accept wire g = record g { sessions = g.sessions ++ (some wire ∷ []) }

-- The bytes that an action brings fit a `u8`.
abbrev pub BringsBytes : Action → Type 0
BringsBytes (write channel byte) = IsByte byte
BringsBytes (write_many channel bytes) = IsBytes bytes
BringsBytes (host_send channel bytes) = IsBytes bytes
BringsBytes (print_byte byte) = IsByte byte
BringsBytes _ = Unit

-- What may happen next: a turn of a session, a connection, a step of another task, and time.
pub data Step : Guests → Guests → Type 0 where
  served : (g : Guests) (i : ℕ) → Step g (turn_of i g)
  accepted :
      (g : Guests) (wire : Wire) → IsBytes wire.input → wire.output ≡ [] → Step g (accept wire g)
  acted :
      (g : Guests) (a : Action) → BringsBytes a → Step g (record g { server = perform a g.server })
  passed :
      (g : Guests) (clock : Clock)
      → IsBytes (calendar (now clock))
      → Step g (record g { clock = clock })

pub data Reaches : Guests → Guests → Type 0 where
  here : (g : Guests) → Reaches g g
  then : {g h k : Guests} → Step g h → Reaches h k → Reaches g k
