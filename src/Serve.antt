-- ===== src/Serve.antt =====
-- `serve` of crates/drivewire-cli/src/main.rs: from its arguments to a session on the serial port, or to a
-- listener for guests.
pub mod Mounts
pub mod Laws
use drivewire_rs.Prelude.{
  ℕ, zero, suc, ◌<◌, Bool, true, false, Option, none, some, List, [], ◌∷◌, ◌++◌, Result, ok, err,
  ltb, if◌then◌else◌,
}
use drivewire_rs.Io.{IoKind, Wire, unexpected_eof, steady}
use drivewire_rs.Text.{Text}
use drivewire_rs.Vdisk.{Directory, Files, VDiskError}
use drivewire_rs.Control.{serve_disks}
use drivewire_rs.Serial.{BlockingSerial}
use drivewire_rs.Serial.Open.{Calls, Table}
use drivewire_rs.Transport.{TransportError, TcpListener, open_serial, bind_tcp, accept_tcp}
use drivewire_rs.Serial.Drain.{Pass, drain_serial}
use drivewire_rs.Serial.Laws.{pending}
use drivewire_rs.Server.State.{Server, new}
use drivewire_rs.Server.Session.{World, ServerError, Clock}
use drivewire_rs.Server.Run.{run}
use drivewire_rs.Server.Sessions.{Guests}

-- `ServeArgs`; `no_low_latency` chooses a call that does nothing.
pub record ServeArgs : Type 0 where
  pub serial : Option Text
  pub baud : ℕ
  pub tcp : Option Text
  pub disk0 : Option Text
  pub disk1 : Option Text
  pub disk2 : Option Text
  pub disk3 : Option Text
  pub no_low_latency : Bool
  pub drain_ms : ℕ
  pub attach_socket : Text
  pub no_attach_socket : Bool
  pub control_socket : Text
  pub no_control_socket : Bool

-- What the host does: its files, what opening the device comes to, the passes of the drain, the listener that a
-- TCP address is bound to, and the clock.
pub record Host : Type 0 where
  pub directory : Directory
  pub files : Files
  pub device : Text → ℕ → Calls
  pub passes : ℕ → List Pass
  pub binds : Text → Result IoKind TcpListener
  pub clock : Clock

pub data Listener : Type 0 where
  attach_listener control_listener : Text → Listener

-- How the command ends, or what it goes on with: a listener, on a server that has no sessions yet.
pub data Served : Type 0 where
  disk_error : VDiskError → Served
  transport_error : TransportError → Served
  no_transport unreachable : Served
  session_error : ServerError → World → Served
  listening : Guests → TcpListener → Served
  out_of_fuel : Served

-- The sockets that are bound.
unfoldable pub listeners : ServeArgs → List Listener
listeners args =
    (if args.no_attach_socket then [] else attach_listener args.attach_socket ∷ [])
    ++ (if args.no_control_socket then [] else control_listener args.control_socket ∷ [])

-- The stream of a serial port, as a session meets it: writes go to a queue without bounds.
abbrev pub port_wire : BlockingSerial → Wire
port_wire port = record {
  input = pending port;
  ending = unexpected_eof;
  sink = steady;
  output = [];
}

ended : Option (ServerError × World) → Served
ended none = out_of_fuel
ended (some (e, w)) = session_error e w

-- The stale bytes of the port, if a window is given.
unfoldable pub drained : Host → ServeArgs → BlockingSerial → BlockingSerial
drained host args port =
    if ltb 0 args.drain_ms then (drain_serial (host.passes args.drain_ms) port).1 else port

unfoldable pub serve_serial :
    ℕ → Host → ServeArgs → Server → Result TransportError BlockingSerial → Served
unfolding drained ended
serve_serial fuel host args s (err e) = transport_error e
serve_serial fuel host args s (ok port) = ended (
    run fuel (record {
      server = s;
      files = host.files;
      wire = port_wire (drained host args port);
      clock = host.clock;
    }))

-- The loop of accepts, before the first: from here on guests come, and their sessions take turns, as in
-- Server/Sessions.
unfoldable pub serve_tcp : Host → Server → Result TransportError TcpListener → Served
serve_tcp host s (err e) = transport_error e
serve_tcp host s (ok listener) =
    listening (record { server = s; files = host.files; clock = host.clock; sessions = [] })
      listener

-- The match on the two transports.
unfoldable pub serve_on : ℕ → Host → ServeArgs → Table → Option Text → Option Text → Server → Served
unfolding serve_serial serve_tcp open_serial bind_tcp
serve_on fuel host args table (some dev) none s =
    serve_serial fuel host args s (open_serial (host.device dev args.baud) table).0
serve_on fuel host args table none (some addr) s = serve_tcp host s (bind_tcp host.binds addr)
serve_on fuel host args table none none s = no_transport
serve_on fuel host args table (some dev) (some addr) s = unreachable

mounted : (Server → Served) → Result VDiskError (Unit {0}) × Server → Served
mounted go_on (err e, s) = disk_error e
mounted go_on (ok _, s) = go_on s

abbrev pub disk_options : ServeArgs → List (Option Text)
disk_options args = args.disk0 ∷ args.disk1 ∷ args.disk2 ∷ args.disk3 ∷ []

unfoldable pub serve : ℕ → Host → ServeArgs → Table → Served
unfolding mounted serve_on
serve fuel host args table =
    mounted (λ s. serve_on fuel host args table args.serial args.tcp s)
      (serve_disks host.directory host.files 0 (disk_options args) new)
