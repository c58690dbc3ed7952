-- ===== src/Transport.antt =====
-- crates/drivewire-transport/src/lib.rs: the constructors of the transports, with the crate's error. What the host
-- answers to a bind and to each accept is an argument.
use drivewire_rs.Prelude.{List, Result, ok, err}
use drivewire_rs.Io.{IoKind, Wire}
use drivewire_rs.Text.{Text}
use drivewire_rs.Serial.{BlockingSerial}
use drivewire_rs.Serial.Open.{Calls, Table, open_port}

pub data TransportError : Type 0 where
  io : IoKind → TransportError

-- `?` and its `From`.
unfoldable pub from_io {ℓ} : {A : Type ℓ} → Result IoKind A → Result TransportError A
from_io (ok a) = ok a
from_io (err kind) = err (io kind)

-- What the calls of `accept` will return, in order.
abbrev pub TcpListener : Type 0
TcpListener = List (Result IoKind Wire)

unfoldable pub open_serial : Calls → Table → Result TransportError BlockingSerial × Table
unfolding from_io
open_serial calls table = let (port, table') = open_port calls table in (from_io port, table')

unfoldable pub bind_tcp :
    (Text → Result IoKind TcpListener) → Text → Result TransportError TcpListener
unfolding from_io
bind_tcp bind addr = from_io (bind addr)

unfoldable pub accept_tcp : Result IoKind Wire → Result TransportError Wire
unfolding from_io
accept_tcp accepted = from_io accepted
