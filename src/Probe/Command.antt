-- ===== src/Probe/Command.antt =====
-- `probe` from its arguments on: the choice of the transport, and on a serial port the drain.
use mathlib.Core.Path.{subst}
use drivewire_rs.Prelude.{
  ℕ, ◌≡◌, ◌↔◌, refl, sym, ap, ◌∙◌, Bool, true, Option, none, some, List, [], ◌∷◌, Result, ok, err,
  drop,
}
use drivewire_rs.Io.{IoKind, Wire}
use drivewire_rs.Io.Reads.{Reads, brought}
use drivewire_rs.Text.{Text}
use drivewire_rs.Serial.{BlockingSerial, opened}
use drivewire_rs.Serial.Laws.{pending}
use drivewire_rs.Serial.Open.{Calls, Table, open_port}
use drivewire_rs.Serial.Drain.{Pass, drain_serial, drain_serial-pending}
use drivewire_rs.Serve.{port_wire}
use drivewire_rs.Transport.{TransportError, TcpListener, from_io, open_serial, bind_tcp, accept_tcp}
use drivewire_rs.Probe.{ProbeError, probe}
use drivewire_rs.Probe.Laws.{Talks, probe-Talks}

-- `ProbeArgs`; `no_low_latency` chooses a call that does nothing.
pub record ProbeArgs : Type 0 where
  pub serial : Option Text
  pub baud : ℕ
  pub tcp : Option Text
  pub timeout : ℕ
  pub no_low_latency : Bool

-- What opening the device comes to, the passes of the drain, the listener that a TCP address is bound to, and
-- whether its first byte comes before a timeout.
pub record ProbeHost : Type 0 where
  pub device : Text → ℕ → Calls
  pub passes : List Pass
  pub binds : Text → Result IoKind TcpListener
  pub timely : ℕ → Bool

pub data ProbeEnd : Type 0 where
  transport_error : TransportError → ProbeEnd
  no_transport unreachable : ProbeEnd
  -- no guest has connected yet
  listening : ProbeEnd
  probed : Result ProbeError (Unit {0}) → ProbeEnd

unfoldable pub probe_serial : ProbeHost → ℕ → Result TransportError BlockingSerial → ProbeEnd
probe_serial host timeout (err e) = transport_error e
probe_serial host timeout (ok port) =
    probed (probe (host.timely timeout) (port_wire (drain_serial host.passes port).1)).0

unfoldable pub probe_guest : ProbeHost → ℕ → Result TransportError Wire → ProbeEnd
probe_guest host timeout (err e) = transport_error e
probe_guest host timeout (ok wire) = probed (probe (host.timely timeout) wire).0

-- The first accept.
unfoldable pub probe_tcp : ProbeHost → ℕ → Result TransportError TcpListener → ProbeEnd
unfolding probe_guest accept_tcp
probe_tcp host timeout (err e) = transport_error e
probe_tcp host timeout (ok []) = listening
probe_tcp host timeout (ok (accepted ∷ rest)) = probe_guest host timeout (accept_tcp accepted)

unfoldable pub probe_on : ProbeHost → ProbeArgs → Table → Option Text → Option Text → ProbeEnd
unfolding probe_serial probe_tcp open_serial bind_tcp
probe_on host args table (some dev) none =
    probe_serial host args.timeout (open_serial (host.device dev args.baud) table).0
probe_on host args table none (some addr) = probe_tcp host args.timeout (bind_tcp host.binds addr)
probe_on host args table none none = no_transport
probe_on host args table (some dev) (some addr) = unreachable

unfoldable pub probe_command : ProbeHost → ProbeArgs → Table → ProbeEnd
unfolding probe_on
probe_command host args table = probe_on host args table args.serial args.tcp

probe_port-Talks :
    (b : ℕ) (xs : List ℕ) (port : BlockingSerial)
    → pending port ≡ b ∷ xs
    → (probe true (port_wire port)).0 ≡ ok tt ↔ Talks b xs
probe_port-Talks b xs port e =
    subst (λ bytes. (probe true (record (port_wire port) { input = bytes })).0 ≡ ok tt ↔ Talks b xs)
      (sym e) (probe-Talks b xs (port_wire port) refl)

-- A probe that has judged a guest.
pub record Judges (b : ℕ) (xs : List ℕ) (out : ProbeEnd) : Type 0 where
  pub verdict : Result ProbeError (Unit {0})
  pub ended : out ≡ probed verdict
  pub content : verdict ≡ ok tt ↔ Talks b xs

-- With a serial port that opens, and a line that brings some bytes behind those that the drain
-- throws away, the first of them in time: dw probe succeeds just if the server decodes that byte to
-- an opcode, and if that is OP_DWINIT a driver byte follows; so it refuses fast writes, which the
-- server decodes too.
pub probe_command-Judges :
    (host : ProbeHost) (args : ProbeArgs) (table : Table) (dev : Text) (reads : Reads) (b : ℕ)
    (xs : List ℕ)
    → args.serial ≡ some dev
    → args.tcp ≡ none
    → (open_port (host.device dev args.baud) table).0 ≡ ok (opened reads)
    → host.timely args.timeout ≡ true
    → drop (drain_serial host.passes (opened reads)).0 (brought reads) ≡ b ∷ xs
    → Judges b xs (probe_command host args table)
unfolding probe_command probe_on probe_serial open_serial from_io
probe_command-Judges host args table dev reads b xs serial tcp port timely left =
    let after = (drain_serial host.passes (opened reads)).1 in
    record {
      verdict = (probe true (port_wire after)).0;
      ended =
          ap (λ o. probe_on host args table o args.tcp) serial
          ∙ ap (λ o. probe_on host args table (some dev) o) tcp
          ∙ ap (λ r. probe_serial host args.timeout (from_io r)) port
          ∙ ap (λ t. probed (probe t (port_wire after)).0) timely;
      content = probe_port-Talks b xs after (drain_serial-pending reads host.passes ∙ left);
    }
