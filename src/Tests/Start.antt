-- ===== src/Tests/Start.antt =====
-- The start of the server on concrete arguments.
use drivewire_rs.Prelude.{◌≡◌, ◌≤◌, refl, true, false, none, some, [], ◌∷◌, arith, ok, length, drop}
use drivewire_rs.Io.{unexpected_eof}
use drivewire_rs.Io.Reads.{Reads, brought}
use drivewire_rs.Text.{chars}
use drivewire_rs.Vdisk.{Directory, open_dsk}
use drivewire_rs.Control.{serve_disks}
use drivewire_rs.Serial.{opened, poll_read, reader_loop, poll_reads}
use drivewire_rs.Serial.Open.{Calls, open_port, Balanced, open_port-Balanced}
use drivewire_rs.Serial.Drain.{arrived, timed_out, drain_serial, drain_serial-poll_reads}
use drivewire_rs.Server.State.{Server, new}
use drivewire_rs.Probe.Command.{ProbeArgs, ProbeHost, probe_command, Judges, probe_command-Judges}
use drivewire_rs.Serve.{ServeArgs, Host, serve, disk_options}
use drivewire_rs.Serve.Mounts.{Settled, serve_disks-Settled}
use drivewire_rs.Serve.Laws.{SerialEnds, serve-SerialEnds}
use drivewire_rs.Tests.Fixtures.{files, clock}

-- A stale byte, and then OP_DWINIT.
abbrev line : Reads
line = some (0x55 ∷ []) ∷ some (0x5a ∷ 0x42 ∷ []) ∷ some [] ∷ []

abbrev calls : Calls
calls = record {
  path = none;
  open_device = ok 3;
  configure_termios = none;
  dup = ok 4;
  reads = line;
}

open_port-Balanced_example : Balanced calls (0 ∷ 1 ∷ 2 ∷ []) (open_port calls (0 ∷ 1 ∷ 2 ∷ []))
open_port-Balanced_example = open_port-Balanced calls (0 ∷ 1 ∷ 2 ∷ []) (
  ((λ e. cc, (λ e. cc, (λ e. cc, tt))), ((λ e. cc, (λ e. cc, (λ e. cc, (λ e. cc, tt)))), tt)),
  tt,
)

drain_serial-poll_reads_example :
    let (n, port) = drain_serial (arrived ∷ timed_out ∷ []) (opened line) in
    let (bytes, failure, last) = poll_reads (9 ∷ 9 ∷ 9 ∷ 9 ∷ []) port in
    (n ≤ length (brought line)) × (bytes ≡ drop n (brought line)) × (failure ≡ some unexpected_eof)
drain_serial-poll_reads_example =
    drain_serial-poll_reads line (arrived ∷ timed_out ∷ []) (9 ∷ 9 ∷ 9 ∷ 9 ∷ [])
      (omega arith, (omega arith, (omega arith, (omega arith, tt)))) (omega arith)

abbrev one_file : Directory
one_file path write = ok 0

abbrev args : ServeArgs
args = record {
  serial = some (chars "/dev/ttyUSB0");
  baud = 57600;
  tcp = none;
  disk0 = none;
  disk1 = some (chars "a.dsk");
  disk2 = none;
  disk3 = none;
  no_low_latency = false;
  drain_ms = 250;
  attach_socket = chars "/tmp/a";
  no_attach_socket = false;
  control_socket = chars "/tmp/c";
  no_control_socket = true;
}

abbrev pub host : Host
host = record {
  directory = one_file;
  files = files;
  device = λ dev baud. calls;
  passes = λ ms. arrived ∷ [];
  binds = λ addr. ok [];
  clock = clock;
}

abbrev started : Server
started = (serve_disks one_file files 0 (disk_options args) new).1

serve_disks-Settled_example :
    Settled one_file files 0
      (disk_options args)
      new
      (serve_disks one_file files 0 (disk_options args) new)
serve_disks-Settled_example = serve_disks-Settled one_file files 0 (disk_options args) new

disks_lem : serve_disks one_file files 0 (disk_options args) new ≡ (ok tt, started)
unfolding serve_disks open_dsk
disks_lem = refl

port_lem : (open_port calls []).0 ≡ ok (opened line)
unfolding open_port
port_lem = refl

serve-SerialEnds_example : SerialEnds args line (serve 9 host args [])
serve-SerialEnds_example =
    serve-SerialEnds 9 host args [] (chars "/dev/ttyUSB0") started line refl refl disks_lem port_lem
      (omega arith)

abbrev probe_args : ProbeArgs
probe_args = record {
  serial = some (chars "/dev/ttyUSB0");
  baud = 57600;
  tcp = none;
  timeout = 10;
  no_low_latency = false;
}

abbrev pub probe_host : ProbeHost
probe_host = record {
  device = λ dev baud. calls;
  passes = arrived ∷ [];
  binds = λ addr. ok [];
  timely = λ seconds. true;
}

left_lem : drop (drain_serial (arrived ∷ []) (opened line)).0 (brought line) ≡ 0x5a ∷ 0x42 ∷ []
unfolding drain_serial poll_read reader_loop
left_lem = refl

probe_command-Judges_example : Judges 0x5a (0x42 ∷ []) (probe_command probe_host probe_args [])
probe_command-Judges_example =
    probe_command-Judges probe_host probe_args [] (chars "/dev/ttyUSB0") line 0x5a (0x42 ∷ []) refl
      refl port_lem refl left_lem
