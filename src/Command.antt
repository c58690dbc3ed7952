-- ===== src/Command.antt =====
-- `main` of crates/drivewire-cli/src/main.rs: the commands of `dw` and their arguments, and the commands that talk to
-- the control socket, from the connection to what they report.
pub mod Reading
pub mod Mount
pub mod Report
use drivewire_rs.Prelude.{
  ℕ, Bool, true, false, Option, none, some, List, [], ◌∷◌, ◌||◌, ◌&&◌, ◌==◌, Result, ok, err,
  if◌then◌else◌,
}
use drivewire_rs.Io.{IoKind, Wire}
use drivewire_rs.Text.{Text, chars, starts_with}
use drivewire_rs.Control.Client.{
  mount_request, unmount_request, status_request, read_lines, is_terminal, take_reply,
}
use drivewire_rs.Serial.Open.{Table}
use drivewire_rs.Terminal.Attach.{AttachArgs, AttachHost, Event, Mode, AttachEnd}
use drivewire_rs.Terminal.Attach
use drivewire_rs.Serve.{ServeArgs, Host, Served}
use drivewire_rs.Serve
use drivewire_rs.Probe.Command.{ProbeArgs, ProbeHost, ProbeEnd, probe_command}

-- `path` is `none` if it is not valid UTF-8.
pub record MountArgs : Type 0 where
  pub slot : ℕ
  pub path : Option Text
  pub socket : Text

pub record UnmountArgs : Type 0 where
  pub slot : ℕ
  pub socket : Text

pub record StatusArgs : Type 0 where
  pub socket : Text

pub data Cmd : Type 0 where
  serve : ServeArgs → Cmd
  attach : AttachArgs → Cmd
  mount : MountArgs → Cmd
  unmount : UnmountArgs → Cmd
  status : StatusArgs → Cmd
  probe : ProbeArgs → Cmd

-- The other end of the control socket: whether it takes a request, what comes back, and the error behind that, if
-- it is not the end of the stream.
pub record Daemon : Type 0 where
  pub refuses : Option IoKind
  pub replies : Text → Text
  pub broken : Option IoKind

-- `rejected` has the reply that has been printed.
pub data CommandError : Type 0 where
  not_utf8 : CommandError
  connect_error write_error read_error : IoKind → CommandError
  rejected : Text → CommandError

-- A line with its line feed: `read_line` gives one without it at the end of the stream only, and fails where the
-- stream breaks off instead.
unfoldable pub is_full : Text → Bool
is_full [] = false
is_full (c ∷ []) = c == 0x0a
is_full (c ∷ d ∷ line) = is_full (d ∷ line)

-- A full line at which `control_request` stops is among these.
unfoldable pub ends : List Text → Bool
unfolding is_full
ends [] = false
ends (line ∷ rest) = let later = ends rest in (is_full line && is_terminal line) || later

unfoldable pub read_reply : Text → Option IoKind → Result CommandError Text
unfolding ends take_reply read_lines
read_reply stream none = ok (take_reply (read_lines stream))
read_reply stream (some kind) =
    if ends (read_lines stream) then ok (take_reply (read_lines stream)) else err (read_error kind)

unfoldable pub written_to : Daemon → Text → Option IoKind → Result CommandError Text
unfolding read_reply
written_to d cmd none = read_reply (d.replies cmd) d.broken
written_to d cmd (some kind) = err (write_error kind)

unfoldable pub connected_to : Text → Result IoKind Daemon → Result CommandError Text
unfolding written_to
connected_to cmd (err kind) = err (connect_error kind)
connected_to cmd (ok d) = written_to d cmd d.refuses

-- `control_request`
unfoldable pub request : (Text → Result IoKind Daemon) → Text → Text → Result CommandError Text
unfolding connected_to
request connect socket cmd = connected_to cmd (connect socket)

-- A reply is printed, and one of ERROR fails.
unfoldable pub checked : Result CommandError Text → Result CommandError Text
checked (err e) = err e
checked (ok reply) = if starts_with (chars "ERROR") reply then err (rejected reply) else ok reply

unfoldable pub mount_path :
    (Text → Result IoKind Daemon) → MountArgs → Option Text → Result CommandError Text
unfolding request checked
mount_path connect args none = err not_utf8
mount_path connect args (some path) =
    checked (request connect args.socket (mount_request args.slot path))

unfoldable pub run_mount : (Text → Result IoKind Daemon) → MountArgs → Result CommandError Text
unfolding mount_path
run_mount connect args = mount_path connect args args.path

unfoldable pub run_unmount : (Text → Result IoKind Daemon) → UnmountArgs → Result CommandError Text
unfolding request checked
run_unmount connect args = checked (request connect args.socket (unmount_request args.slot))

unfoldable pub run_status : (Text → Result IoKind Daemon) → StatusArgs → Result CommandError Text
unfolding request
run_status connect args = request connect args.socket status_request

-- What the commands meet.
pub record Outside : Type 0 where
  pub connect : Text → Result IoKind Daemon
  pub host : Host
  pub probe_host : ProbeHost
  pub attach_host : AttachHost
  pub events : List Event
  pub stdout : Wire
  pub mode : Mode
  pub table : Table

-- How the process ends: `main` returns what the command returns.
pub data Exit : Type 0 where
  served : Served → Exit
  attached : AttachEnd → Mode → Exit
  replied : Result CommandError Text → Exit
  probed : ProbeEnd → Exit

unfoldable pub main : ℕ → Outside → Cmd → Exit
unfolding run_mount run_unmount run_status
main fuel o (Cmd.serve args) = served (Serve.serve fuel o.host args o.table)
main fuel o (Cmd.attach args) =
    let (end, mode) = Attach.attach o.attach_host args o.events o.stdout o.mode in attached end mode
main fuel o (Cmd.mount args) = replied (run_mount o.connect args)
main fuel o (Cmd.unmount args) = replied (run_unmount o.connect args)
main fuel o (Cmd.status args) = replied (run_status o.connect args)
main fuel o (Cmd.probe args) = probed (probe_command o.probe_host args o.table)
