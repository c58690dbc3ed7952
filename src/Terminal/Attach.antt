-- ===== src/Terminal/Attach.antt =====
-- `attach` of crates/drivewire-cli/src/main.rs as a whole: the connection, the terminal's mode, and the two
-- tasks between the keyboard, the socket and the screen.
pub mod Laws
pub mod Keyboard
pub mod Both
pub mod Arrives
use drivewire_rs.Prelude.{
  ℕ, Bool, true, false, not, ◌&&◌, Option, none, some, List, [], ◌∷◌, Result, ok, err,
  if◌then◌else◌,
}
use drivewire_rs.Io.{IoKind, Wire, write_all}
use drivewire_rs.Text.{Text}
use drivewire_rs.Terminal.Escape.{EscapeAction, continue, exit, process_chunk}
use drivewire_rs.Terminal.LineEndings.{normalize_line_endings}

pub record AttachArgs : Type 0 where
  pub channel : ℕ
  pub socket : Text
  pub raw : Bool

-- What the host answers: the socket that a path leads to, whether raw mode can be had, and whether it can be
-- left.
pub record AttachHost : Type 0 where
  pub connect : Text → Result IoKind Wire
  pub enable_raw_mode : Option IoKind
  pub disable_raw_mode : Option IoKind

-- What a read of the keyboard or of the socket brings: bytes, an end (no bytes), or an error.
pub data Event : Type 0 where
  key_read sock_read : Option (List ℕ) → Event

-- `typing` and `showing` tell which of the two tasks still run.
pub record Attached : Type 0 where
  pub sock : Wire
  pub stdout : Wire
  pub escape_armed : Bool
  pub had_cr : Bool
  pub typing : Bool
  pub showing : Bool

-- `write_all`, unless there is nothing to write.
abbrev pub write_some : List ℕ → Wire → Result IoKind (Unit {0}) × Wire
write_some [] wire = (ok tt, wire)
write_some (b ∷ bytes) wire = write_all (b ∷ bytes) wire

-- A task goes on behind a write that succeeds.
abbrev pub goes_on : Result IoKind (Unit {0}) → Bool
goes_on (ok _) = true
goes_on (err kind) = false

abbrev pub stays : EscapeAction → Bool
stays continue = true
stays exit = false

-- One pass of the task that reads the keyboard.
unfoldable pub stdin_pass : List ℕ → Attached → Attached
stdin_pass [] a = record a { typing = false }
stdin_pass (b ∷ chunk) a =
    let (out, armed, next) = process_chunk (b ∷ chunk) a.escape_armed in
    let (written, sock') = write_some out a.sock in
    record a { sock = sock'; escape_armed = armed; typing = goes_on written && stays next }

-- What goes to the screen, and the flag for the next chunk.
abbrev pub payload : Bool → List ℕ → Bool → List ℕ × Bool
payload raw chunk had_cr = if raw then (chunk, had_cr) else normalize_line_endings chunk had_cr

-- One pass of the task that reads the socket.
unfoldable pub stdout_pass : Bool → List ℕ → Attached → Attached
stdout_pass raw [] a = record a { showing = false }
stdout_pass raw (b ∷ chunk) a =
    let (bytes, flag) = payload raw (b ∷ chunk) a.had_cr in
    let (written, stdout') = write_all bytes a.stdout in
    record a { stdout = stdout'; had_cr = flag; showing = goes_on written }

-- A task that has ended reads no more.
unfoldable pub on_event : Bool → Event → Attached → Attached
unfolding stdin_pass stdout_pass
on_event raw (key_read none) a = record a { typing = false }
on_event raw (key_read (some chunk)) a = if a.typing then stdin_pass chunk a else a
on_event raw (sock_read none) a = record a { showing = false }
on_event raw (sock_read (some chunk)) a = if a.showing then stdout_pass raw chunk a else a

-- The two tasks, in the order of what they read.
unfoldable pub both_tasks : Bool → List Event → Attached → Attached
both_tasks raw [] a = a
both_tasks raw (e ∷ events) a = both_tasks raw events (on_event raw e a)

-- How the command ends, if it does: by an error, or once one of its tasks has ended.
pub data AttachEnd : Type 0 where
  connect_error write_error raw_mode_error : IoKind → AttachEnd
  detached still_attached : Attached → AttachEnd

-- The mode of the terminal: cooked, or raw.
pub data Mode : Type 0 where
  cooked raw_mode : Mode

-- `RawMode::enable` and its `drop`, whose error is dropped.
abbrev pub enable : Option IoKind → Mode → Mode
enable none mode = raw_mode
enable (some kind) mode = mode

abbrev pub disable : Option IoKind → Mode → Mode
disable none mode = cooked
disable (some kind) mode = mode

-- `tokio::select!`, and what goes out of scope behind it.
unfoldable pub selected : AttachHost → Attached → Mode → AttachEnd × Mode
selected host a mode =
    if a.typing && a.showing
    then (still_attached a, mode)
    else (detached a, disable host.disable_raw_mode mode)

-- Both tasks have been started.
abbrev pub begun : Wire → Wire → Attached
begun sock stdout = record {
  sock = sock;
  stdout = stdout;
  escape_armed = false;
  had_cr = false;
  typing = true;
  showing = true;
}

unfoldable pub run_tasks :
    AttachHost → AttachArgs → List Event → Wire → Wire → Option IoKind → Mode → AttachEnd × Mode
unfolding selected
run_tasks host args events stdout sock (some kind) mode = (raw_mode_error kind, mode)
run_tasks host args events stdout sock none mode =
    selected host (both_tasks args.raw events (begun sock stdout)) (enable none mode)

-- The byte of the channel has been written.
unfoldable pub introduced :
    AttachHost
    → AttachArgs
    → List Event
    → Wire
    → Result IoKind (Unit {0}) × Wire
    → Mode
    → AttachEnd × Mode
unfolding run_tasks
introduced host args events stdout (err kind, sock) mode = (write_error kind, mode)
introduced host args events stdout (ok _, sock) mode =
    run_tasks host args events stdout sock host.enable_raw_mode mode

unfoldable pub connected :
    AttachHost → AttachArgs → List Event → Wire → Result IoKind Wire → Mode → AttachEnd × Mode
unfolding introduced
connected host args events stdout (err kind) mode = (connect_error kind, mode)
connected host args events stdout (ok sock) mode =
    introduced host args events stdout (write_all (args.channel ∷ []) sock) mode

-- `attach`, over what its tasks read: how it ends, and the mode that the terminal is in.
unfoldable pub attach : AttachHost → AttachArgs → List Event → Wire → Mode → AttachEnd × Mode
unfolding connected
attach host args events stdout mode =
    connected host args events stdout (host.connect args.socket) mode
