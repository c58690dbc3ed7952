-- ===== src/Terminal/Attach/Both.antt =====
-- What the two tasks of `dw attach` do together.
use mathlib.Core.List.{append_assoc, append-nil, flatten}
use drivewire_rs.Prelude.{
  ℕ, ◌≡◌, refl, sym, ap, ◌∙◌, Bool, true, false, ◌&&◌, Option, none, some, List, [], ◌∷◌, ◌++◌,
  Result, ok, if◌then◌else◌, Bool-cases, inl, inr,
}
use drivewire_rs.Io.{IoKind, Wire, steady, write_all, write_to}
use drivewire_rs.Terminal.Escape.{process_chunk, attach_sends}
use drivewire_rs.Terminal.LineEndings.{shown, sock_to_stdout}
use drivewire_rs.Terminal.Attach.Keyboard.{keys_read, bytes_read, write_all-steady, keys_sent}
use drivewire_rs.Terminal.Attach.{
  AttachArgs, AttachHost, Event, key_read, sock_read, Attached, write_some, goes_on, stays,
  stdin_pass, payload, stdout_pass, on_event, both_tasks, AttachEnd, detached, still_attached,
  begun, Mode, raw_mode, selected, run_tasks, introduced, connected, attach,
}

-- What the screen's task still shows.
abbrev to_show : Bool → Bool → Bool → List Event → List ℕ
to_show raw showing had_cr events =
    if showing
    then (if raw then flatten (bytes_read events) else shown (bytes_read events) had_cr)
    else []

-- What the screen's task shows of what it writes.
shown-chunk :
    (raw : Bool) (chunk : List ℕ) (had_cr : Bool) (events : List Event)
    → (let (bytes, flag) = payload raw chunk had_cr in bytes ++ to_show raw true flag events) ≡ (
        if raw
        then flatten (chunk ∷ bytes_read events)
        else shown (chunk ∷ bytes_read events) had_cr)
unfolding shown flatten
shown-chunk true chunk h events = refl
shown-chunk false chunk h events = refl

bytes_shown :
    (raw : Bool) (events : List Event) (typing showing armed had_cr : Bool) (sock stdout : Wire)
    → stdout.sink ≡ steady
    → (both_tasks raw events (record {
      sock = sock;
      stdout = stdout;
      escape_armed = armed;
      had_cr = had_cr;
      typing = typing;
      showing = showing;
    })).stdout.output
      ≡ stdout.output ++ to_show raw showing had_cr events
unfolding both_tasks bytes_read shown flatten on_event stdin_pass stdout_pass write_all write_to
bytes_shown true [] t true armed h sock stdout s = sym (append-nil stdout.output)
bytes_shown false [] t true armed h sock stdout s = sym (append-nil stdout.output)
bytes_shown raw [] t false armed h sock stdout s = sym (append-nil stdout.output)
bytes_shown raw (key_read none ∷ events) t w armed h sock stdout s =
    bytes_shown raw events false w armed h sock stdout s
bytes_shown raw (key_read (some chunk) ∷ events) false w armed h sock stdout s =
    bytes_shown raw events false w armed h sock stdout s
bytes_shown raw (key_read (some []) ∷ events) true w armed h sock stdout s =
    bytes_shown raw events false w armed h sock stdout s
bytes_shown raw (key_read (some (b ∷ chunk)) ∷ events) true w armed h sock stdout s =
    let (out, armed', next) = process_chunk (b ∷ chunk) armed in
    let (written, sock') = write_some out sock in
    bytes_shown raw events (goes_on written && stays next) w armed' h sock' stdout s
bytes_shown true (sock_read none ∷ events) t true armed h sock stdout s =
    bytes_shown true events t false armed h sock stdout s
bytes_shown false (sock_read none ∷ events) t true armed h sock stdout s =
    bytes_shown false events t false armed h sock stdout s
bytes_shown raw (sock_read none ∷ events) t false armed h sock stdout s =
    bytes_shown raw events t false armed h sock stdout s
bytes_shown raw (sock_read (some chunk) ∷ events) t false armed h sock stdout s =
    bytes_shown raw events t false armed h sock stdout s
bytes_shown true (sock_read (some []) ∷ events) t true armed h sock stdout s =
    bytes_shown true events t false armed h sock stdout s
bytes_shown false (sock_read (some []) ∷ events) t true armed h sock stdout s =
    bytes_shown false events t false armed h sock stdout s
bytes_shown raw (sock_read (some (b ∷ chunk)) ∷ events) t true armed h sock stdout s =
    let (bytes, flag) = payload raw (b ∷ chunk) h in
    ap
      (λ (p : Result IoKind (Unit {0}) × Wire).
        (both_tasks raw events (record {
          sock = sock;
          stdout = p.1;
          escape_armed = armed;
          had_cr = flag;
          typing = t;
          showing = goes_on p.0;
        })).stdout.output)
      (write_all-steady bytes stdout s)
    ∙ bytes_shown raw events t true armed flag sock
        (record stdout { output = stdout.output ++ bytes }) s
    ∙ append_assoc stdout.output bytes (to_show raw true flag events)
    ∙ ap (λ shown. stdout.output ++ shown) (shown-chunk raw (b ∷ chunk) h events)

-- Where the command has got as far as its two tasks.
abbrev pub tasks_of : AttachEnd × Mode → Option Attached
tasks_of (detached a, mode) = some a
tasks_of (still_attached a, mode) = some a
tasks_of _ = none

selected-tasks :
    (host : AttachHost) (a : Attached) (mode : Mode) → tasks_of (selected host a mode) ≡ some a
unfolding selected
selected-tasks host a mode = elim (Bool-cases (a.typing && a.showing)) [
  | inl e ↦ rw e refl
  | inr e ↦ rw e refl
]

-- With a socket and a terminal that take every byte, and raw mode to be had, in whatever order its
-- two tasks read: dw attach has written to the socket what the loop over the keyboard's reads alone
-- sends, behind the channel's byte, and on the terminal what the loop over the socket's reads alone
-- shows.
pub attach-both :
    (host : AttachHost) (args : AttachArgs) (events : List Event) (stdout sock : Wire) (mode : Mode)
    → host.connect args.socket ≡ ok sock
    → host.enable_raw_mode ≡ none
    → sock.sink ≡ steady
    → stdout.sink ≡ steady
    → (a : Attached) × (tasks_of (attach host args events stdout mode) ≡ some a)
      × (a.sock.output ≡ sock.output ++ attach_sends args.channel (keys_read events))
      × (a.stdout.output ≡ stdout.output ++ sock_to_stdout args.raw (bytes_read events))
unfolding attach connected introduced run_tasks attach_sends sock_to_stdout
attach-both host args events stdout sock mode c e s t =
    let sock' = record sock { output = sock.output ++ (args.channel ∷ []) } in
    let a = both_tasks args.raw events (begun sock' stdout) in
    (
      a,
      ap (λ r. tasks_of (connected host args events stdout r mode)) c
          ∙ ap (λ p. tasks_of (introduced host args events stdout p mode))
              (write_all-steady (args.channel ∷ []) sock s)
          ∙ ap (λ o. tasks_of (run_tasks host args events stdout sock' o mode)) e
          ∙ selected-tasks host a raw_mode,
      keys_sent args.raw events true true false false sock' stdout s
          ∙ append_assoc sock.output (args.channel ∷ []) _,
      bytes_shown args.raw events true true false false sock' stdout t,
    )
