-- ===== src/Terminal/Attach/Keyboard.antt =====
-- What the keyboard's task of `dw attach` sends while the screen's task runs beside it.
use mathlib.Core.List.{append_assoc, append-nil}
use drivewire_rs.Prelude.{
  ℕ, ◌≡◌, refl, sym, ap, ◌∙◌, Bool, true, false, ◌&&◌, none, some, List, [], ◌∷◌, ◌++◌, ok,
  if◌then◌else◌,
}
use drivewire_rs.Io.{Wire, steady, write_all, write_to}
use drivewire_rs.Terminal.Escape.{EscapeAction, continue, exit, process_chunk, stdin_to_sock}
use drivewire_rs.Terminal.Attach.{
  Event, key_read, sock_read, write_some, goes_on, stays, stdin_pass, payload, stdout_pass,
  on_event, both_tasks,
}

-- The chunks that are read up to the end of either stream.
unfoldable pub keys_read : List Event → List (List ℕ)
keys_read [] = []
keys_read (key_read (some (b ∷ chunk)) ∷ events) = (b ∷ chunk) ∷ keys_read events
keys_read (key_read _ ∷ events) = []
keys_read (sock_read _ ∷ events) = keys_read events

unfoldable pub bytes_read : List Event → List (List ℕ)
bytes_read [] = []
bytes_read (sock_read (some (b ∷ chunk)) ∷ events) = (b ∷ chunk) ∷ bytes_read events
bytes_read (sock_read _ ∷ events) = []
bytes_read (key_read _ ∷ events) = bytes_read events

-- What the keyboard's task still sends.
abbrev to_send : Bool → Bool → List Event → List ℕ
to_send typing armed events = if typing then (stdin_to_sock (keys_read events) armed).0 else []

write_some-steady :
    (bytes : List ℕ) (wire : Wire)
    → wire.sink ≡ steady
    → write_some bytes wire ≡ (ok tt, record wire { output = wire.output ++ bytes })
unfolding write_all write_to
write_some-steady [] wire s = ap (λ o. (ok tt, record wire { output = o })) (sym (append-nil _))
write_some-steady (b ∷ bytes) wire s = rw s

pub write_all-steady :
    (bytes : List ℕ) (wire : Wire)
    → wire.sink ≡ steady
    → write_all bytes wire ≡ (ok tt, record wire { output = wire.output ++ bytes })
unfolding write_all write_to
write_all-steady bytes wire s = rw s

-- Behind a chunk, what the keyboard's task has sent and still sends.
abbrev behind_chunk : List ℕ × Bool × EscapeAction → List Event → List ℕ
behind_chunk (out, armed, next) events = out ++ to_send (stays next) armed events

sent-chunk :
    (chunk : List ℕ) (armed : Bool) (events : List Event)
    → behind_chunk (process_chunk chunk armed) events
      ≡ (stdin_to_sock (chunk ∷ keys_read events) armed).0
unfolding stdin_to_sock
sent-chunk chunk armed events = split (process_chunk chunk armed)
  where
    split :
        (p : List ℕ × Bool × EscapeAction)
        → behind_chunk p events ≡ (
            let (out, armed', next) = p in
            let (more, next') = stdin_to_sock (keys_read events) armed' in
            let sent : List ℕ × EscapeAction = elim next [
              | exit ↦ (out, exit)
              | continue ↦ (out ++ more, next')
            ] in
            sent.0)
    split (out, armed', exit) = append-nil out
    split (out, armed', continue) = refl

pub keys_sent :
    (raw : Bool) (events : List Event) (typing showing armed had_cr : Bool) (sock stdout : Wire)
    → sock.sink ≡ steady
    → (both_tasks raw events (record {
      sock = sock;
      stdout = stdout;
      escape_armed = armed;
      had_cr = had_cr;
      typing = typing;
      showing = showing;
    })).sock.output
      ≡ sock.output ++ to_send typing armed events
unfolding both_tasks keys_read stdin_to_sock on_event stdin_pass stdout_pass
keys_sent raw [] true w armed h sock stdout s = sym (append-nil sock.output)
keys_sent raw [] false w armed h sock stdout s = sym (append-nil sock.output)
keys_sent raw (sock_read none ∷ events) t w armed h sock stdout s =
    keys_sent raw events t false armed h sock stdout s
keys_sent raw (sock_read (some chunk) ∷ events) t false armed h sock stdout s =
    keys_sent raw events t false armed h sock stdout s
keys_sent raw (sock_read (some []) ∷ events) t true armed h sock stdout s =
    keys_sent raw events t false armed h sock stdout s
keys_sent raw (sock_read (some (b ∷ chunk)) ∷ events) t true armed h sock stdout s =
    let (bytes, flag) = payload raw (b ∷ chunk) h in
    let (written, stdout') = write_all bytes stdout in
    keys_sent raw events t (goes_on written) armed flag sock stdout' s
keys_sent raw (key_read none ∷ events) true w armed h sock stdout s =
    keys_sent raw events false w armed h sock stdout s
keys_sent raw (key_read none ∷ events) false w armed h sock stdout s =
    keys_sent raw events false w armed h sock stdout s
keys_sent raw (key_read (some chunk) ∷ events) false w armed h sock stdout s =
    keys_sent raw events false w armed h sock stdout s
keys_sent raw (key_read (some []) ∷ events) true w armed h sock stdout s =
    keys_sent raw events false w armed h sock stdout s
keys_sent raw (key_read (some (b ∷ chunk)) ∷ events) true w armed h sock stdout s =
    let (out, armed', next) = process_chunk (b ∷ chunk) armed in
    ap
      (λ p.
        (both_tasks raw events (record {
          sock = p.1;
          stdout = stdout;
          escape_armed = armed';
          had_cr = h;
          typing = goes_on p.0 && stays next;
          showing = w;
        })).sock.output)
      (write_some-steady out sock s)
    ∙ keys_sent raw events (stays next) w armed' h (record sock { output = sock.output ++ out })
        stdout s
    ∙ append_assoc sock.output out (to_send (stays next) armed' events)
    ∙ ap (λ bytes. sock.output ++ bytes) (sent-chunk (b ∷ chunk) armed events)
