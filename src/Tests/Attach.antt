-- ===== src/Tests/Attach.antt =====
-- An attached client on concrete steps.
use mathlib.Core.List.{flatten}
use drivewire_rs.Prelude.{◌≡◌, refl, ap, true, false, none, some, ok, List, [], ◌∷◌, ◌++◌, arith}
use drivewire_rs.Io.{write_all}
use drivewire_rs.Tests.Fixtures.{quiet}
use drivewire_rs.Io.Reads.{Reads}
use drivewire_rs.Server.State.{
  new, push_vserial, drain_vserial, wait_vserial_inbox, send_to_vserial, poll,
}
use drivewire_rs.Server.Handlers.{extend_inbox}
use drivewire_rs.Server.State.Queues.{queue}
use drivewire_rs.Server.Actions.{write, write_many, poll_one, perform}
use drivewire_rs.Server.Actions.Valid.{new-IsValid}
use drivewire_rs.Server.Attach.{outbound, draining}
use drivewire_rs.Server.Attach.Client.{
  Client, ClientStep, inward, outward, others, attach_connection, client_steps,
}
use drivewire_rs.Server.Attach.Delivery.{guest_got, guest_wrote, inbound_bytes}
use drivewire_rs.Server.Attach.EndToEnd.{rendered, written_shows}
use drivewire_rs.Terminal.Escape.{attach_sends, process_chunk}
use drivewire_rs.Terminal.LineEndings.{sock_to_stdout, normalize_line_endings}
use drivewire_rs.Terminal.Attach.{
  AttachArgs, AttachHost, Event, key_read, sock_read, Attached, detached, cooked, attach,
  both_tasks, on_event,
}
use drivewire_rs.Terminal.Attach.Laws.{IsRestored, attach-IsRestored}
use drivewire_rs.Terminal.Attach.Keyboard.{keys_read, bytes_read}
use drivewire_rs.Terminal.Attach.Both.{tasks_of, attach-both}
use drivewire_rs.Terminal.Attach.Arrives.{attach-arrives}
use drivewire_rs.Server.Attach.Departed.{asleep_on, departed_takes}

-- What `dw attach` writes, as two reads of the socket bring it.
abbrev reads : Reads
reads = some (2 ∷ b'l' ∷ []) ∷ some (b's' ∷ []) ∷ some [] ∷ []

abbrev interleaving : List ClientStep
interleaving =
    inward
    ∷ others poll_one
    ∷ outward true
    ∷ others (write 2 7)
    ∷ inward
    ∷ outward true
    ∷ outward true
    ∷ others (write_many 2 (8 ∷ 9 ∷ []))
    ∷ []

-- Between two reads of the keyboard the guest's greeting is shown; then the user leaves.
abbrev events : List Event
events =
    key_read (some (b'l' ∷ []))
    ∷ sock_read (some (b'h' ∷ b'i' ∷ 0x0d ∷ []))
    ∷ key_read (some (b's' ∷ 0x01 ∷ b'q' ∷ []))
    ∷ key_read (some (b'x' ∷ []))
    ∷ []

abbrev attach_args : AttachArgs
attach_args = record { channel = 2; socket = []; raw = false }

abbrev attach_host : AttachHost
attach_host = record { connect = λ path. ok quiet; enable_raw_mode = none; disable_raw_mode = none }

abbrev left : Attached
left = record {
  sock = record quiet { output = 2 ∷ b'l' ∷ b's' ∷ [] };
  stdout = record quiet { output = b'h' ∷ b'i' ∷ [] };
  escape_armed = false;
  had_cr = true;
  typing = false;
  showing = true;
}

attach_left : attach attach_host attach_args events quiet cooked ≡ (detached left, cooked)
unfolding attach both_tasks on_event process_chunk normalize_line_endings write_all
attach_left = refl

attach-IsRestored_example : IsRestored (attach attach_host attach_args events quiet cooked)
attach-IsRestored_example = attach-IsRestored attach_host refl attach_args events quiet

attach-both_example :
    (a : Attached) × (tasks_of (attach attach_host attach_args events quiet cooked) ≡ some a)
    × (a.sock.output ≡ attach_sends 2 (keys_read events))
    × (a.stdout.output ≡ sock_to_stdout false (bytes_read events))
attach-both_example =
    attach-both attach_host attach_args events quiet quiet cooked refl refl refl refl

attach-arrives_example :
    (k : Client) × (attach_connection reads new ≡ some (2, k))
    × (guest_got 2 interleaving k ++ inbound_bytes 2 (client_steps 2 interleaving k)
        ≡ queue new.vserial_outbox 2 ++ (process_chunk (flatten (keys_read events)) false).0)
attach-arrives_example =
    attach-arrives attach_host attach_args events quiet quiet cooked left reads new interleaving
      refl refl refl refl refl (ap tasks_of attach_left) refl new-IsValid (omega arith)
      (tt, (tt, (tt, tt)))

abbrev client : Client
client = record {
  attached = record { server = new; phase = draining; written = [] };
  reads = some (1 ∷ []) ∷ [];
}

departed_takes_example :
    let gone = outbound 2 false (outbound 2 false (asleep_on (push_vserial 2 7 new) [])) in
    (gone.written ≡ [])
    × (queue gone.server.vserial_inbox 2 ≡ [])
    × (outbound 2 true (asleep_on gone.server []) ≡ asleep_on gone.server [])
departed_takes_example = departed_takes 2 7 true new [] [] new-IsValid (omega arith) refl

written_lem : flatten ((7 ∷ []) ∷ []) ≡ (client_steps 2 interleaving client).attached.written
unfolding client_steps outbound perform push_vserial drain_vserial wait_vserial_inbox
    send_to_vserial extend_inbox poll flatten
written_lem = refl

written_shows_example :
    (sock_to_stdout false ((7 ∷ []) ∷ []) ≡ rendered false (flatten ((7 ∷ []) ∷ [])))
    × (flatten ((7 ∷ []) ∷ [])
          ++ queue (client_steps 2 interleaving client).attached.server.vserial_inbox 2
        ≡ queue new.vserial_inbox 2 ++ guest_wrote 2 interleaving)
written_shows_example =
    written_shows false ((7 ∷ []) ∷ []) 2 interleaving client new-IsValid (omega arith)
      (tt, (tt, (tt, tt))) (refl, (refl, (refl, tt))) refl written_lem
