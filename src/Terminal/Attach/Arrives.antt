-- ===== src/Terminal/Attach/Arrives.antt =====
-- From the keyboard of `dw attach` of crates/drivewire-cli/src/main.rs through the tasks of
-- `handle_attach` to the guest.
use mathlib.Core.List.{flatten}
use drivewire_rs.Prelude.{◌<◌, ◌≡◌, sym, ap, ◌∙◌, false, Option, none, some, List, [], ◌++◌, ok}
use drivewire_rs.Io.{Wire, steady}
use drivewire_rs.Io.Reads.{Reads, brought}
use drivewire_rs.Terminal.Escape.{process_chunk, attach_sends}
use drivewire_rs.Terminal.Attach.{AttachArgs, AttachHost, Event, Attached, Mode, attach}
use drivewire_rs.Terminal.Attach.Keyboard.{keys_read}
use drivewire_rs.Terminal.Attach.Both.{tasks_of, attach-both}
use drivewire_rs.Server.State.{Server}
use drivewire_rs.Server.State.Queues.{queue}
use drivewire_rs.Server.Actions.Valid.{IsValid}
use drivewire_rs.Server.Attach.Client.{Client, ClientStep, attach_connection, client_steps}
use drivewire_rs.Server.Attach.Delivery.{IsAlone, guest_got, inbound_bytes}
use drivewire_rs.Server.Attach.EndToEnd.{typed_arrives}

-- On a valid server, with a socket that starts empty and a terminal that take every byte, and raw
-- mode to be had, if a connection's reads bring what dw attach has written to its socket for a
-- channel below 15, however they cut it: the connection becomes a client of that channel, and for
-- any interleaving of its tasks with those of others, none of which is another client of the
-- channel, what the guest gets, what waits in the outbox and what is still to be read are in order
-- what waited before and what the keyboard's reads brought, as the escape key makes of it.
pub attach-arrives :
    (host : AttachHost) (args : AttachArgs) (events : List Event) (stdout sock : Wire) (mode : Mode)
    (a : Attached) (reads : Reads) (s : Server) (run : List ClientStep)
    → host.connect args.socket ≡ ok sock
    → host.enable_raw_mode ≡ none
    → sock.sink ≡ steady
    → sock.output ≡ []
    → stdout.sink ≡ steady
    → tasks_of (attach host args events stdout mode) ≡ some a
    → brought reads ≡ a.sock.output
    → IsValid s
    → args.channel < 15
    → IsAlone args.channel run
    → (k : Client) × (attach_connection reads s ≡ some (args.channel, k))
      × (guest_got args.channel run k
            ++ inbound_bytes args.channel (client_steps args.channel run k)
          ≡ queue s.vserial_outbox args.channel
            ++ (process_chunk (flatten (keys_read events)) false).0)
attach-arrives host args events stdout sock mode a reads s run c e st empty t ran b v l alone =
    let (a', same, sent, _) = attach-both host args events stdout sock mode c e st t in
    let sent_by : a.sock.output ≡ attach_sends args.channel (keys_read events) =
      ap (λ o. (get o).sock.output) (sym ran ∙ same)
      ∙ sent
      ∙ ap (λ o. o ++ attach_sends args.channel (keys_read events)) empty in
    typed_arrives (keys_read events) reads args.channel s run v l alone (b ∙ sent_by)
  where
    get : Option Attached → Attached
    get none = a
    get (some x) = x
