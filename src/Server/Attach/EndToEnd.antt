-- ===== src/Server/Attach/EndToEnd.antt =====
-- Between the terminal of `dw attach` and the guest: the client's tasks, its socket, and the server's tasks.
use mathlib.Core.List.{flatten}
use drivewire_rs.Prelude.{
  Bool, true, false, if◌then◌else◌, ℕ, ◌<◌, ◌≡◌, refl, ap, ◌∙◌, false, Option, none, some, List, [],
  ◌∷◌, ◌++◌,
}
use drivewire_rs.Io.Reads.{Reads, brought}
use drivewire_rs.Terminal.Escape.{stdin_to_sock, attach_sends, process_chunk}
use drivewire_rs.Terminal.Escape.Laws.{stdin_to_sock-flatten}
use drivewire_rs.Terminal.LineEndings.{normalize_line_endings, sock_to_stdout}
use drivewire_rs.Terminal.LineEndings.Laws.{shown-flatten}
use drivewire_rs.Server.State.{Server, vserial_channels}
use drivewire_rs.Server.State.Queues.{queue}
use drivewire_rs.Server.Actions.Valid.{IsValid}
use drivewire_rs.Server.Attach.{draining}
use drivewire_rs.Server.Attach.Client.{
  Client, ClientStep, read_channel, attach_connection, client_steps,
}
use drivewire_rs.Server.Attach.Delivery.{
  IsTaking, guest_wrote, to_client_delivered, IsAlone, guest_got, inbound_bytes, to_guest_delivered,
}

-- A connection that brings a channel and then these bytes.
record Connected (c : ℕ) (bytes : List ℕ) (o : Option (ℕ × Reads)) : Type 0 where
  rest : Reads
  channel : o ≡ some (c, rest)
  behind : brought rest ≡ bytes

read_channel-Connected :
    (c : ℕ) (bytes : List ℕ) (reads : Reads)
    → brought reads ≡ c ∷ bytes
    → Connected c bytes (read_channel reads)
unfolding read_channel
read_channel-Connected c bytes [] h = cc
read_channel-Connected c bytes (none ∷ reads) h = cc
read_channel-Connected c bytes (some [] ∷ reads) h = cc
read_channel-Connected c bytes (some (b ∷ []) ∷ reads) h = record {
  rest = reads;
  channel = cc;
  behind = cc;
}
read_channel-Connected c bytes (some (b ∷ x ∷ xs) ∷ reads) h = record {
  rest = some (x ∷ xs) ∷ reads;
  channel = cc;
  behind = cc;
}

-- If the socket's reads bring what dw attach writes for a channel below 15, however they cut it, the
-- connection becomes a client of that channel; and for any interleaving of its tasks with those of
-- others, none of which is another client of the channel, what the guest gets, what waits in the
-- outbox and what is still to be read are in order what waited before and what was typed, as the
-- escape key makes of it.
pub typed_arrives :
    (typed : List (List ℕ)) (reads : Reads) (c : ℕ) (s : Server) (run : List ClientStep)
    → IsValid s
    → c < 15
    → IsAlone c run
    → brought reads ≡ attach_sends c typed
    → (k : Client) × (attach_connection reads s ≡ some (c, k))
      × (guest_got c run k ++ inbound_bytes c (client_steps c run k)
          ≡ queue s.vserial_outbox c ++ (process_chunk (flatten typed) false).0)
unfolding attach_connection attach_sends
typed_arrives typed reads c s run v h l e =
    let r = read_channel-Connected c (stdin_to_sock typed false).0 reads e in
    let k : Client = record {
      attached = record { server = s; phase = draining; written = [] };
      reads = r.rest;
    } in
    (
      k,
      rw (attach_connection, r.channel) refl,
      to_guest_delivered c run k v h l
          ∙ ap (λ bytes. queue s.vserial_outbox c ++ bytes)
              (r.behind ∙ ap (λ o. o.0) (stdin_to_sock-flatten typed false)),
    )

-- What the terminal shows of bytes that come at once.
abbrev pub rendered : Bool → List ℕ → List ℕ
rendered raw bytes = if raw then bytes else (normalize_line_endings bytes false).0

sock_to_stdout-rendered :
    (raw : Bool) (chunks : List (List ℕ))
    → sock_to_stdout raw chunks ≡ rendered raw (flatten chunks)
unfolding sock_to_stdout
sock_to_stdout-rendered true chunks = refl
sock_to_stdout-rendered false chunks = shown-flatten chunks false

-- For a client alone on a channel of a valid server that takes all that it is sent, whose task has
-- written nothing yet: however dw attach reads what the task writes in an interleaving with others,
-- the terminal shows it as it shows it at once, with or without translation; and it is in order, up
-- to what still waits in the inbox, what waited there and what guests wrote.
pub written_shows :
    (raw : Bool) (chunks : List (List ℕ)) (c : ℕ) (run : List ClientStep) (k : Client)
    → IsValid k.attached.server
    → c < vserial_channels
    → IsAlone c run
    → IsTaking run
    → k.attached.written ≡ []
    → flatten chunks ≡ (client_steps c run k).attached.written
    → (sock_to_stdout raw chunks ≡ rendered raw (flatten chunks))
      × (flatten chunks ++ queue (client_steps c run k).attached.server.vserial_inbox c
          ≡ queue k.attached.server.vserial_inbox c ++ guest_wrote c run)
written_shows raw chunks c run k v h l t w e = (
  sock_to_stdout-rendered raw chunks,
  ap (λ bytes. bytes ++ queue (client_steps c run k).attached.server.vserial_inbox c) e
      ∙ to_client_delivered c run k v h l t
      ∙ ap (λ bytes. (bytes ++ queue k.attached.server.vserial_inbox c) ++ guest_wrote c run) w,
)
