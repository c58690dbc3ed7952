-- ===== src/Server/Attach/Client.antt =====
-- A client's connection as a whole: the byte that names its channel, then both of its tasks, between
-- the steps of the other tasks.
use drivewire_rs.Prelude.{
  ℕ, zero, suc, ◌≡◌, refl, ap, Bool, Option, none, some, List, [], ◌∷◌, length, replicate,
}
use drivewire_rs.Io.Reads.{Reads}
use drivewire_rs.Server.State.{Server, send_to_vserial}
use drivewire_rs.Server.Actions.{Action, perform}
use drivewire_rs.Server.Attach.{Attached, draining, outbound, inbound}

-- `reads`: what the inbound task has still to read.
pub record Client : Type 0 where
  pub attached : Attached
  pub reads : Reads

-- The byte that `run_attach_listener` reads of a connection, and what is left to read behind it.
unfoldable pub read_channel : Reads → Option (ℕ × Reads)
read_channel [] = none
read_channel (none ∷ reads) = none
read_channel (some [] ∷ reads) = none
read_channel (some (channel ∷ []) ∷ reads) = some (channel, reads)
read_channel (some (channel ∷ b ∷ bytes) ∷ reads) = some (channel, some (b ∷ bytes) ∷ reads)

-- The task of a connection: the channel and the client at the start of `handle_attach`.
unfoldable pub attach_connection : Reads → Server → Option (ℕ × Client)
unfolding read_channel
attach_connection reads s = elim (read_channel reads) [
  | none ↦ none
  | some (channel, rest) ↦ some (
    channel,
    record { attached = record { server = s; phase = draining; written = [] }; reads = rest },
  )
]

-- One pass of the inbound loop: what is left to read, and the server. An end or an error ends the task.
unfoldable pub inbound_once : ℕ → Reads → Server → Reads × Server
inbound_once channel [] s = ([], s)
inbound_once channel (none ∷ reads) s = ([], s)
inbound_once channel (some [] ∷ reads) s = ([], s)
inbound_once channel (some (b ∷ bytes) ∷ reads) s = (reads, send_to_vserial channel (b ∷ bytes) s)

-- A step of the client's own tasks, of which the outbound one finds that the client takes bytes or not,
-- or of another task.
pub data ClientStep : Type 0 where
  inward : ClientStep
  outward : Bool → ClientStep
  others : Action → ClientStep

unfoldable pub client_step : ℕ → ClientStep → Client → Client
unfolding inbound_once
client_step c inward k =
    let (rest, s) = inbound_once c k.reads k.attached.server in
    record { attached = record k.attached { server = s }; reads = rest }
client_step c (outward accepts) k = record k { attached = outbound c accepts k.attached }
client_step c (others x) k = record k {
  attached = record k.attached { server = perform x k.attached.server };
}

unfoldable pub client_steps : ℕ → List ClientStep → Client → Client
unfolding client_step
client_steps c [] k = k
client_steps c (step ∷ run) k = client_steps c run (client_step c step k)

-- Behind the end of the stream no pass does anything.
ended_passes :
    (c n : ℕ) (a : Attached)
    → client_steps c (replicate n inward) (record { attached = a; reads = [] })
      ≡ record { attached = a; reads = [] }
unfolding client_steps
ended_passes c zero a = refl
ended_passes c (suc n) a = ended_passes c n a

-- As many passes as there are reads are the whole inbound loop.
inbound_passes :
    (c : ℕ) (reads : Reads) (a : Attached)
    → (client_steps c
        (replicate (length reads) inward)
        (record { attached = a; reads = reads })).attached
      ≡ record a { server = inbound c reads a.server }
unfolding client_steps inbound
inbound_passes c [] a = refl
inbound_passes c (none ∷ reads) a = ap (λ k. k.attached) (ended_passes c (length reads) a)
inbound_passes c (some [] ∷ reads) a = ap (λ k. k.attached) (ended_passes c (length reads) a)
inbound_passes c (some (b ∷ bytes) ∷ reads) a =
    inbound_passes c reads (record a { server = send_to_vserial c (b ∷ bytes) a.server })
