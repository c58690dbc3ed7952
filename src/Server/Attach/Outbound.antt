-- ===== src/Server/Attach/Outbound.antt =====
-- What a step of the outbound task keeps.
use mathlib.Core.List.{append-nil, append_assoc}
use drivewire_rs.Prelude.{
  ℕ, ◌<◌, ◌≡◌, refl, sym, ap, ◌∙◌, Bool, true, false, Option, none, some, List, [], ◌∷◌, ◌++◌,
  arith,
}
use drivewire_rs.Server.State.{Server, vserial_channels, drain_vserial, wait_vserial_inbox}
use drivewire_rs.Server.State.Queues.{queue, queue-set}
use drivewire_rs.Server.Actions.{host_drain, host_wait, perform}
use drivewire_rs.Server.Actions.Valid.{IsValid, perform-IsValid}
use drivewire_rs.Server.Attach.{
  Attached, Phase, draining, waiting, closed, deliver, wake, outbound_at,
}

-- The bytes on their way to the client.
abbrev pub outbound_bytes : ℕ → Attached → List ℕ
outbound_bytes c a = a.written ++ queue a.server.vserial_inbox c

-- The outbound task leaves the outboxes alone, and the server valid.
pub outbound-outbox :
    (p : Phase) (c : ℕ) (accepts : Bool) (a : Attached)
    → (outbound_at p c accepts a).server.vserial_outbox ≡ a.server.vserial_outbox
unfolding outbound_at deliver wake drain_vserial wait_vserial_inbox
outbound-outbox draining c accepts a = ground arith
outbound-outbox waiting c accepts a = ground arith
outbound-outbox closed c accepts a = refl

deliver-server :
    (accepts : Bool) (bytes : List ℕ) (s : Server) (a : Attached)
    → (deliver accepts (bytes, s) a).server ≡ s
unfolding deliver
deliver-server accepts [] s a = refl
deliver-server true (b ∷ bytes) s a = refl
deliver-server false (b ∷ bytes) s a = refl

wake-server :
    (o : Option Server) (a : Attached) → (wake o a).server ≡ elim o [ none ↦ a.server | some s ↦ s ]
unfolding wake
wake-server none a = refl
wake-server (some s) a = refl

pub outbound-IsValid :
    (p : Phase) (c : ℕ) (accepts : Bool) (a : Attached)
    → IsValid a.server
    → IsValid (outbound_at p c accepts a).server
unfolding outbound_at perform
outbound-IsValid draining c accepts a v =
    let (bytes, s) = drain_vserial c a.server in
    rw (deliver-server accepts bytes s a) (perform-IsValid (host_drain c) a.server v)
outbound-IsValid waiting c accepts a v =
    rw (wake-server (wait_vserial_inbox c a.server) a) (perform-IsValid (host_wait c) a.server v)
outbound-IsValid closed c accepts a v = v

-- The outbound task hands over what it takes, as long as the client takes bytes.
deliver_whole :
    (bytes : List ℕ) (s : Server) (a : Attached)
    → (deliver true (bytes, s) a).written ≡ a.written ++ bytes
unfolding deliver
deliver_whole [] s a = sym (append-nil a.written)
deliver_whole (b ∷ bytes) s a = refl

drained :
    (c : ℕ) (s : Server)
    → IsValid s
    → c < vserial_channels
    → (drain_vserial c s).0 ++ queue (drain_vserial c s).1.vserial_inbox c ≡ queue s.vserial_inbox c
unfolding drain_vserial
drained c s v h =
    ground (arith, append-nil (queue s.vserial_inbox c), queue-set s.vserial_inbox c c [])

pub outbound_keeps :
    (p : Phase) (c : ℕ) (a : Attached)
    → IsValid a.server
    → c < vserial_channels
    → outbound_bytes c (outbound_at p c true a) ≡ outbound_bytes c a
unfolding outbound_at wake wait_vserial_inbox
outbound_keeps draining c a v h =
    let (bytes, s) = drain_vserial c a.server in
    rw (deliver_whole bytes s a, deliver-server true bytes s a)
      (append_assoc a.written bytes (queue s.vserial_inbox c)
        ∙ ap (λ t. a.written ++ t) (drained c a.server v h))
outbound_keeps waiting c a v h = ground arith
outbound_keeps closed c a v h = refl
