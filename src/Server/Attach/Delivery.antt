-- ===== src/Server/Attach/Delivery.antt =====
-- What a client sends reaches the guest, and what the guest writes reaches the client: whole and in order.
use mathlib.Core.List.{append-nil, append_assoc}
use drivewire_rs.Prelude.{
  ℕ, ◌<◌, ◌≡◌, ◌≢◌, refl, sym, ap, ◌∙◌, true, none, some, List, [], ◌∷◌, ◌++◌, arith,
}
use drivewire_rs.Io.Reads.{Reads, brought}
use drivewire_rs.Server.State.{Server, vserial_channels, send_to_vserial}
use drivewire_rs.Server.State.Queues.{queue, queue-set}
use drivewire_rs.Server.Actions.{
  Action, host_send, host_drain, perform, host_bytes, guest_bytes, to_guest, to_host,
}
use drivewire_rs.Server.Actions.Valid.{IsValid, perform-IsValid}
use drivewire_rs.Server.Actions.Fifo.{to_guest_step, to_host_step}
use drivewire_rs.Server.Attach.Outbound.{
  outbound_bytes, outbound-outbox, outbound-IsValid, outbound_keeps,
}
use drivewire_rs.Server.Attach.{outbound_at, outbound}
use drivewire_rs.Server.Attach.Client.{
  Client, ClientStep, inward, outward, others, inbound_once, client_step, client_steps,
}

-- No other client sends to the channel or drains it.
abbrev pub IsApart : ℕ → Action → Type 0
IsApart c (host_send channel bytes) = channel ≢ c
IsApart c (host_drain channel) = channel ≢ c
IsApart c _ = Unit

-- The client is alone on the channel.
abbrev pub IsAlone : ℕ → List ClientStep → Type 0
IsAlone c [] = Unit
IsAlone c (inward ∷ run) = IsAlone c run
IsAlone c (outward accepts ∷ run) = IsAlone c run
IsAlone c (others x ∷ run) = IsApart c x × IsAlone c run

-- The client takes all that is written to it.
abbrev pub IsTaking : List ClientStep → Type 0
IsTaking [] = Unit
IsTaking (outward accepts ∷ run) = (accepts ≡ true) × IsTaking run
IsTaking (step ∷ run) = IsTaking run

-- What the guest gets of the channel in a run, and what it writes to it.
unfoldable pub guest_got : ℕ → List ClientStep → Client → List ℕ
guest_got c [] k = []
guest_got c (others x ∷ run) k =
    to_guest c x k.attached.server ++ guest_got c run (client_step c (others x) k)
guest_got c (step ∷ run) k = guest_got c run (client_step c step k)

unfoldable pub guest_wrote : ℕ → List ClientStep → List ℕ
guest_wrote c [] = []
guest_wrote c (others x ∷ run) = guest_bytes c x ++ guest_wrote c run
guest_wrote c (step ∷ run) = guest_wrote c run

-- The bytes on their way to the guest.
abbrev pub inbound_bytes : ℕ → Client → List ℕ
inbound_bytes c k = queue k.attached.server.vserial_outbox c ++ brought k.reads

apart-host_bytes : (c : ℕ) (x : Action) → IsApart c x → host_bytes c x ≡ []
unfolding host_bytes
apart-host_bytes c (host_send channel bytes) h = ground arith
apart-host_bytes c _ h = refl

apart-to_host : (c : ℕ) (x : Action) (s : Server) → IsApart c x → to_host c x s ≡ []
unfolding to_host
apart-to_host c (host_drain channel) s h = ground arith
apart-to_host c _ s h = refl

step-IsValid :
    (c : ℕ) (step : ClientStep) (k : Client)
    → IsValid k.attached.server
    → IsValid (client_step c step k).attached.server
unfolding client_step outbound inbound_once perform
step-IsValid c inward k v = passed k.reads
  where
    passed : (reads : Reads) → IsValid (inbound_once c reads k.attached.server).1
    passed [] = v
    passed (none ∷ reads) = v
    passed (some [] ∷ reads) = v
    passed (some (b ∷ bytes) ∷ reads) =
        perform-IsValid (host_send c (b ∷ bytes)) k.attached.server v
step-IsValid c (outward accepts) k v = outbound-IsValid k.attached.phase c accepts k.attached v
step-IsValid c (others x) k v = perform-IsValid x k.attached.server v

-- One pass of the inbound task only moves bytes on.
passed_on :
    (c : ℕ) (reads : Reads) (s : Server)
    → IsValid s
    → c < vserial_channels
    → let (rest, s') = inbound_once c reads s in
      queue s'.vserial_outbox c ++ brought rest ≡ queue s.vserial_outbox c ++ brought reads
unfolding inbound_once send_to_vserial
passed_on c [] s v h = refl
passed_on c (none ∷ reads) s v h = refl
passed_on c (some [] ∷ reads) s v h = refl
passed_on c (some (b ∷ bytes) ∷ reads) s v h = ground (
  arith,
  queue-set s.vserial_outbox c c (queue s.vserial_outbox c ++ (b ∷ bytes)),
  append_assoc (queue s.vserial_outbox c) (b ∷ bytes) (brought reads),
)

inbox-passed :
    (c : ℕ) (reads : Reads) (s : Server)
    → (inbound_once c reads s).1.vserial_inbox ≡ s.vserial_inbox
unfolding inbound_once send_to_vserial
inbox-passed c [] s = refl
inbox-passed c (none ∷ reads) s = refl
inbox-passed c (some [] ∷ reads) s = refl
inbox-passed c (some (b ∷ bytes) ∷ reads) s = ground arith

-- For any interleaving of the tasks of a client that is alone on a channel below 15 with those of
-- others.
pub to_guest_delivered :
    (c : ℕ) (run : List ClientStep) (k : Client)
    → IsValid k.attached.server
    → c < 15
    → IsAlone c run
    → guest_got c run k ++ inbound_bytes c (client_steps c run k) ≡ inbound_bytes c k
unfolding guest_got client_steps client_step outbound
to_guest_delivered c [] k v h l = refl
to_guest_delivered c (inward ∷ run) k v h l =
    to_guest_delivered c run (client_step c inward k) (step-IsValid c inward k v) h l
    ∙ passed_on c k.reads k.attached.server v (omega arith)
to_guest_delivered c (outward accepts ∷ run) k v h l =
    to_guest_delivered c run (client_step c (outward accepts) k)
      (step-IsValid c (outward accepts) k v) h l
    ∙ ap (λ qs. queue qs c ++ brought k.reads)
        (outbound-outbox k.attached.phase c accepts k.attached)
to_guest_delivered c (others x ∷ run) k v h l =
    let s = k.attached.server in
    let rest =
      to_guest_delivered c run (client_step c (others x) k) (step-IsValid c (others x) k v) h l.1 in
    append_assoc (to_guest c x s) _ _
    ∙ ap (λ t. to_guest c x s ++ t) rest
    ∙ sym (append_assoc (to_guest c x s) _ _)
    ∙ ap (λ t. t ++ brought k.reads)
        (sym (to_guest_step x c s v h)
          ∙ ap (λ t. queue s.vserial_outbox c ++ t) (apart-host_bytes c x l.0)
          ∙ append-nil _)

-- On each of the 16 channels of a valid server, for any interleaving of the tasks of a client that
-- takes all that it is sent with those of others, none of which is another client of the channel:
-- what has been written to the client and what waits in the inbox are in order what these were
-- before and what guests wrote.
pub to_client_delivered :
    (c : ℕ) (run : List ClientStep) (k : Client)
    → IsValid k.attached.server
    → c < vserial_channels
    → IsAlone c run
    → IsTaking run
    → outbound_bytes c (client_steps c run k).attached
      ≡ outbound_bytes c k.attached ++ guest_wrote c run
unfolding guest_wrote client_steps client_step outbound
to_client_delivered c [] k v h l t = sym (append-nil _)
to_client_delivered c (inward ∷ run) k v h l t =
    to_client_delivered c run (client_step c inward k) (step-IsValid c inward k v) h l t
    ∙ ap (λ qs. k.attached.written ++ queue qs c ++ guest_wrote c run)
        (inbox-passed c k.reads k.attached.server)
to_client_delivered c (outward accepts ∷ run) k v h l t =
    to_client_delivered c run (client_step c (outward accepts) k)
      (step-IsValid c (outward accepts) k v) h l t.1
    ∙ ap (λ b. outbound_bytes c (outbound_at k.attached.phase c b k.attached) ++ guest_wrote c run)
        t.0
    ∙ ap (λ bytes. bytes ++ guest_wrote c run) (outbound_keeps k.attached.phase c k.attached v h)
to_client_delivered c (others x ∷ run) k v h l t =
    let s = k.attached.server in
    let rest =
      to_client_delivered c run (client_step c (others x) k) (step-IsValid c (others x) k v) h l.1
        t in
    let moved : queue (perform x s).vserial_inbox c ≡ queue s.vserial_inbox c ++ guest_bytes c x =
      sym (
        to_host_step x c s v h
        ∙ ap (λ b. b ++ queue (perform x s).vserial_inbox c) (apart-to_host c x s l.0)) in
    rest
    ∙ ap (λ q. (k.attached.written ++ q) ++ guest_wrote c run) moved
    ∙ ap (λ b. b ++ guest_wrote c run) (sym (append_assoc k.attached.written _ _))
    ∙ append_assoc _ (guest_bytes c x) (guest_wrote c run)
