-- ===== src/Server/Actions/Fifo.antt =====
-- Each channel is a queue in both directions: nothing is lost, doubled or put out of order.
use mathlib.Core.List.{flat_map, append-nil, append_assoc}
use drivewire_rs.Prelude.{
  ℕ, ◌-◌, ◌<◌, ◌≡◌, refl, sym, ap, ◌∙◌, List, [], ◌∷◌, ◌++◌, arith, true, Bool-cases, inl, inr,
  Option, some, none, ◌==◌, ==_iff, if◌then◌else◌, drop,
}
use native.Mathlib.Decide.{dec_lt}
use drivewire_rs.Prelude.Lists.{take-append-drop}
use drivewire_rs.Server.State.{
  Server, vserial_channels, mount, unmount, push_vserial, drain_vserial, send_to_vserial,
  wait_vserial_inbox, set_channel_open, poll, read_many,
}
use drivewire_rs.Server.State.Poll.{first_ready, guest_reply, poll_decodes, poll_decodes_idle}
use drivewire_rs.Server.Handlers.{extend_inbox}
use drivewire_rs.Server.Actions.{
  Action, write, write_many, poll_one, poll_many, host_send, host_drain, perform, perform_all,
  host_bytes, guest_bytes, carried, to_guest, to_host, gathered,
}
use drivewire_rs.Server.Actions.Valid.{IsValid, perform-IsValid}
use drivewire_rs.Server.State.Queues.{queue, queue-set, first_ready-queue, read_many_lem, unpadded}

-- A test of a number against itself.
==_refl : (c : ℕ) → (c == c) ≡ true
==_refl c = (==_iff c c).1 refl

module _ (c : ℕ) (s : Server) (v : IsValid s) where
  poll_step :
      c < 15
      → queue s.vserial_outbox c
        ≡ carried c (guest_reply (poll 0 s.vserial_outbox).0) ++ queue (poll 0 s.vserial_outbox).1 c
  unfolding carried
  poll_step h = go (first_ready 0 s.vserial_outbox) refl
    where
      go :
          (o : Option (ℕ × ℕ × List ℕ))
          → first_ready 0 s.vserial_outbox ≡ o
          → queue s.vserial_outbox c
            ≡ carried c (guest_reply (poll 0 s.vserial_outbox).0)
              ++ queue (poll 0 s.vserial_outbox).1 c
      go none e = let (r, same) = poll_decodes_idle s.vserial_outbox e in rw (r, same)
      go (some (d, byte, q)) e =
          let (r, left) = poll_decodes s.vserial_outbox d byte q (omega arith) e in
          let (_, lt, front) = first_ready-queue 0 s.vserial_outbox d byte q e in
          let z : d - 0 ≡ d = omega arith in
          let front' : queue s.vserial_outbox d ≡ byte ∷ q = rw z at front in
          rw (r, left) (ground (arith, front', queue-set s.vserial_outbox d c q (omega arith)))

  read_many_step :
      (channel n : ℕ)
      → c < 15
      → queue s.vserial_outbox c
        ≡ to_guest c (poll_many channel n) s ++ queue (read_many channel n s.vserial_outbox).1 c
  unfolding to_guest
  read_many_step channel n h = elim (Bool-cases (channel == c)) [
    | inl p ↦
        let same : channel ≡ c = (==_iff channel c).0 p in
        rw (same, ==_refl c)
          (ground (
            arith,
            read_many_lem c n s.vserial_outbox,
            unpadded n (queue s.vserial_outbox c),
            take-append-drop n (queue s.vserial_outbox c),
            queue-set s.vserial_outbox c c (drop n (queue s.vserial_outbox c)),
          ))
    | inr p ↦ rw p (elim (dec_lt channel vserial_channels) [
      | yes lt ↦ ground (
        arith,
        read_many_lem channel n s.vserial_outbox,
        queue-set s.vserial_outbox channel c (drop n (queue s.vserial_outbox channel)),
      )
      | no ge ↦ unfold read_many in ground arith
    ])
  ]

  send_step :
      (channel : ℕ) (bytes : List ℕ)
      → c < 15
      → queue s.vserial_outbox c ++ (if channel == c then bytes else [])
        ≡ queue (send_to_vserial channel bytes s).vserial_outbox c
  unfolding send_to_vserial
  send_step channel bytes h = ground (
    arith,
    append-nil (queue s.vserial_outbox c),
    queue-set s.vserial_outbox channel c (queue s.vserial_outbox channel ++ bytes),
  )

-- One step of any task: for a channel below 15, what waits in the outbox and what the step adds is what
-- the guest gets and what waits then.
pub to_guest_step :
    (a : Action) (c : ℕ) (s : Server)
    → IsValid s
    → c < 15
    → queue s.vserial_outbox c ++ host_bytes c a
      ≡ to_guest c a s ++ queue (perform a s).vserial_outbox c
unfolding perform host_bytes to_guest push_vserial extend_inbox set_channel_open drain_vserial
    wait_vserial_inbox mount unmount
to_guest_step poll_one c s v h = append-nil _ ∙ poll_step c s v h
to_guest_step (poll_many channel n) c s v h = append-nil _ ∙ read_many_step c s v channel n h
to_guest_step (host_send channel bytes) c s v h = send_step c s v channel bytes h
to_guest_step (write channel b) c s v h = ground (arith, append-nil (queue s.vserial_outbox c))
to_guest_step (host_drain channel) c s v h = ground (arith, append-nil (queue s.vserial_outbox c))
to_guest_step _ c s v h = ground (arith, append-nil (queue s.vserial_outbox c))

-- The same for the inbox, on all 16 channels.
pub to_host_step :
    (a : Action) (c : ℕ) (s : Server)
    → IsValid s
    → c < vserial_channels
    → queue s.vserial_inbox c ++ guest_bytes c a
      ≡ to_host c a s ++ queue (perform a s).vserial_inbox c
unfolding perform guest_bytes to_host push_vserial extend_inbox set_channel_open drain_vserial
    wait_vserial_inbox send_to_vserial mount unmount
to_host_step (write channel b) c s v h = ground (
  arith,
  append-nil (queue s.vserial_inbox c),
  queue-set s.vserial_inbox channel c (queue s.vserial_inbox channel ++ (b ∷ [])),
)
to_host_step (write_many channel bytes) c s v h = ground (
  arith,
  append-nil (queue s.vserial_inbox c),
  queue-set s.vserial_inbox channel c (queue s.vserial_inbox channel ++ bytes),
)
to_host_step (host_drain channel) c s v h =
    ground (arith, append-nil (queue s.vserial_inbox c), queue-set s.vserial_inbox channel c [])
to_host_step _ c s v h = ground (arith, append-nil (queue s.vserial_inbox c))

module _ (view : Server → List ℕ) (added : Action → List ℕ) (got : Action → Server → List ℕ)
    (step : (a : Action) (s : Server)
      → IsValid s
      → view s ++ added a ≡ got a s ++ view (perform a s)) where
  conserved :
      (actions : List Action) (s : Server)
      → IsValid s
      → view s ++ flat_map added actions ≡ gathered got actions s ++ view (perform_all actions s)
  unfolding gathered perform_all flat_map
  conserved [] s v = append-nil (view s)
  conserved (a ∷ rest) s v =
      sym (append_assoc (view s) (added a) (flat_map added rest))
      ∙ ap (λ xs. xs ++ flat_map added rest) (step a s v)
      ∙ append_assoc (got a s) (view (perform a s)) (flat_map added rest)
      ∙ ap (λ xs. got a s ++ xs) (conserved rest (perform a s) (perform-IsValid a s v))
      ∙ sym (append_assoc (got a s) _ _)

-- On a channel below 15, for any interleaving of the tasks from a valid server, the bytes that
-- waited for the guest and those that hosts sent are, in order, the bytes that the guest got by
-- SERREAD and SERREADM, and then those that still wait.
pub to_guest_fifo :
    (actions : List Action) (c : ℕ) (s : Server)
    → IsValid s
    → c < 15
    → queue s.vserial_outbox c ++ flat_map (host_bytes c) actions
      ≡ gathered (to_guest c) actions s ++ queue (perform_all actions s).vserial_outbox c
to_guest_fifo actions c s v h =
    conserved (λ t. queue t.vserial_outbox c) (host_bytes c) (to_guest c)
      (λ a t u. to_guest_step a c t u h) actions s v

-- On each of the 16 channels, for any interleaving of the tasks from a valid server, the bytes that
-- waited for the host and those that guests wrote are, in order, those that attached clients
-- drained, and then those that still wait.
pub to_host_fifo :
    (actions : List Action) (c : ℕ) (s : Server)
    → IsValid s
    → c < vserial_channels
    → queue s.vserial_inbox c ++ flat_map (guest_bytes c) actions
      ≡ gathered (to_host c) actions s ++ queue (perform_all actions s).vserial_inbox c
to_host_fifo actions c s v h =
    conserved (λ t. queue t.vserial_inbox c) (guest_bytes c) (to_host c)
      (λ a t u. to_host_step a c t u h) actions s v
