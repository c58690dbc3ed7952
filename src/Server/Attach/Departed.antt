-- ===== src/Server/Attach/Departed.antt =====
-- The outbound task of a client that has left. `handle_attach` returns when one of its tasks ends, and
-- the other is detached with its handle: it sleeps on until the guest writes.
use drivewire_rs.Prelude.{
  ℕ, ◌<◌, ◌≡◌, refl, Bool, true, false, some, none, set, List, [], ◌∷◌, ◌++◌, arith,
}
use drivewire_rs.Prelude.Lists.{length-set}
use drivewire_rs.Server.State.{
  Server, extend, vserial_channels, push_vserial, drain_vserial, wait_vserial_inbox,
}
use drivewire_rs.Server.State.Queues.{queue, queue-set}
use drivewire_rs.Server.Actions.Valid.{IsValid}
use drivewire_rs.Server.Attach.{Attached, waiting, closed, deliver, wake, outbound_at, outbound}
use drivewire_rs.Server.Attach.Wakeup.{permit-set}

-- A task asleep on a server.
abbrev pub asleep_on : Server → List ℕ → Attached
asleep_on s written = record { server = s; phase = waiting; written = written }

module _ (c byte : ℕ) (s : Server) (v : IsValid s) (h : c < vserial_channels)
    (q : queue s.vserial_inbox c ≡ []) where
  -- The server when the guest's byte has woken a task, and when that task has drained it.
  abbrev woken : Server
  woken = record s {
    vserial_inbox = extend s.vserial_inbox c (byte ∷ []);
    vserial_inbox_notify = set (set s.vserial_inbox_notify c true) c false;
  }

  abbrev emptied : Server
  emptied = record woken { vserial_inbox = set woken.vserial_inbox c [] }

  wait-push : wait_vserial_inbox c (push_vserial c byte s) ≡ some woken
  unfolding push_vserial wait_vserial_inbox
  wait-push = ground (arith, permit-set s.vserial_inbox_notify c c true)

  drain-woken : drain_vserial c woken ≡ (byte ∷ [], emptied)
  unfolding drain_vserial
  drain-woken =
      ground (arith, q, queue-set s.vserial_inbox c c (queue s.vserial_inbox c ++ (byte ∷ [])))

  gone_lem :
      (old : List ℕ)
      → outbound c false (outbound c false (asleep_on (push_vserial c byte s) old))
        ≡ record { server = emptied; phase = closed; written = old }
  unfolding outbound outbound_at wake deliver
  gone_lem old = rw (wait-push, drain-woken) refl

  wait-emptied : wait_vserial_inbox c emptied ≡ none
  unfolding wait_vserial_inbox
  wait-emptied = ground (
    arith,
    permit-set (set s.vserial_inbox_notify c true) c c false,
    length-set s.vserial_inbox_notify c true,
  )

-- If the outbound task of a client that no longer takes bytes still sleeps on a channel below 16 of
-- a valid server with an empty inbox, and the guest writes a byte: that task can take it and write
-- nothing, and leaves the inbox empty and a second client's sleeping task asleep.
pub departed_takes :
    (c byte : ℕ) (accepts : Bool) (s : Server) (old new : List ℕ)
    → IsValid s
    → c < vserial_channels
    → queue s.vserial_inbox c ≡ []
    → let gone = outbound c false (outbound c false (asleep_on (push_vserial c byte s) old)) in
      (gone.written ≡ old)
      × (queue gone.server.vserial_inbox c ≡ [])
      × (outbound c accepts (asleep_on gone.server new) ≡ asleep_on gone.server new)
unfolding outbound outbound_at wake
departed_takes c byte accepts s old new v h q = rw (gone_lem c byte s v h q old) (
  refl,
  ground (
    arith,
    queue-set (extend s.vserial_inbox c (byte ∷ [])) c c [],
    length-set s.vserial_inbox c (queue s.vserial_inbox c ++ (byte ∷ [])),
  ),
  rw (wait-emptied c byte s v h q) refl,
)
