-- ===== src/Server/Awaits/Flow.antt =====
-- Each channel is a queue in both directions between the streams of the guests and what hosts do.
use mathlib.Core.List.{append-nil, append_assoc}
use drivewire_rs.Prelude.{
  ℕ, ◌<◌, ◌≡◌, refl, sym, ap, ◌∙◌, Option, none, some, List, [], ◌∷◌, ◌++◌, get_or, All,
}
use drivewire_rs.Prelude.Bytes.{append-All, get_or-All}
use drivewire_rs.Io.{Wire}
use drivewire_rs.Server.State.{Server, vserial_channels}
use drivewire_rs.Server.State.Queues.{queue}
use drivewire_rs.Server.Actions.{
  Action, host_send, host_drain, host_wait, mount_disk, unmount_disk, perform, guest_bytes, to_host,
}
use drivewire_rs.Server.Actions.Valid.{IsValid, perform-IsValid}
use drivewire_rs.Server.Actions.Fifo.{to_host_step}
use drivewire_rs.Server.Sessions.{Guests, turn_of}
use drivewire_rs.Server.Awaits.Whole.{
  Outside, acts, Turns, here, taken_whole, joined, done_outside, later,
}
use drivewire_rs.Server.Awaits.Streams.{
  IsSteady, IsHosts, written_by, written, drained, turn_at-IsSteady, turn_at-IsValid,
  turn_at-to_host,
}

hosts-guest_bytes : (c : ℕ) (a : Action) → IsHosts (acts a) → guest_bytes c a ≡ []
unfolding guest_bytes
hosts-guest_bytes c (host_send channel bytes) h = refl
hosts-guest_bytes c (host_drain channel) h = refl
hosts-guest_bytes c (host_wait channel) h = refl
hosts-guest_bytes c (mount_disk slot disk) h = refl
hosts-guest_bytes c (unmount_disk slot) h = refl
hosts-guest_bytes c _ h = absurd h

-- Two steps' accounts make that of both.
both_steps :
    (q q' q'' a b x y : List ℕ)
    → q ++ a ≡ x ++ q'
    → q' ++ b ≡ y ++ q''
    → q ++ (a ++ b) ≡ (x ++ y) ++ q''
both_steps q q' q'' a b x y h k =
    sym (append_assoc q a b)
    ∙ ap (λ z. z ++ b) h
    ∙ append_assoc x q' b
    ∙ ap (λ z. x ++ z) k
    ∙ sym (append_assoc x y q'')

-- Over any run by whole turns of sessions whose peers take every byte, between connections, steps of
-- attached clients, mounts and unmounts: on each of the 16 channels of a server that is valid at
-- first, the bytes that waited for the host and those that the guests' commands write to the
-- channel, read off their streams, are, in order, those that attached clients drained, and then
-- those that still wait.
pub Turns-to_host_fifo :
    {events : List Outside} {g k : Guests} (run : Turns events g k) (c : ℕ)
    → IsValid g.server
    → All IsSteady g.sessions
    → All IsHosts events
    → c < vserial_channels
    → queue g.server.vserial_inbox c ++ written c run
      ≡ drained c run ++ queue k.server.vserial_inbox c
unfolding written drained turn_of
Turns-to_host_fifo (here g) c v s e h = append-nil _
Turns-to_host_fifo {events = events} {k = k} (taken_whole g i rest) c v s e h =
    let o : Option Wire = get_or g.sessions i none in
    let t : IsSteady o = get_or-All IsSteady g.sessions i none s tt in
    both_steps (queue g.server.vserial_inbox c) (queue (turn_of i g).server.vserial_inbox c)
      (queue k.server.vserial_inbox c) (written_by c o) (written c rest) [] (drained c rest)
      (turn_at-to_host c i g o t v h)
      (Turns-to_host_fifo rest c (turn_at-IsValid i g o t v) (turn_at-IsSteady i g o s t) e h)
Turns-to_host_fifo (joined g wire b o rest) c v s e h =
    Turns-to_host_fifo rest c v (append-All IsSteady g.sessions (some wire ∷ []) s (e.0, tt)) e.1 h
Turns-to_host_fifo {events = (_ ∷ events)} {k = k} (done_outside g a b rest) c v s e h =
    both_steps (queue g.server.vserial_inbox c) (queue (perform a g.server).vserial_inbox c)
      (queue k.server.vserial_inbox c) [] (written c rest) (to_host c a g.server) (drained c rest)
      (ap (λ xs. queue g.server.vserial_inbox c ++ xs) (sym (hosts-guest_bytes c a e.0))
        ∙ to_host_step a c g.server v h)
      (Turns-to_host_fifo rest c (perform-IsValid a g.server v) s e.1 h)
Turns-to_host_fifo (later g clock p rest) c v s e h = Turns-to_host_fifo rest c v s e.1 h
