-- ===== src/Server/Awaits/Streams.antt =====
-- The bytes of one channel over a run by whole turns: what guests wrote and what they were given are read
-- off their streams, what hosts sent off the events from outside. What one turn does to them.
use mathlib.Core.List.{flat_map, append-nil}
use drivewire_rs.Prelude.{
  ℕ, ◌<◌, ◌≡◌, refl, sym, ap, ◌∙◌, subst, Option, none, some, List, [], ◌∷◌, ◌++◌, Result, ok, err,
  get_or, All,
}
use drivewire_rs.Prelude.Bytes.{set-All}
use drivewire_rs.Io.{Wire, steady}
use drivewire_rs.Server.State.{vserial_channels}
use drivewire_rs.Server.State.Queues.{queue}
use drivewire_rs.Server.Actions.{
  host_send, host_drain, host_wait, mount_disk, unmount_disk, perform_all, host_bytes, guest_bytes,
  to_host,
}
use drivewire_rs.Server.Actions.Valid.{IsValid, perform_all-IsValid}
use drivewire_rs.Server.Actions.Fifo.{to_guest_fifo, to_host_fifo}
use drivewire_rs.Server.Session.{World, ServerError}
use drivewire_rs.Server.Session.Laws.{fed}
use drivewire_rs.Server.Run.{turn}
use drivewire_rs.Server.Run.Framing.{turn_framing, turn-fed_nil}
use drivewire_rs.Server.Run.First.{
  first_asked, first_given, answer_to, turn-first_asked, first-host_bytes, first-to_host,
  first-to_guest,
}
use drivewire_rs.Server.Sessions.{Guests, world_of, left_by, turn_at}
use drivewire_rs.Server.Awaits.Whole.{
  Outside, connects, acts, passes, Turns, here, taken_whole, joined, done_outside, later,
}

-- A stream that takes every byte, or a session that has ended.
abbrev pub IsSteady : Option Wire → Type 0
IsSteady none = Unit
IsSteady (some wire) = wire.sink ≡ steady

-- The events from outside that are not a guest's: a connection whose stream takes every byte, a step of
-- an attached client, a mount, an unmount, and time.
abbrev pub IsHosts : Outside → Type 0
IsHosts (connects wire) = wire.sink ≡ steady
IsHosts (acts (host_send channel bytes)) = Unit
IsHosts (acts (host_drain channel)) = Unit
IsHosts (acts (host_wait channel)) = Unit
IsHosts (acts (mount_disk slot disk)) = Unit
IsHosts (acts (unmount_disk slot)) = Unit
IsHosts (acts _) = ⊥
IsHosts (passes clock) = Unit

-- The bytes that hosts sent to channel `c`.
unfoldable pub sent_to : ℕ → List Outside → List ℕ
sent_to c [] = []
sent_to c (connects wire ∷ events) = sent_to c events
sent_to c (acts a ∷ events) = host_bytes c a ++ sent_to c events
sent_to c (passes clock ∷ events) = sent_to c events

-- Of one turn: the bytes that its command writes to channel `c`, and those that its answer gives.
abbrev pub written_by : ℕ → Option Wire → List ℕ
written_by c none = []
written_by c (some wire) = flat_map (guest_bytes c) (first_asked wire.input)

abbrev pub given_to : ℕ → Guests → Option Wire → List ℕ
given_to c g none = []
given_to c g (some wire) =
    let w : World = world_of g wire in
    first_given c wire.input (queue g.server.vserial_outbox c) (answer_to w (turn w).1)

-- Of a run, in its order: what guests wrote, what attached clients drained, and what guests were given.
unfoldable pub written : {events : List Outside} {g k : Guests} → ℕ → Turns events g k → List ℕ
written c (here g) = []
written c (taken_whole g i rest) = written_by c (get_or g.sessions i none) ++ written c rest
written c (joined g wire b o rest) = written c rest
written c (done_outside g a b rest) = written c rest
written c (later g clock h rest) = written c rest

unfoldable pub drained : {events : List Outside} {g k : Guests} → ℕ → Turns events g k → List ℕ
drained c (here g) = []
drained c (taken_whole g i rest) = drained c rest
drained c (joined g wire b o rest) = drained c rest
drained c (done_outside g a b rest) = to_host c a g.server ++ drained c rest
drained c (later g clock h rest) = drained c rest

unfoldable pub given : {events : List Outside} {g k : Guests} → ℕ → Turns events g k → List ℕ
given c (here g) = []
given c (taken_whole g i rest) = given_to c g (get_or g.sessions i none) ++ given c rest
given c (joined g wire b o rest) = given c rest
given c (done_outside g a b rest) = given c rest
given c (later g clock h rest) = given c rest

-- A turn of a steady session stays so.
turn-stays :
    (xs : List ℕ) (w : World) → w.wire.sink ≡ steady → (turn (fed xs w)).1.wire.sink ≡ steady
turn-stays [] w s = ap (λ r. r.1.wire.sink) (turn-fed_nil w) ∙ s
turn-stays (b ∷ xs) w s = let (left, stays, ends, enough, short) = turn_framing b xs w s in stays

left-IsSteady :
    (r : Result ServerError (Unit {0})) (wire : Wire)
    → wire.sink ≡ steady
    → IsSteady (left_by r wire)
left-IsSteady (ok u) wire h = h
left-IsSteady (err e) wire h = tt

pub turn_at-IsSteady :
    (i : ℕ) (g : Guests) (o : Option Wire)
    → All IsSteady g.sessions
    → IsSteady o
    → All IsSteady (turn_at i g o).sessions
turn_at-IsSteady i g none h s = h
turn_at-IsSteady i g (some wire) h s =
    let w : World = world_of g wire in
    set-All IsSteady g.sessions i _ h
      (left-IsSteady (turn w).0 (turn w).1.wire (turn-stays wire.input w s))

pub turn_at-IsValid :
    (i : ℕ) (g : Guests) (o : Option Wire)
    → IsSteady o
    → IsValid g.server
    → IsValid (turn_at i g o).server
turn_at-IsValid i g none s v = v
turn_at-IsValid i g (some wire) s v =
    subst IsValid (sym (turn-first_asked wire.input (world_of g wire) s))
      (perform_all-IsValid (first_asked wire.input) g.server v)

pub turn_at-to_guest :
    (c i : ℕ) (g : Guests) (o : Option Wire)
    → IsSteady o
    → IsValid g.server
    → c < 15
    → queue g.server.vserial_outbox c
      ≡ given_to c g o ++ queue (turn_at i g o).server.vserial_outbox c
turn_at-to_guest c i g none s v h = refl
turn_at-to_guest c i g (some wire) s v h =
    let w : World = world_of g wire in
    let rest = queue (perform_all (first_asked wire.input) g.server).vserial_outbox c in
    sym (append-nil (queue g.server.vserial_outbox c))
    ∙ ap (λ xs. queue g.server.vserial_outbox c ++ xs) (sym (first-host_bytes c wire.input))
    ∙ to_guest_fifo (first_asked wire.input) c g.server v h
    ∙ ap (λ xs. xs ++ rest) (first-to_guest c wire.input w s)
    ∙ ap (λ t. given_to c g (some wire) ++ queue t.vserial_outbox c)
        (sym (turn-first_asked wire.input w s))

pub turn_at-to_host :
    (c i : ℕ) (g : Guests) (o : Option Wire)
    → IsSteady o
    → IsValid g.server
    → c < vserial_channels
    → queue g.server.vserial_inbox c ++ written_by c o
      ≡ queue (turn_at i g o).server.vserial_inbox c
turn_at-to_host c i g none s v h = append-nil _
turn_at-to_host c i g (some wire) s v h =
    let rest = queue (perform_all (first_asked wire.input) g.server).vserial_inbox c in
    to_host_fifo (first_asked wire.input) c g.server v h
    ∙ ap (λ xs. xs ++ rest) (first-to_host c wire.input g.server)
    ∙ ap (λ t. queue t.vserial_inbox c) (sym (turn-first_asked wire.input (world_of g wire) s))
