-- ===== src/Server/Sessions/Sound.antt =====
-- What holds of the server whatever many guests and the other tasks do.
use drivewire_rs.Prelude.{
  ℕ, Option, none, some, [], ◌∷◌, arith, Result, ok, err, get_or, All, IsByte, IsBytes, Bool-cases,
  inl, inr, leb,
}
use drivewire_rs.Prelude.Bytes.{append-All, set-All, get_or-All}
use drivewire_rs.Io.{Wire}
use drivewire_rs.Vdisk.Bytes.{AreBytes}
use drivewire_rs.Server.State.{
  Server, vserial_channels, drain_vserial, send_to_vserial, wait_vserial_inbox, mount, unmount,
}
use drivewire_rs.Server.Actions.{
  Action, write, write_many, poll_one, poll_many, open_channel, host_send, host_drain, host_wait,
  mount_disk, unmount_disk, print_byte, print_flush, perform,
}
use drivewire_rs.Server.Actions.Valid.{perform-IsValid}
use drivewire_rs.Control.Status.{IsDistinct, perform-IsDistinct, perform_all-IsDistinct}
use drivewire_rs.Server.Session.{World, ServerError}
use drivewire_rs.Server.Handlers.{now}
use drivewire_rs.Server.Handlers.Bytes.{
  IsTyped, IsTypedWorld, calendar, poll-IsBytes, read_many-IsBytes,
}
use drivewire_rs.Server.Handlers.Typed.{
  push-IsTyped, extend-IsTyped, open-IsTyped, print-IsTyped, outboxes-IsTyped, extend-All,
}
use drivewire_rs.Server.Run.{turn}
use drivewire_rs.Server.Run.Performed.{turn-Performs}
use drivewire_rs.Server.Run.Typed.{turn-IsTypedWorld}
use drivewire_rs.Server.Sessions.{
  Guests, world_of, settle, turn_at, turn_of, BringsBytes, Step, served, accepted, acted, passed,
  Reaches, here, then,
}

-- The other methods of the server keep its queues queues of bytes.
pub perform-IsTyped : (a : Action) (s : Server) → BringsBytes a → IsTyped s → IsTyped (perform a s)
unfolding perform drain_vserial send_to_vserial wait_vserial_inbox mount unmount
perform-IsTyped (write channel byte) s h t = push-IsTyped channel byte s h t
perform-IsTyped (write_many channel bytes) s h t = extend-IsTyped channel bytes s h t
perform-IsTyped poll_one s h t =
    outboxes-IsTyped _ s (perform-IsValid poll_one s t.valid)
      (poll-IsBytes 0 s.vserial_outbox (omega (arith, t.valid.outboxes)) t.outboxes).1 t
perform-IsTyped (poll_many channel count) s h t =
    outboxes-IsTyped _ s (perform-IsValid (poll_many channel count) s t.valid)
      (read_many-IsBytes channel count s.vserial_outbox t.outboxes).1 t
perform-IsTyped (open_channel channel flag) s h t = open-IsTyped channel flag s t
perform-IsTyped (host_send channel bytes) s h t = record {
  valid = perform-IsValid (host_send channel bytes) s t.valid;
  inboxes = ground (arith, t.inboxes);
  outboxes = elim (Bool-cases (leb vserial_channels channel)) [
    | inl e ↦ rw (perform, send_to_vserial, e) t.outboxes
    | inr e ↦
        rw (perform, send_to_vserial, e) (extend-All s.vserial_outbox channel bytes t.outboxes h)
  ];
  printed = ground (arith, t.printed);
}
perform-IsTyped (host_drain channel) s h t = record {
  valid = perform-IsValid (host_drain channel) s t.valid;
  inboxes = elim (Bool-cases (leb vserial_channels channel)) [
    | inl e ↦ rw (perform, drain_vserial, e) t.inboxes
    | inr e ↦
        rw (perform, drain_vserial, e) (set-All IsBytes s.vserial_inbox channel [] t.inboxes tt)
  ];
  outboxes = ground (arith, t.outboxes);
  printed = ground (arith, t.printed);
}
perform-IsTyped (host_wait channel) s h t = record {
  valid = perform-IsValid (host_wait channel) s t.valid;
  inboxes = ground (arith, t.inboxes);
  outboxes = ground (arith, t.outboxes);
  printed = ground (arith, t.printed);
}
perform-IsTyped (mount_disk slot disk) s h t = record {
  valid = perform-IsValid (mount_disk slot disk) s t.valid;
  inboxes = t.inboxes;
  outboxes = t.outboxes;
  printed = t.printed;
}
perform-IsTyped (unmount_disk slot) s h t = record {
  valid = perform-IsValid (unmount_disk slot) s t.valid;
  inboxes = t.inboxes;
  outboxes = t.outboxes;
  printed = t.printed;
}
perform-IsTyped (print_byte byte) s h t =
    print-IsTyped _ s (append-All IsByte s.print_buffer (byte ∷ []) t.printed (h, tt)) t
perform-IsTyped print_flush s h t = print-IsTyped [] s tt t

-- A session's stream holds bytes.
abbrev pub WireIsTyped : Option Wire → Type 0
WireIsTyped none = Unit
WireIsTyped (some wire) = IsBytes wire.input × IsBytes wire.output

-- The server has its 16 channels and holds bytes, as do the disks and the streams, and no slot has two disks.
pub record IsSound (g : Guests) : Type 0 where
  pub server : IsTyped g.server
  pub distinct : IsDistinct g.server.drives
  pub files : AreBytes g.files
  pub clock : IsBytes (calendar (now g.clock))
  pub sessions : All WireIsTyped g.sessions

settle-IsSound :
    (i : ℕ) (g : Guests) (r : Result ServerError (Unit {0})) (w : World)
    → IsTypedWorld w
    → IsDistinct w.server.drives
    → IsBytes (calendar (now g.clock))
    → All WireIsTyped g.sessions
    → IsSound (settle i g (r, w))
settle-IsSound i g (ok _) w t d c h = record {
  server = t.server;
  distinct = d;
  files = t.files;
  clock = c;
  sessions = set-All WireIsTyped g.sessions i (some w.wire) h (t.input, t.output);
}
settle-IsSound i g (err e) w t d c h = record {
  server = t.server;
  distinct = d;
  files = t.files;
  clock = c;
  sessions = set-All WireIsTyped g.sessions i none h tt;
}

-- A turn of a session that holds bytes.
turn_at-IsSound :
    (i : ℕ) (g : Guests) (session : Option Wire)
    → IsSound g
    → WireIsTyped session
    → IsSound (turn_at i g session)
turn_at-IsSound i g none h t = h
turn_at-IsSound i g (some wire) h t =
    let p = turn-Performs.performs (world_of g wire) in
    settle-IsSound i g (turn (world_of g wire)).0 (turn (world_of g wire)).1
      (turn-IsTypedWorld (world_of g wire)
        (record { server = h.server; files = h.files; input = t.0; output = t.1; clock = h.clock }))
      (rw p.performed (perform_all-IsDistinct p.actions g.server h.distinct)) h.clock h.sessions

step-IsSound : {g k : Guests} → Step g k → IsSound g → IsSound k
unfolding turn_of
step-IsSound (served g i) h =
    turn_at-IsSound i g (get_or g.sessions i none) h
      (get_or-All WireIsTyped g.sessions i none h.sessions tt)
step-IsSound (accepted g wire b o) h = record {
  server = h.server;
  distinct = h.distinct;
  files = h.files;
  clock = h.clock;
  sessions = append-All WireIsTyped g.sessions (some wire ∷ []) h.sessions ((b, rw o tt), tt);
}
step-IsSound (acted g a b) h = record {
  server = perform-IsTyped a g.server b h.server;
  distinct = perform-IsDistinct a g.server h.distinct;
  files = h.files;
  clock = h.clock;
  sessions = h.sessions;
}
step-IsSound (passed g clock c) h = record {
  server = h.server;
  distinct = h.distinct;
  files = h.files;
  clock = c;
  sessions = h.sessions;
}

-- Whatever connections are accepted, whichever session has its turn, however it ends, and whatever
-- the other tasks do between: the server keeps its 16 channels and no two disks in one slot, and its
-- queues, printer buffer, disks and streams hold numbers below 256 only, if those that guests and
-- hosts send are.
pub Reaches-IsSound : {g k : Guests} → Reaches g k → IsSound g → IsSound k
Reaches-IsSound (here g) h = h
Reaches-IsSound (then step rest) h = Reaches-IsSound rest (step-IsSound step h)
