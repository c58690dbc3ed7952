-- ===== src/Server/Awaits/Anytime.antt =====
-- Interrupted sessions while the other tasks mount and unmount at any time, as `handle_control` in
-- crates/drivewire-server/src/lib.rs does: nothing keeps it from a disk that a session has looked up.
use drivewire_rs.Prelude.{Option, none, some, [], ◌∷◌, Result, ok, err, get_or, ℕ, All, IsBytes}
use drivewire_rs.Prelude.Bytes.{append-All, set-All, get_or-All}
use drivewire_rs.Vdisk.Bytes.{AreBytes}
use drivewire_rs.Server.Actions.{Action, perform}
use drivewire_rs.Server.Session.{World, ServerError}
use drivewire_rs.Server.Handlers.{now}
use drivewire_rs.Server.Handlers.Bytes.{IsTyped, calendar}
use drivewire_rs.Server.Sessions.{BringsBytes}
use drivewire_rs.Server.Sessions.Sound.{perform-IsTyped}
use drivewire_rs.Control.Status.{IsDistinct, perform-IsDistinct}
use drivewire_rs.Server.Awaits.{Program, await}
use drivewire_rs.Server.Awaits.Tasks.{
  Process, Tasks, seen_by, resumed, put_back, poll_at, poll_task, fresh, Moves, polled, connected,
  acted, passed,
}
use drivewire_rs.Server.Awaits.Typed.{Expects}
use drivewire_rs.Server.Awaits.Leaves.{Leaves, await-Leaves}

-- What may happen, with no regard to the disks that sessions hold.
pub data Happens : Tasks → Tasks → Type 0 where
  moved : {t u : Tasks} → Moves t u → Happens t u
  acted_anytime :
      (t : Tasks) (a : Action)
      → BringsBytes a
      → Happens t (record t { server = perform a t.server })

pub data Runs : Tasks → Tasks → Type 0 where
  here : (t : Tasks) → Runs t t
  then : {t u v : Tasks} → Happens t u → Runs u v → Runs t v

-- A session that keeps to bytes, on a stream of bytes.
abbrev pub ProcessIsTyped : Option Process → Type 0
ProcessIsTyped none = Unit
ProcessIsTyped (some q) = Expects q.rest × IsBytes q.wire.input × IsBytes q.wire.output

-- The server has its 16 channels and holds bytes, as do the disks and the streams, no slot has two
-- disks, and what is left of each turn keeps to bytes.
pub record AreSound (t : Tasks) : Type 0 where
  pub server : IsTyped t.server
  pub distinct : IsDistinct t.server.drives
  pub files : AreBytes t.files
  pub clock : IsBytes (calendar (now t.clock))
  pub processes : All ProcessIsTyped t.processes

resumed-ProcessIsTyped :
    (r : Result ServerError Program) (w : World)
    → Leaves Expects (r, w)
    → ProcessIsTyped (resumed r w.wire)
resumed-ProcessIsTyped (ok p) w l = (l.gives, l.typed.input, l.typed.output)
resumed-ProcessIsTyped (err e) w l = tt

put_back-AreSound :
    (i : ℕ) (t : Tasks) (r : Result ServerError Program) (w : World)
    → AreSound t
    → Leaves Expects (r, w)
    → AreSound (put_back i t (r, w))
put_back-AreSound i t r w s l = record {
  server = l.typed.server;
  distinct = l.distinct;
  files = l.typed.files;
  clock = s.clock;
  processes = set-All ProcessIsTyped t.processes i _ s.processes (resumed-ProcessIsTyped r w l);
}

poll_at-AreSound :
    (i : ℕ) (t : Tasks) (q : Option Process)
    → AreSound t
    → ProcessIsTyped q
    → AreSound (poll_at i t q)
poll_at-AreSound i t none s h = s
poll_at-AreSound i t (some q) s h =
    let out = await q.rest (seen_by t q.wire) in
    put_back-AreSound i t out.0 out.1 s (
      await-Leaves (seen_by t q.wire)
        (record { server = s.server; files = s.files; input = h.1; output = h.2; clock = s.clock })
        s.distinct q.rest h.0)

acted-AreSound :
    (t : Tasks) (a : Action)
    → BringsBytes a
    → AreSound t
    → AreSound (record t { server = perform a t.server })
acted-AreSound t a b s = record {
  server = perform-IsTyped a t.server b s.server;
  distinct = perform-IsDistinct a t.server s.distinct;
  files = s.files;
  clock = s.clock;
  processes = s.processes;
}

Moves-AreSound : {t u : Tasks} → Moves t u → AreSound t → AreSound u
unfolding poll_task
Moves-AreSound (polled t i) s =
    poll_at-AreSound i t (get_or t.processes i none) s
      (get_or-All ProcessIsTyped t.processes i none s.processes tt)
Moves-AreSound (connected t wire b o) s = record {
  server = s.server;
  distinct = s.distinct;
  files = s.files;
  clock = s.clock;
  processes =
      append-All ProcessIsTyped t.processes (fresh wire ∷ []) s.processes ((tt, b, rw o tt), tt);
}
Moves-AreSound (acted t a b free) s = acted-AreSound t a b s
Moves-AreSound (passed t clock c) s = record {
  server = s.server;
  distinct = s.distinct;
  files = s.files;
  clock = c;
  processes = s.processes;
}

Happens-AreSound : {t u : Tasks} → Happens t u → AreSound t → AreSound u
Happens-AreSound (moved m) s = Moves-AreSound m s
Happens-AreSound (acted_anytime t a b) s = acted-AreSound t a b s

-- However the awaits of many sessions and the steps of the other tasks are interleaved, with mounts
-- and unmounts at any time, also of a disk that a session holds: from tasks where the server has its
-- 16 channels, no slot has two disks, the queues, printer buffer, files, clock and streams hold
-- numbers below 256 only, and what is left of each turn, given bytes, sends and stores bytes, all of
-- this holds at every moment, if what guests and hosts send are bytes.
pub Runs-AreSound : {t u : Tasks} → Runs t u → AreSound t → AreSound u
Runs-AreSound (here t) s = s
Runs-AreSound (then step rest) s = Runs-AreSound rest (Happens-AreSound step s)
