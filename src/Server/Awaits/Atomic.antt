-- ===== src/Server/Awaits/Atomic.antt =====
-- Whole turns are all that can be told of interrupted ones, once every session is between two turns.
use drivewire_rs.Prelude.{
  Option, none, some, List, [], ◌∷◌, map, ◌≡◌, refl, sym, subst, inl, inr, All,
}
use drivewire_rs.Io.{Wire}
use drivewire_rs.Vdisk.Bytes.{AreBytes}
use drivewire_rs.Server.State.{Drives}
use drivewire_rs.Server.Session.{World, done}
use drivewire_rs.Server.Handlers.Bytes.{IsTyped}
use drivewire_rs.Control.Status.{IsDistinct}
use drivewire_rs.Server.Sessions.Sound.{IsSound, Reaches-IsSound}
use drivewire_rs.Server.Awaits.{stop, uninterrupted}
use drivewire_rs.Server.Awaits.Tasks.{Process, Tasks, seen_by, Interleaves}
use drivewire_rs.Server.Awaits.Moving.{Follows}
use drivewire_rs.Server.Awaits.Following.{AllFollow}
use drivewire_rs.Server.Awaits.Whole.{
  whole, Turns, Turns-Reaches, outside, fresh-Follows, Interleaves-Refines,
}

-- A session between two turns, or at its end.
abbrev pub IsBetween : Option Process → Type 0
IsBetween none = Unit
IsBetween (some q) = q.rest ≡ stop

abbrev pub stream : Option Process → Option Wire
stream none = none
stream (some q) = some q.wire

abbrev pub streams : Tasks → List (Option Wire)
streams t = map stream t.processes

between-Follows : (drives : Drives) (q : Option Process) → IsBetween q → Follows drives q (stream q)
between-Follows drives none h = refl
between-Follows drives (some q) h =
    subst (λ p. Follows drives (some (record { rest = p; wire = q.wire })) (some q.wire)) (sym h)
      (fresh-Follows drives q.wire)

between-AllFollow :
    (drives : Drives) (qs : List (Option Process))
    → All IsBetween qs
    → AllFollow drives qs (map stream qs)
between-AllFollow drives [] h = tt
between-AllFollow drives (q ∷ qs) h =
    (between-Follows drives q h.0, between-AllFollow drives qs h.1)

-- There is only one stream that such a session follows.
stop-Follows :
    (drives : Drives) (wire : Wire) (a : Option Wire) (w : World)
    → Follows drives (some (record { rest = stop; wire = wire })) a
    → a ≡ some wire
unfolding uninterrupted done
stop-Follows drives wire a w (inl b) = absurd b.ready
stop-Follows drives wire a w (inr b) = sym (b.rest w)

between-stream :
    (drives : Drives) (q : Option Process) (a : Option Wire) (u : Tasks)
    → IsBetween q
    → Follows drives q a
    → a ≡ stream q
between-stream drives none a u h f = f
between-stream drives (some q) a u h f =
    stop-Follows drives q.wire a (seen_by u q.wire)
      (subst (λ p. Follows drives (some (record { rest = p; wire = q.wire })) a) h f)

between-streams :
    (drives : Drives) (qs : List (Option Process)) (ws : List (Option Wire)) (u : Tasks)
    → All IsBetween qs
    → AllFollow drives qs ws
    → ws ≡ map stream qs
between-streams drives [] [] u h f = refl
between-streams drives (q ∷ qs) (a ∷ ws) u h f =
    λ i. between-stream drives q a u h.0 f.0 i ∷ between-streams drives qs ws u h.1 f.1 i
between-streams drives [] (a ∷ ws) u h f = absurd f
between-streams drives (q ∷ qs) [] u h f = absurd f

-- However the awaits of many sessions and the steps of the other tasks are interleaved, if the
-- drives change only while no session holds a disk that it has looked up and not used: from sessions
-- between two turns to sessions between two turns, some run in which every turn is taken whole,
-- between the same connections, steps of other tasks and times in the same order and with no others,
-- leads from the same server, files, clock and streams to the same.
pub Interleaves-Turns :
    {t u : Tasks} (run : Interleaves t u)
    → All IsBetween t.processes
    → All IsBetween u.processes
    → Turns (outside run) (whole t (streams t)) (whole u (streams u))
Interleaves-Turns {t} {u} run start end =
    let (ws, turns, f) =
      Interleaves-Refines (streams t) run (between-AllFollow t.server.drives t.processes start) in
    subst (λ l. Turns (outside run) (whole t (streams t)) (whole u l))
      (between-streams u.server.drives u.processes ws u end f) turns

-- At every moment of an interleaving of awaits in which the drives change only while no session
-- holds a disk that it has looked up and not used, from sessions between two turns on a server with
-- its 16 channels, distinct slots and bytes only in its queues, files, clock and streams, so in the
-- middle of any handlers: the server has its 16 channels and holds bytes, as do the files, and no
-- slot has two disks.
Interleaves-IsTyped :
    {t u : Tasks}
    → Interleaves t u
    → All IsBetween t.processes
    → IsSound (whole t (streams t))
    → IsTyped u.server × IsDistinct u.server.drives × AreBytes u.files
Interleaves-IsTyped {t} {u} run start sound =
    let (ws, turns, f) =
      Interleaves-Refines (streams t) run (between-AllFollow t.server.drives t.processes start) in
    let s = Reaches-IsSound (Turns-Reaches turns) sound in (s.server, s.distinct, s.files)
