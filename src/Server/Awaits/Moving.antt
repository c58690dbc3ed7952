-- ===== src/Server/Awaits/Moving.antt =====
-- One await of one session, against a turn of its loop taken as a whole at the moment when the session
-- touches what is shared.
use drivewire_rs.Prelude.{Option, none, some, Result, ok, err, ◌≡◌, refl, sym, ap, ◌∙◌, ◌⊎◌, inr}
use drivewire_rs.Io
use drivewire_rs.Io.{IoKind, Wire}
use drivewire_rs.Server.State.{Drives}
use drivewire_rs.Server.Session.{
  World, ServerError, Session, and_then, ◌>>=◌, done, receive, send, lift_io,
}
use drivewire_rs.Server.Run.{turn}
use drivewire_rs.Server.Sessions.{left_by}
use drivewire_rs.Server.Awaits.{
  Program, stop, fetching, receiving, sending, looking, reading, writing, locking, timing,
  uninterrupted,
}
use drivewire_rs.Server.Awaits.Tasks.{Process, HoldsDisk, resumed}
use drivewire_rs.Server.Awaits.Ready.{Silent, Ready}

abbrev pub on : Wire → World → World
on wire w = record w { wire = wire }

-- The stream that a session goes on with, if it does.
abbrev pub outcome : Result ServerError (Unit {0}) × World → Option Wire
outcome (r, w) = left_by r w.wire

-- Code that leaves what is shared alone, and whose outcome does not depend on it.
abbrev pub Quiet : (World → Result ServerError (Unit {0}) × World) → Type 0
Quiet m =
    (o : Option Wire) × ((w : World)
      → (outcome (m w) ≡ o) × ((m w).1.server ≡ w.server) × ((m w).1.files ≡ w.files))

Quiet-io :
    {A : Type 0} (f : A → Session (Unit {0})) (wire : Wire) (io : Result IoKind A × Wire)
    → ((a : A) (wire' : Wire) → Quiet (λ w. f a (on wire' w)))
    → Quiet (λ w. and_then f (lift_io (on wire w) io))
unfolding and_then lift_io
Quiet-io f wire (ok a, wire') h = h a wire'
Quiet-io f wire (err e, wire') h = (none, λ w. (refl, refl, refl))

Silent-Quiet : (p : Program) (wire : Wire) → Silent p → Quiet (λ w. uninterrupted p (on wire w))
unfolding uninterrupted receive send ◌>>=◌ done
Silent-Quiet stop wire h = (some wire, λ w. (refl, refl, refl))
Silent-Quiet (receiving n k) wire h =
    Quiet-io (λ bytes. uninterrupted (k bytes)) wire (Io.read_exact n wire)
      (λ bytes wire'. Silent-Quiet (k bytes) wire' (h bytes))
Silent-Quiet (sending bytes p) wire h =
    Quiet-io (λ _. uninterrupted p) wire (Io.write_all bytes wire)
      (λ _ wire'. Silent-Quiet p wire' h)
Silent-Quiet (fetching k) wire h = absurd h
Silent-Quiet (looking slot k) wire h = absurd h
Silent-Quiet (reading d lsn k) wire h = absurd h
Silent-Quiet (writing d lsn sector k) wire h = absurd h
Silent-Quiet (locking a k) wire h = absurd h
Silent-Quiet (timing k) wire h = absurd h

-- A session whose turn is still to be counted: finishing it now is a turn from the stream that it had
-- at the head of the loop, as long as the drives stay while it holds a disk.
pub record Before (drives : Drives) (p : Program) (wire : Wire) (a : Option Wire) : Type 0 where
  pub start : Wire
  pub live : a ≡ some start
  pub ready : Ready p
  pub rest :
      (w : World)
      → (HoldsDisk p → w.server.drives ≡ drives)
      → uninterrupted p (on wire w) ≡ turn (on start w)

-- A session whose turn has been counted: what is left leads to the stream counted for it.
pub record After (p : Program) (wire : Wire) (a : Option Wire) : Type 0 where
  pub silent : Silent p
  pub rest : (w : World) → outcome (uninterrupted p (on wire w)) ≡ a

abbrev pub Follows : Drives → Option Process → Option Wire → Type 0
Follows drives none a = a ≡ none
Follows drives (some q) a = Before drives q.rest q.wire a ⊎ After q.rest q.wire a

-- An await that changes nothing shared, and one that a whole turn stands for.
pub record Stays (drives : Drives) (w : World) (out : Result ServerError Program × World)
    (a : Option Wire) : Type 0 where
  pub server : out.1.server ≡ w.server
  pub files : out.1.files ≡ w.files
  pub follows : Follows drives (resumed out.0 out.1.wire) a

pub record Counts (drives : Drives) (w : World) (out : Result ServerError Program × World)
    (a : Option Wire) : Type 0 where
  pub start : Wire
  pub live : a ≡ some start
  pub keeps : out.1.server.drives ≡ drives
  pub server : (turn (on start w)).1.server ≡ out.1.server
  pub files : (turn (on start w)).1.files ≡ out.1.files
  pub follows : Follows drives (resumed out.0 out.1.wire) (outcome (turn (on start w)))

module _ (drives : Drives) (a : Option Wire) (start : Wire) (live : a ≡ some start)
    (w : World) where
  -- Behind its access to what is shared, which left the world `v`.
  pub counted :
      (p : Program) (wire : Wire) (v : World)
      → Silent p
      → v.server.drives ≡ drives
      → uninterrupted p (on wire v) ≡ turn (on start w)
      → Counts drives w (ok p, on wire v) a
  counted p wire v h keeps e =
      let (o, all) = Silent-Quiet p wire h in
      let (out, server, files) = all v in
      record {
        start = start;
        live = live;
        keeps = keeps;
        server = ap (λ t. t.1.server) (sym e) ∙ server;
        files = ap (λ t. t.1.files) (sym e) ∙ files;
        follows = inr (record { silent = h; rest = λ u. (all u).0 ∙ sym out ∙ ap outcome e });
      }
