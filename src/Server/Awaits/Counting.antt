-- ===== src/Server/Awaits/Counting.antt =====
-- Each await of a session either changes nothing shared or stands for a whole turn.
use drivewire_rs.Prelude.{
  ℕ, Option, none, some, List, Result, ok, err, arith, ◌≡◌, refl, sym, ap, ◌∙◌, subst, ◌⊎◌, inl,
  inr,
}
use drivewire_rs.Io
use drivewire_rs.Io.{IoKind, Wire}
use drivewire_rs.Vdisk
use drivewire_rs.Vdisk.{DskFile}
use drivewire_rs.Server.State.{
  Server, Drives, get, push_vserial, drain_vserial, send_to_vserial, wait_vserial_inbox,
  set_channel_open,
}
use drivewire_rs.Server.Actions.{Action, mount_disk, unmount_disk, perform}
use drivewire_rs.Server.Session.{
  World, ServerError, and_then, ◌>>=◌, done, gets, receive, send, lift_io,
}
use drivewire_rs.Server.Handlers.{extend_inbox, now}
use drivewire_rs.Server.Run.{head_result, receive_opcode, turn}
use drivewire_rs.Server.Awaits.{
  Program, stop, fetching, receiving, sending, looking, reading, writing, locking, timing, answer,
  locked, write_disk, await, uninterrupted,
}
use drivewire_rs.Server.Awaits.Meaning.{head-turn}
use drivewire_rs.Server.Awaits.Tasks.{HoldsDisk, KeepsDrives}
use drivewire_rs.Server.Awaits.Ready.{Silent, Ready, head-Ready}
use drivewire_rs.Server.Awaits.Moving.{on, outcome, Follows, Stays, Counts, counted}

-- The actions of sessions and attached clients leave the drives alone.
pub perform-drives : (a : Action) (s : Server) → KeepsDrives a → (perform a s).drives ≡ s.drives
unfolding perform push_vserial extend_inbox set_channel_open send_to_vserial drain_vserial
    wait_vserial_inbox
perform-drives (mount_disk slot disk) s h = absurd h
perform-drives (unmount_disk slot) s h = absurd h
perform-drives _ s h = ground arith

abbrev pub Advances : Drives → World → Result ServerError Program × World → Option Wire → Type 0
Advances drives w out a = Stays drives w out a ⊎ Counts drives w out a

module _ (drives : Drives) (a : Option Wire) (start : Wire) (live : a ≡ some start) (w : World)
    (same : w.server.drives ≡ drives) where
  -- Behind an await that brought something of the session's own stream.
  brought :
      (p : Program) (wire : Wire)
      → Silent p ⊎ Ready p
      → ((v : World) → uninterrupted p (on wire v) ≡ turn (on start v))
      → Advances drives w (ok p, on wire w) a
  brought p wire (inl h) e = inr (counted drives a start live w p wire w h same (e w))
  brought p wire (inr h) e = inl (record {
    server = refl;
    files = refl;
    follows = inl (record { start = start; live = live; ready = h; rest = λ v _. e v });
  })

  -- Behind an await that ended the session.
  failed :
      (e e' : ServerError) (wire : Wire)
      → (err e, on wire w) ≡ turn (on start w)
      → Advances drives w (err e', on wire w) a
  failed e e' wire h = inr (record {
    start = start;
    live = live;
    keeps = same;
    server = ap (λ t. t.1.server) (sym h);
    files = ap (λ t. t.1.files) (sym h);
    follows = ap outcome (sym h);
  })

  brought_io :
      {A : Type 0} (k : A → Program) (wire : Wire) (io : Result IoKind A × Wire)
      → ((x : A) → Silent (k x) ⊎ Ready (k x))
      → ((v : World)
          → and_then (λ x. uninterrupted (k x)) (lift_io (on wire v) io) ≡ turn (on start v))
      → Advances drives w (and_then (λ x. gets (λ _. k x)) (lift_io (on wire w) io)) a
  unfolding and_then lift_io gets
  brought_io k wire (ok x, wire') h e = brought (k x) wire' (h x) e
  brought_io k wire (err kind, wire') h e = failed _ _ wire' (e w)

  fetched :
      (k : List ℕ → Program) (wire : Wire) (io : Result IoKind (List ℕ) × Wire)
      → ((x : List ℕ) → Silent (k x) ⊎ Ready (k x))
      → ((v : World)
          → and_then (λ x. uninterrupted (k x)) (head_result (lift_io (on wire v) io))
            ≡ turn (on start v))
      → Advances drives w (and_then (λ x. gets (λ _. k x)) (head_result (lift_io (on wire w) io))) a
  unfolding and_then lift_io gets head_result
  fetched k wire (ok x, wire') h e = brought (k x) wire' (h x) e
  fetched k wire (err kind, wire') h e = failed _ _ wire' (e w)

  looked :
      (slot : ℕ) (k : Option DskFile → Program) (wire : Wire) (found : Option DskFile)
      → get slot drives ≡ found
      → Ready (looking slot k)
      → ((v : World) → uninterrupted (k (get slot v.server.drives)) (on wire v) ≡ turn (on start v))
      → Advances drives w (ok (k found), on wire w) a
  looked slot k wire none g h e = inr (
      counted drives a start live w (k none) wire w h.0 same
        (ap (λ f. uninterrupted (k f) (on wire w)) (sym g ∙ ap (get slot) (sym same)) ∙ e w))
  looked slot k wire (some d) g h e = inl (record {
    server = refl;
    files = refl;
    follows = inl (record {
      start = start;
      live = live;
      ready = (h.1 d).1;
      rest = λ v keeps.
          ap (λ f. uninterrupted (k f) (on wire v)) (sym g ∙ ap (get slot) (sym (keeps (h.1 d).0)))
          ∙ e v;
    });
  })

  before-Advances :
      (p : Program) (wire : Wire)
      → Ready p
      → ((v : World)
          → (HoldsDisk p → v.server.drives ≡ drives)
          → uninterrupted p (on wire v) ≡ turn (on start v))
      → Advances drives w (await p (on wire w)) a
  unfolding await uninterrupted receive_opcode receive send gets ◌>>=◌ and_then write_disk locked
  before-Advances stop wire h e = absurd h
  before-Advances (fetching k) wire h e =
      fetched k wire (Io.read_exact 1 wire) h (λ v. e v (λ x. absurd x))
  before-Advances (receiving n k) wire h e =
      brought_io k wire (Io.read_exact n wire) h (λ v. e v (λ x. absurd x))
  before-Advances (sending bytes p) wire h e =
      brought_io (λ _. p) wire (Io.write_all bytes wire) (λ _. inr h) (λ v. e v (λ x. absurd x))
  before-Advances (looking slot k) wire h e =
      subst (λ f. Advances drives w (ok (k f), on wire w) a) (ap (get slot) (sym same))
        (looked slot k wire (get slot drives) refl h (λ v. e v (λ x. absurd x)))
  before-Advances (reading d lsn k) wire h e = inr (
      counted drives a start live w (k (Vdisk.read d lsn w.files)) wire w (h _) same
        (e w (λ _. same)))
  before-Advances (writing d lsn sector k) wire h e =
      let (r, files') = Vdisk.write d lsn sector w.files in
      inr (
        counted drives a start live w (k r) wire (record w { files = files' }) (h r) same
          (e w (λ _. same)))
  before-Advances (locking x k) wire h e = inr (
      counted drives a start live w (k (answer x w.server)) wire
        (record w { server = perform x w.server }) (h.1 _) (perform-drives x w.server h.0 ∙ same)
        (e w (λ x. absurd x)))
  before-Advances (timing k) wire h e =
      inr (counted drives a start live w (k (now w.clock)) wire w (h _) same (e w (λ x. absurd x)))

-- An await of a session whose turn has been counted.
module _ (drives : Drives) (a : Option Wire) (w : World) where
  after_io :
      {A : Type 0} (k : A → Program) (wire : Wire) (io : Result IoKind A × Wire)
      → ((x : A) → Silent (k x))
      → ((v : World) → outcome (and_then (λ x. uninterrupted (k x)) (lift_io (on wire v) io)) ≡ a)
      → Stays drives w (and_then (λ x. gets (λ _. k x)) (lift_io (on wire w) io)) a
  unfolding and_then lift_io gets
  after_io k wire (ok x, wire') h e = record {
    server = refl;
    files = refl;
    follows = inr (record { silent = h x; rest = e });
  }
  after_io k wire (err kind, wire') h e = record {
    server = refl;
    files = refl;
    follows = sym (e w);
  }

  after-Stays :
      (p : Program) (wire : Wire)
      → Silent p
      → ((v : World) → outcome (uninterrupted p (on wire v)) ≡ a)
      → Stays drives w (await p (on wire w)) a
  unfolding await uninterrupted receive send gets ◌>>=◌ done
  after-Stays stop wire h e = record {
    server = refl;
    files = refl;
    follows = inl (record {
      start = wire;
      live = sym (e w);
      ready = head-Ready;
      rest = λ v _. ap (λ m. m (on wire v)) head-turn;
    });
  }
  after-Stays (receiving n k) wire h e = after_io k wire (Io.read_exact n wire) h e
  after-Stays (sending bytes p) wire h e =
      after_io (λ _. p) wire (Io.write_all bytes wire) (λ _. h) e
  after-Stays (fetching k) wire h e = absurd h
  after-Stays (looking slot k) wire h e = absurd h
  after-Stays (reading d lsn k) wire h e = absurd h
  after-Stays (writing d lsn sector k) wire h e = absurd h
  after-Stays (locking x k) wire h e = absurd h
  after-Stays (timing k) wire h e = absurd h

-- Every await of a session that follows its stream.
pub await-Advances :
    (drives : Drives) (p : Program) (wire : Wire) (a : Option Wire) (w : World)
    → w.server.drives ≡ drives
    → Follows drives (some (record { rest = p; wire = wire })) a
    → Advances drives w (await p (on wire w)) a
await-Advances drives p wire a w same (inl b) =
    before-Advances drives a b.start b.live w same p wire b.ready b.rest
await-Advances drives p wire a w same (inr b) = inl (after-Stays drives a w p wire b.silent b.rest)
