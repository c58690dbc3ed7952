-- ===== src/Server/Awaits/Ending.antt =====
-- Every turn of a session comes to its end, whatever the other tasks do between its awaits.
use drivewire_rs.Prelude.{
  ℕ, zero, suc, ◌≤◌, ◌<◌, length, get_or, ◌≡◌, refl, Option, none, some, List, Result, ok, err,
  arith,
}
use drivewire_rs.Prelude.Lists.{get_or-set_self}
use drivewire_rs.Io
use drivewire_rs.Io.{IoKind, Wire}
use drivewire_rs.Proto.Opcode.{from_byte}
use drivewire_rs.Vdisk
use drivewire_rs.Vdisk.{DskFile, Sector, VDiskError}
use drivewire_rs.Server.State.{get}
use drivewire_rs.Server.Session.{World, and_then, ◌>>=◌, gets, receive, send, lift_io, at}
use drivewire_rs.Server.Handlers.{now}
use drivewire_rs.Server.Run.{receive_opcode, head_result}
use drivewire_rs.Server.Awaits.{
  Program, stop, fetching, receiving, sending, looking, reading, writing, locking, timing, answer,
  locked, write_disk, head, await,
}
use drivewire_rs.Server.Awaits.Tasks.{Process, Tasks, seen_by, resumed, poll_at, poll_task}
use drivewire_rs.Server.Awaits.Moving.{on}
use drivewire_rs.Server.Awaits.Bounded.{Within, body-Within}
use drivewire_rs.Server.Awaits.Atomic.{IsBetween}

-- The next await of a session, in the world that it then meets.
abbrev pub poll_in : World → Option Process → Option Process
poll_in w none = none
poll_in w (some q) = let (r, w') = await q.rest (on q.wire w) in resumed r w'.wire

-- A session behind so many awaits, each in a world of its own.
unfoldable pub polled_in : (ℕ → World) → ℕ → Option Process → Option Process
polled_in worlds zero q = q
polled_in worlds (suc n) q = polled_in (λ m. worlds (suc m)) n (poll_in (worlds 0) q)

-- That is how the session goes on among the tasks.
poll_at-poll_in :
    (i : ℕ) (t : Tasks) (wire : Wire) (q : Option Process)
    → i < length t.processes
    → get_or t.processes i none ≡ q
    → get_or (poll_at i t q).processes i none ≡ poll_in (seen_by t wire) q
poll_at-poll_in i t wire none there e = e
poll_at-poll_in i t wire (some q) there e =
    get_or-set_self t.processes i
      (resumed (await q.rest (seen_by t q.wire)).0 (await q.rest (seen_by t q.wire)).1.wire) none
      there

-- Some number of awaits, at most so many, leads to a place between two turns.
abbrev pub Rests : (ℕ → World) → ℕ → Option Process → Type 0
Rests worlds n q = (k : ℕ) × (k ≤ n) × IsBetween (polled_in worlds k q)

-- One await more in front.
one_more :
    (worlds : ℕ → World) (n : ℕ) (q : Option Process)
    → Rests (λ m. worlds (suc m)) n (poll_in (worlds 0) q)
    → Rests worlds (suc n) q
unfolding polled_in
one_more worlds n q (k, le, h) = (suc k, omega arith, h)

ended-Rests : (worlds : ℕ → World) (n : ℕ) → Rests worlds n none
unfolding polled_in
ended-Rests worlds n = (0, omega arith, tt)

io-Rests :
    {A : Type 0} (worlds : ℕ → World) (n : ℕ) (k : A → Program) (wire : Wire) (w : World)
    (io : Result IoKind A × Wire)
    → ((x : A) (wire' : Wire) → Rests worlds n (some (record { rest = k x; wire = wire' })))
    → let (r, w') = and_then (λ x. gets (λ _. k x)) (lift_io (on wire w) io) in
      Rests worlds n (resumed r w'.wire)
unfolding and_then lift_io gets
io-Rests worlds n k wire w (ok x, wire') h = h x wire'
io-Rests worlds n k wire w (err kind, wire') h = ended-Rests worlds n

fetch-Rests :
    (worlds : ℕ → World) (n : ℕ) (k : List ℕ → Program) (wire : Wire) (w : World)
    (io : Result IoKind (List ℕ) × Wire)
    → ((x : List ℕ) (wire' : Wire) → Rests worlds n (some (record { rest = k x; wire = wire' })))
    → let (r, w') = and_then (λ x. gets (λ _. k x)) (head_result (lift_io (on wire w) io)) in
      Rests worlds n (resumed r w'.wire)
unfolding and_then lift_io gets head_result
fetch-Rests worlds n k wire w (ok x, wire') h = h x wire'
fetch-Rests worlds n k wire w (err kind, wire') h = ended-Rests worlds n

program-Rests :
    (worlds : ℕ → World) (p : Program) (n : ℕ) (wire : Wire)
    → Within p n
    → Rests worlds n (some (record { rest = p; wire = wire }))
unfolding await receive_opcode receive send gets ◌>>=◌ and_then locked write_disk polled_in
program-Rests worlds stop n wire h = (0, omega arith, refl)
program-Rests worlds (fetching k) (suc n) wire h = one_more worlds n _ (
    fetch-Rests _ n k wire (worlds 0) (Io.read_exact 1 wire)
      (λ x wire'. program-Rests (λ m. worlds (suc m)) (k x) n wire' (h x)))
program-Rests worlds (receiving m k) (suc n) wire h = one_more worlds n _ (
    io-Rests _ n k wire (worlds 0) (Io.read_exact m wire)
      (λ x wire'. program-Rests (λ m. worlds (suc m)) (k x) n wire' (h x)))
program-Rests worlds (sending bytes p) (suc n) wire h = one_more worlds n _ (
    io-Rests _ n (λ _. p) wire (worlds 0) (Io.write_all bytes wire)
      (λ _ wire'. program-Rests (λ m. worlds (suc m)) p n wire' h))
program-Rests worlds (looking slot k) (suc n) wire h =
    let found = get slot (worlds 0).server.drives in
    one_more worlds n _ (program-Rests (λ m. worlds (suc m)) (k found) n wire (h found))
program-Rests worlds (reading d lsn k) (suc n) wire h =
    let r = Vdisk.read d lsn (worlds 0).files in
    one_more worlds n _ (program-Rests (λ m. worlds (suc m)) (k r) n wire (h r))
program-Rests worlds (writing d lsn sector k) (suc n) wire h =
    let (r, files') = Vdisk.write d lsn sector (worlds 0).files in
    one_more worlds n _ (program-Rests (λ m. worlds (suc m)) (k r) n wire (h r))
program-Rests worlds (locking a k) (suc n) wire h =
    let bytes = answer a (worlds 0).server in
    one_more worlds n _ (program-Rests (λ m. worlds (suc m)) (k bytes) n wire (h bytes))
program-Rests worlds (timing k) (suc n) wire h =
    let moment = now (worlds 0).clock in
    one_more worlds n _ (program-Rests (λ m. worlds (suc m)) (k moment) n wire (h moment))
program-Rests worlds (fetching k) zero wire h = absurd h
program-Rests worlds (receiving m k) zero wire h = absurd h
program-Rests worlds (sending bytes p) zero wire h = absurd h
program-Rests worlds (looking slot k) zero wire h = absurd h
program-Rests worlds (reading d lsn k) zero wire h = absurd h
program-Rests worlds (writing d lsn sector k) zero wire h = absurd h
program-Rests worlds (locking a k) zero wire h = absurd h
program-Rests worlds (timing k) zero wire h = absurd h

-- Among the tasks, a session that is polled goes on by that await.
poll_task-poll_in :
    (i : ℕ) (t : Tasks) (wire : Wire)
    → i < length t.processes
    → get_or (poll_task i t).processes i none ≡ poll_in (seen_by t wire) (get_or t.processes i none)
unfolding poll_task
poll_task-poll_in i t wire there = poll_at-poll_in i t wire (get_or t.processes i none) there refl

-- Whatever server, files and clock each of its awaits meets, and whatever its peer sends or stops
-- taking: a session is between two turns again, or has ended, within seven awaits of the head of its
-- loop.
pub head-Rests :
    (worlds : ℕ → World) (wire : Wire) → Rests worlds 7 (some (record { rest = head; wire = wire }))
head-Rests worlds wire =
    program-Rests worlds head 7 wire (λ byte. body-Within (from_byte (at byte 0)))
