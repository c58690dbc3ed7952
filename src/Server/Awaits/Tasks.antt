-- ===== src/Server/Awaits/Tasks.antt =====
-- Many sessions that are cut at their awaits, between the steps of the other tasks: what tokio may make
-- of the loop of `serve` in crates/drivewire-cli/src/main.rs and `Server::run`.
use drivewire_rs.Prelude.{
  ℕ, zero, suc, Option, none, some, List, [], ◌∷◌, ◌++◌, ◌≡◌, ◌⊎◌, Result, ok, err, get_or, set,
  All, IsBytes,
}
use drivewire_rs.Io.{Wire}
use drivewire_rs.Vdisk.{Files}
use drivewire_rs.Server.State.{Server}
use drivewire_rs.Server.Actions.{Action, mount_disk, unmount_disk, perform}
use drivewire_rs.Server.Session.{World, ServerError, Clock}
use drivewire_rs.Server.Handlers.{now}
use drivewire_rs.Server.Handlers.Bytes.{calendar}
use drivewire_rs.Server.Sessions.{BringsBytes}
use drivewire_rs.Server.Awaits.{Program, stop, reading, writing, await}

-- What is left of a session's turn, and its stream.
pub record Process : Type 0 where
  pub rest : Program
  pub wire : Wire

-- The sessions in the order in which they were accepted; `none` is one that has ended.
pub record Tasks : Type 0 where
  pub server : Server
  pub files : Files
  pub clock : Clock
  pub processes : List (Option Process)

abbrev pub seen_by : Tasks → Wire → World
seen_by t wire = record { server = t.server; files = t.files; wire = wire; clock = t.clock }

-- A session behind an await, which may end it with an error.
abbrev pub resumed : Result ServerError Program → Wire → Option Process
resumed (ok p) wire = some (record { rest = p; wire = wire })
resumed (err e) wire = none

abbrev pub put_back : ℕ → Tasks → Result ServerError Program × World → Tasks
put_back i t (r, w) = record {
  server = w.server;
  files = w.files;
  clock = t.clock;
  processes = set t.processes i (resumed r w.wire);
}

abbrev pub poll_at : ℕ → Tasks → Option Process → Tasks
poll_at i t none = t
poll_at i t (some p) = put_back i t (await p.rest (seen_by t p.wire))

-- Session `i` goes on to its next await.
unfoldable pub poll_task : ℕ → Tasks → Tasks
poll_task i t = poll_at i t (get_or t.processes i none)

-- A session polled again and again.
unfoldable pub polls : ℕ → ℕ → Tasks → Tasks
polls zero i t = t
polls (suc n) i t = polls n i (poll_task i t)

-- A new connection starts at the head of its loop.
abbrev pub fresh : Wire → Option Process
fresh wire = some (record { rest = stop; wire = wire })

-- Nothing of a disk is in the program's hands but one that it has looked up and not used yet.
abbrev pub HoldsDisk : Program → Type 0
HoldsDisk (reading d lsn k) = Unit
HoldsDisk (writing d lsn sector k) = Unit
HoldsDisk _ = ⊥

abbrev pub HandsFree : Option Process → Type 0
HandsFree none = Unit
HandsFree (some p) = ¬ HoldsDisk p.rest

-- An action that mounts or unmounts nothing.
abbrev pub KeepsDrives : Action → Type 0
KeepsDrives (mount_disk slot disk) = ⊥
KeepsDrives (unmount_disk slot) = ⊥
KeepsDrives _ = Unit

-- What may happen next: a session goes on by one await, a connection, a step of another task, where a
-- mount or an unmount comes while no session holds a disk that it has looked up, and time.
pub data Moves : Tasks → Tasks → Type 0 where
  polled : (t : Tasks) (i : ℕ) → Moves t (poll_task i t)
  connected :
      (t : Tasks) (wire : Wire)
      → IsBytes wire.input
      → wire.output ≡ []
      → Moves t (record t { processes = t.processes ++ (fresh wire ∷ []) })
  acted :
      (t : Tasks) (a : Action)
      → BringsBytes a
      → KeepsDrives a ⊎ All HandsFree t.processes
      → Moves t (record t { server = perform a t.server })
  passed :
      (t : Tasks) (clock : Clock)
      → IsBytes (calendar (now clock))
      → Moves t (record t { clock = clock })

pub data Interleaves : Tasks → Tasks → Type 0 where
  here : (t : Tasks) → Interleaves t t
  then : {t u v : Tasks} → Moves t u → Interleaves u v → Interleaves t v
