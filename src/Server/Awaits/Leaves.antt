-- ===== src/Server/Awaits/Leaves.antt =====
-- A session that is interrupted at any await keeps bytes bytes, whatever became of the drives meanwhile.
use drivewire_rs.Prelude.{ℕ, List, arith, Result, ok, err, IsByte, IsBytes, length}
use native.Mathlib.Decide.{dec_le}
use drivewire_rs.Prelude.Bytes.{take-All, drop-All}
use drivewire_rs.Io.{IoKind, Wire, write_all}
use drivewire_rs.Proto.Lsn.{Lsn}
use drivewire_rs.Proto.Opcode.{from_byte}
use drivewire_rs.Vdisk.{DskFile, Sector}
use drivewire_rs.Vdisk.Bytes.{SectorIsBytes, read-IsBytes, write-AreBytes}
use drivewire_rs.Server.State.{Server}
use drivewire_rs.Server.Actions.{
  Action, write, write_many, poll_one, poll_many, open_channel, host_send, host_drain, host_wait,
  mount_disk, unmount_disk, print_byte, print_flush,
}
use drivewire_rs.Server.Session.{
  World, ServerError, and_then, ◌>>=◌, gets, receive, send, lift_io, at,
}
use drivewire_rs.Server.Session.Laws.{receive_enough, receive_short}
use drivewire_rs.Server.Handlers.Bytes.{
  IsTyped, IsTypedWorld, calendar, poll-IsBytes, read_many-IsBytes,
}
use drivewire_rs.Server.Handlers.Keeps.{rewired, Typed-send}
use drivewire_rs.Server.Run.{receive_opcode, head_result}
use drivewire_rs.Server.Sessions.{BringsBytes}
use drivewire_rs.Server.Sessions.Sound.{perform-IsTyped}
use drivewire_rs.Control.Status.{IsDistinct, perform-IsDistinct}
use drivewire_rs.Server.Awaits.{
  Program, stop, fetching, receiving, sending, looking, reading, writing, locking, timing, answer,
  locked, write_disk, await,
}
use drivewire_rs.Server.Awaits.Typed.{Expects, body-Expects}

-- What an action gave, if it gave something.
abbrev Gives : {A : Type 0} → (A → Type 0) → Result ServerError A → Type 0
Gives P (ok a) = P a
Gives P (err e) = Unit

-- The outcome of an action in a world of bytes, with one disk to a slot.
pub record Leaves {A : Type 0} (P : A → Type 0) (r : Result ServerError A × World) : Type 0 where
  pub gives : Gives P r.0
  pub typed : IsTypedWorld r.1
  pub distinct : IsDistinct r.1.server.drives

then-Leaves :
    {A : Type 0} (P : A → Type 0) (k : A → Program) (r : Result ServerError A × World)
    → Leaves P r
    → ((a : A) → P a → Expects (k a))
    → Leaves Expects (and_then (λ a. gets (λ _. k a)) r)
unfolding and_then gets
then-Leaves P k (ok a, w) l h = record {
  gives = h a l.gives;
  typed = l.typed;
  distinct = l.distinct;
}
then-Leaves P k (err e, w) l h = record { gives = tt; typed = l.typed; distinct = l.distinct }

Gives-unit : (r : Result ServerError (Unit {0})) → Gives (λ _. Unit {0}) r
Gives-unit (ok a) = tt
Gives-unit (err e) = tt

-- A read or a write of the stream leaves the drives.
lift-IsDistinct :
    {A : Type 0} (w : World) (r : Result IoKind A × Wire)
    → IsDistinct w.server.drives
    → IsDistinct (lift_io w r).1.server.drives
unfolding lift_io
lift-IsDistinct w (ok a, wire) d = d
lift-IsDistinct w (err e, wire) d = d

answer-IsBytes : (a : Action) (s : Server) → IsTyped s → IsBytes (answer a s)
unfolding answer
answer-IsBytes poll_one s t =
    (poll-IsBytes 0 s.vserial_outbox (omega (arith, t.valid.outboxes)) t.outboxes).0
answer-IsBytes (poll_many c n) s t = (read_many-IsBytes c n s.vserial_outbox t.outboxes).0
answer-IsBytes (write c b) s t = tt
answer-IsBytes (write_many c bs) s t = tt
answer-IsBytes (open_channel c flag) s t = tt
answer-IsBytes (host_send c bs) s t = tt
answer-IsBytes (host_drain c) s t = tt
answer-IsBytes (host_wait c) s t = tt
answer-IsBytes (mount_disk slot d) s t = tt
answer-IsBytes (unmount_disk slot) s t = tt
answer-IsBytes (print_byte b) s t = tt
answer-IsBytes print_flush s t = tt

head-Leaves :
    (r : Result ServerError (List ℕ) × World) → Leaves IsBytes r → Leaves IsBytes (head_result r)
unfolding head_result
head-Leaves (ok b, w) l = l
head-Leaves (err e, w) l = record { gives = tt; typed = l.typed; distinct = l.distinct }

-- An await in a world of bytes, with one disk to a slot.
module _ (w : World) (t : IsTypedWorld w) (d : IsDistinct w.server.drives) where
  receive-Leaves : (n : ℕ) → Leaves IsBytes (receive n w)
  receive-Leaves n = elim (dec_le n (length w.wire.input)) [
    | yes h ↦ rw (receive_enough n w h) (record {
      gives = take-All IsByte n w.wire.input t.input;
      typed = rewired w _ _ _ t (drop-All IsByte n w.wire.input t.input) t.output;
      distinct = d;
    })
    | no h ↦
        rw (receive_short n w (omega arith))
          (record { gives = tt; typed = rewired w _ _ _ t tt t.output; distinct = d })
  ]

  send-Leaves : (bytes : List ℕ) → IsBytes bytes → Leaves (λ _. Unit {0}) (send bytes w)
  unfolding send
  send-Leaves bytes h = record {
    gives = Gives-unit (send bytes w).0;
    typed = (Typed-send bytes h).keeps w t;
    distinct = lift-IsDistinct w (write_all bytes w.wire) d;
  }

  locked-Leaves : (a : Action) → BringsBytes a → Leaves IsBytes (locked a w)
  unfolding locked
  locked-Leaves a h = record {
    gives = answer-IsBytes a w.server t.server;
    typed = record {
      server = perform-IsTyped a w.server h t.server;
      files = t.files;
      input = t.input;
      output = t.output;
      clock = t.clock;
    };
    distinct = perform-IsDistinct a w.server d;
  }

  write_disk-Leaves :
      (disk : DskFile) (lsn : Lsn) (sector : Sector)
      → IsBytes sector
      → Leaves (λ _. Unit {0}) (write_disk disk lsn sector w)
  unfolding write_disk
  write_disk-Leaves disk lsn sector h = record {
    gives = tt;
    typed = record {
      server = t.server;
      files = write-AreBytes disk lsn sector w.files t.files h;
      input = t.input;
      output = t.output;
      clock = t.clock;
    };
    distinct = d;
  }

  gets-Leaves : {A : Type 0} (P : A → Type 0) (f : World → A) → P (f w) → Leaves P (gets f w)
  unfolding gets
  gets-Leaves P f h = record { gives = h; typed = t; distinct = d }

  -- Whatever the next await of a program that keeps to bytes is.
  pub await-Leaves : (p : Program) → Expects p → Leaves Expects (await p w)
  unfolding await ◌>>=◌ receive_opcode
  await-Leaves stop h = gets-Leaves Expects _ (λ bytes k. body-Expects (from_byte (at bytes 0)))
  await-Leaves (fetching k) h =
      then-Leaves IsBytes k _ (head-Leaves (receive 1 w) (receive-Leaves 1)) h
  await-Leaves (receiving n k) h = then-Leaves IsBytes k _ (receive-Leaves n) h
  await-Leaves (sending bytes p) h =
      then-Leaves (λ _. Unit) (λ _. p) _ (send-Leaves bytes h.0) (λ _ _. h.1)
  await-Leaves (looking slot k) h =
      then-Leaves (λ _. Unit) k _ (gets-Leaves (λ _. Unit) _ tt) (λ found _. h found)
  await-Leaves (reading disk lsn k) h =
      then-Leaves SectorIsBytes k _
        (gets-Leaves SectorIsBytes _ (read-IsBytes disk lsn w.files t.files)) h
  await-Leaves (writing disk lsn sector k) h =
      then-Leaves (λ _. Unit) k _ (write_disk-Leaves disk lsn sector h.0) (λ r _. h.1 r)
  await-Leaves (locking a k) h = then-Leaves IsBytes k _ (locked-Leaves a h.0) h.1
  await-Leaves (timing k) h =
      then-Leaves (λ m. IsBytes (calendar m)) k _
        (gets-Leaves (λ m. IsBytes (calendar m)) _ t.clock) h
