-- ===== src/Server/Awaits/Stale.antt =====
-- A READ between its lookup of a drive and its read of the disk, while the drive is taken away.
use drivewire_rs.Prelude.{
  ℕ, ◌<◌, ◌≡◌, refl, sym, ap, ◌∙◌, false, none, some, List, ◌∷◌, ◌++◌, ok, get_or, set, length,
  arith,
}
use mathlib.Core.List.{append_assoc}
use drivewire_rs.Prelude.Lists.{get_or-set_self, set-get_or, set-set}
use drivewire_rs.Io.{Wire, steady}
use drivewire_rs.Proto.Checksum.{checksum16}
use drivewire_rs.Proto.Lsn.{from_be3}
use drivewire_rs.Proto.Opcode.{from_byte, try_from}
use drivewire_rs.Vdisk
use drivewire_rs.Vdisk.{DskFile, Files}
use drivewire_rs.Server.State.{get}
use drivewire_rs.Server.Session.{◌>>=◌, and_then, gets, receive, send, to_be2}
use drivewire_rs.Server.Session.Laws.{bind_of_ok, receive_enough, send_steady}
use drivewire_rs.Server.Run.{receive_opcode, head_result}
use drivewire_rs.Server.Awaits.{
  Program, stop, looking, sending, or_zeros, reply_body, read_found, read_body, op_body, body, head,
  await,
}
use drivewire_rs.Server.Awaits.Tasks.{Tasks, seen_by, put_back, poll_at, poll_task, polls}

-- The tasks with session `i` at this place of its program.
abbrev pub at_place : ℕ → Tasks → Program → Wire → Tasks
at_place i t p wire = record t {
  processes = set t.processes i (some (record { rest = p; wire = wire }));
}

module _ (i : ℕ) (t : Tasks) (there : i < length t.processes) where
  -- An await that touches its stream and the files.
  pub poll_written :
      (p p' : Program) (wire wire' : Wire) (files : Files)
      → await p (seen_by t wire) ≡ (ok p', seen_by (record t { files = files }) wire')
      → poll_task i (at_place i t p wire) ≡ at_place i (record t { files = files }) p' wire'
  unfolding poll_task
  poll_written p p' wire wire' files e =
      ap (poll_at i (at_place i t p wire))
        (get_or-set_self t.processes i (some (record { rest = p; wire = wire })) none there)
      ∙ ap (put_back i (at_place i t p wire)) e
      ∙ ap (λ l. record t { files = files; processes = l }) (set-set t.processes i _ _)

  -- One that touches its stream only.
  pub poll_place :
      (p p' : Program) (wire wire' : Wire)
      → await p (seen_by t wire) ≡ (ok p', seen_by t wire')
      → poll_task i (at_place i t p wire) ≡ at_place i t p' wire'
  poll_place p p' wire wire' e = poll_written p p' wire wire' t.files e

-- Tasks in which session `i` stands where it stood in `t`.
pub placed_as :
    (i : ℕ) (t u v : Tasks) (p : Program) (wire : Wire)
    → i < length t.processes
    → v ≡ at_place i t p wire
    → get_or u.processes i none ≡ get_or v.processes i none
    → u ≡ at_place i u p wire
placed_as i t u v p wire there e same =
    ap (λ l. record u { processes = l })
      (sym (set-get_or u.processes i none)
        ∙ ap (set u.processes i) (
            same
            ∙ ap (λ w. get_or w.processes i none) e
            ∙ get_or-set_self t.processes i _ none there))

module _ (i slot b0 b1 b2 : ℕ) (rest : List ℕ) (wire : Wire) (t : Tasks) (d : DskFile) where
  -- The session with an OP_READ of this sector to read, and its stream behind the header.
  abbrev pub asked : Tasks
  asked = at_place i t stop (record wire { input = 0x52 ∷ slot ∷ b0 ∷ b1 ∷ b2 ∷ rest })

  abbrev after_header : Wire
  after_header = record wire { input = rest }

  lookup-polls :
      i < length t.processes
      → get slot t.server.drives ≡ some d
      → polls 4 i asked ≡ at_place i t (read_found false (from_be3 b0 b1 b2) (some d)) after_header
  unfolding polls await gets receive_opcode body from_byte try_from op_body read_body ◌>>=◌ and_then
  lookup-polls there found =
      let framed = record wire { input = 0x52 ∷ slot ∷ b0 ∷ b1 ∷ b2 ∷ rest } in
      let behind = record wire { input = slot ∷ b0 ∷ b1 ∷ b2 ∷ rest } in
      let lookup = looking slot (λ f. read_found false (from_be3 b0 b1 b2) f) in
      ap (polls 3 i) (poll_place i t there stop head framed framed refl)
      ∙ ap (polls 2 i) (
          poll_place i t there head (read_body false) framed behind (
            bind_of_ok receive_opcode _ (seen_by t framed)
              (ap head_result (receive_enough 1 (seen_by t framed) (omega arith)))))
      ∙ ap (polls 1 i) (
          poll_place i t there (read_body false) lookup behind after_header (
            bind_of_ok (receive 4) _ (seen_by t behind)
              (receive_enough 4 (seen_by t behind) (omega arith))))
      ∙ poll_place i t there lookup (read_found false (from_be3 b0 b1 b2) (some d)) after_header
          after_header
          (ap (λ f. (ok (read_found false (from_be3 b0 b1 b2) f), seen_by t after_header)) found)

  -- On a peer that takes every byte, a session that has read the header of an OP_READ and looked up
  -- its drive is answered with the sector of that disk, or zeros if its read fails, and the
  -- checksum, whatever has become of the server, of the other sessions and of the files meanwhile,
  -- also where the slot has been unmounted or has another disk.
  pub read_outlives :
      (u : Tasks)
      → i < length t.processes
      → get slot t.server.drives ≡ some d
      → wire.sink ≡ steady
      → i < length u.processes
      → get_or u.processes i none ≡ get_or (polls 4 i asked).processes i none
      → let sector = or_zeros (Vdisk.read d (from_be3 b0 b1 b2) u.files) in
        polls 3 i u
        ≡ at_place i u stop (record wire {
          input = rest;
          output = wire.output ++ (sector ++ to_be2 (checksum16 sector));
        })
  unfolding polls read_found reply_body await gets ◌>>=◌ and_then
  read_outlives u there found steadily still same =
      let lsn = from_be3 b0 b1 b2 in
      let sector = or_zeros (Vdisk.read d lsn u.files) in
      let p = read_found false lsn (some d) in
      let mid = record wire { input = rest; output = wire.output ++ sector } in
      let last = record wire {
        input = rest;
        output = (wire.output ++ sector) ++ to_be2 (checksum16 sector);
      } in
      let placed =
        placed_as i t u (polls 4 i asked) p after_header there (lookup-polls there found) same in
      ap (polls 3 i) placed
      ∙ ap (polls 2 i) (
          poll_place i u still p (sending sector (reply_body false sector)) after_header
            after_header refl)
      ∙ ap (polls 1 i) (
          poll_place i u still (sending sector (reply_body false sector)) (reply_body false sector)
            after_header mid
            (bind_of_ok (send sector) _ (seen_by u after_header)
              (send_steady sector (seen_by u after_header) steadily)))
      ∙ poll_place i u still (reply_body false sector) stop mid last
          (bind_of_ok (send _) _ (seen_by u mid) (send_steady _ (seen_by u mid) steadily))
      ∙ ap (λ o. at_place i u stop (record wire { input = rest; output = o }))
          (append_assoc wire.output sector (to_be2 (checksum16 sector)))
