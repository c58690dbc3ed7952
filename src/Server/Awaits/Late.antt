-- ===== src/Server/Awaits/Late.antt =====
-- A WRITE between its lookup of a drive and its write to the disk, while the drive is taken away.
use drivewire_rs.Prelude.{
  ℕ, ◌<◌, ◌≡◌, refl, ap, ◌∙◌, none, some, List, [], ◌∷◌, ◌++◌, ok, ◌==◌, ==_iff, get_or, length,
  arith, true,
}
use drivewire_rs.Io.{Wire, steady}
use drivewire_rs.Proto.Checksum.{checksum16}
use drivewire_rs.Proto.Lsn.{from_be3}
use drivewire_rs.Proto.Opcode.{from_byte, try_from}
use drivewire_rs.Vdisk
use drivewire_rs.Vdisk.{DskFile, Sector, sector_size}
use drivewire_rs.Server.State.{get}
use drivewire_rs.Server.Session.{◌>>=◌, and_then, gets, send, from_be2}
use drivewire_rs.Server.Session.Laws.{bind_of_ok, receive_enough, bind-receive_enough, send_steady}
use drivewire_rs.Server.Handlers.{write_status}
use drivewire_rs.Server.Handlers.Disk.{bind-receive_bytes}
use drivewire_rs.Server.Run.{receive_opcode, head_result}
use drivewire_rs.Server.Awaits.{
  Program, stop, looking, receiving, sending, write_found, write_checked, write_body, write_disk,
  op_body, body, head, await,
}
use drivewire_rs.Server.Awaits.Tasks.{Tasks, seen_by, polls}
use drivewire_rs.Server.Awaits.Stale.{at_place, poll_place, poll_written, placed_as}

module _ (i slot b0 b1 b2 hi lo : ℕ) (sector : Sector) (rest : List ℕ) (wire : Wire) (t : Tasks)
    (d : DskFile) where
  abbrev fed_with : List ℕ → Wire
  fed_with xs = record wire { input = xs }

  -- The session with an OP_WRITE of this sector to read.
  abbrev pub to_write : Tasks
  to_write =
      at_place i t stop (fed_with (0x57 ∷ slot ∷ b0 ∷ b1 ∷ b2 ∷ (sector ++ (hi ∷ lo ∷ rest))))

  abbrev header : List ℕ
  header = slot ∷ b0 ∷ b1 ∷ b2 ∷ []

  checksum_right :
      from_be2 hi lo ≡ checksum16 sector
      → write_checked header sector (hi ∷ lo ∷ [])
        ≡ looking slot (λ f. write_found (from_be3 b0 b1 b2) sector f)
  unfolding write_checked
  checksum_right sum =
      let right : (from_be2 hi lo == checksum16 sector) ≡ true = (==_iff _ _).1 sum in rw right refl

  pub write-polls :
      i < length t.processes
      → length sector ≡ sector_size
      → from_be2 hi lo ≡ checksum16 sector
      → get slot t.server.drives ≡ some d
      → polls 6 i to_write
        ≡ at_place i t (write_found (from_be3 b0 b1 b2) sector (some d)) (fed_with rest)
  unfolding polls await gets receive_opcode body from_byte try_from op_body write_body ◌>>=◌
      and_then
  write-polls there n sum found =
      let framed = 0x57 ∷ slot ∷ b0 ∷ b1 ∷ b2 ∷ (sector ++ (hi ∷ lo ∷ rest)) in
      let behind = slot ∷ b0 ∷ b1 ∷ b2 ∷ (sector ++ (hi ∷ lo ∷ rest)) in
      let p5 : Program = receiving 2 (λ c. write_checked header sector c) in
      let p4 = receiving sector_size (λ s. receiving 2 (λ c. write_checked header s c)) in
      let lookup = looking slot (λ f. write_found (from_be3 b0 b1 b2) sector f) in
      ap (polls 5 i) (poll_place i t there stop head (fed_with framed) (fed_with framed) refl)
      ∙ ap (polls 4 i) (
          poll_place i t there head write_body (fed_with framed) (fed_with behind) (
            bind_of_ok receive_opcode _ (seen_by t (fed_with framed))
              (ap head_result (receive_enough 1 (seen_by t (fed_with framed)) (omega arith)))))
      ∙ ap (polls 3 i) (
          poll_place i t there write_body p4 (fed_with behind)
            (fed_with (sector ++ (hi ∷ lo ∷ rest)))
            (bind-receive_enough 4 _ (seen_by t (fed_with behind)) (omega arith)))
      ∙ ap (polls 2 i) (
          poll_place i t there p4 p5 (fed_with (sector ++ (hi ∷ lo ∷ rest)))
            (fed_with (hi ∷ lo ∷ rest))
            (bind-receive_bytes sector_size sector (hi ∷ lo ∷ rest) _ (seen_by t wire) n))
      ∙ ap (polls 1 i) (
          poll_place i t there p5 lookup (fed_with (hi ∷ lo ∷ rest)) (fed_with rest) (
            bind-receive_enough 2 _ (seen_by t (fed_with (hi ∷ lo ∷ rest))) (omega arith)
            ∙ ap (λ p. (ok p, seen_by t (fed_with rest))) (checksum_right sum)))
      ∙ poll_place i t there lookup (write_found (from_be3 b0 b1 b2) sector (some d))
          (fed_with rest) (fed_with rest)
          (ap (λ f. (ok (write_found (from_be3 b0 b1 b2) sector f), seen_by t (fed_with rest)))
            found)

  -- On a peer that takes every byte, a session that has read an OP_WRITE of a sector with its
  -- checksum and looked up its drive writes the sector to that disk and answers with the write's
  -- status, whatever has become of the server, of the other sessions and of the files meanwhile,
  -- also where the slot has been unmounted or has another disk.
  pub write_outlives :
      (u : Tasks)
      → i < length t.processes
      → length sector ≡ sector_size
      → from_be2 hi lo ≡ checksum16 sector
      → get slot t.server.drives ≡ some d
      → wire.sink ≡ steady
      → i < length u.processes
      → get_or u.processes i none ≡ get_or (polls 6 i to_write).processes i none
      → let (r, files) = Vdisk.write d (from_be3 b0 b1 b2) sector u.files in
        polls 2 i u
        ≡ at_place i
            (record u { files = files })
            stop
            (record wire { input = rest; output = wire.output ++ (write_status r ∷ []) })
  unfolding polls write_found await write_disk ◌>>=◌ and_then gets
  write_outlives u there n sum found steadily still same =
      let lsn = from_be3 b0 b1 b2 in
      let (r, files) = Vdisk.write d lsn sector u.files in
      let p = write_found lsn sector (some d) in
      let reply : Program = sending (write_status r ∷ []) stop in
      let written = record u { files = files } in
      let placed =
        placed_as i t u (polls 6 i to_write) p (fed_with rest) there (write-polls there n sum found)
          same in
      ap (polls 2 i) placed
      ∙ ap (polls 1 i) (poll_written i u still p reply (fed_with rest) (fed_with rest) files refl)
      ∙ poll_place i written still reply stop (fed_with rest)
          (record wire { input = rest; output = wire.output ++ (write_status r ∷ []) })
          (bind_of_ok (send _) _ (seen_by written (fed_with rest))
            (send_steady _ (seen_by written (fed_with rest)) steadily))
