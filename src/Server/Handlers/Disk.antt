-- ===== src/Server/Handlers/Disk.antt =====
-- What READ, READEX and WRITE answer, and what they leave on the disks.
use mathlib.Core.List.{append_assoc}
use drivewire_rs.Prelude.{
  ℕ, ◌≡◌, ap, ◌∙◌, List, [], ◌∷◌, ◌++◌, arith, true, false, Bool-cases, inl, inr, ok, ◌==◌,
  if◌then◌else◌, length,
}
use drivewire_rs.Prelude.Lists.{take-length-append, drop-length-append, length-append}
use drivewire_rs.Io.{steady}
use drivewire_rs.Proto.Checksum.{checksum16}
use drivewire_rs.Proto.ErrorCode
use drivewire_rs.Proto.ErrorCode.{DwError}
use drivewire_rs.Proto.Lsn.{from_be3}
use drivewire_rs.Vdisk.{Sector, Files, sector_size}
use drivewire_rs.Server.Session.{World, Session, ◌>>=◌, gets, receive, send, from_be2, to_be2}
use drivewire_rs.Server.Session.Laws.{bind_of_ok, bind-receive_enough, send_steady, sent, fed}
use drivewire_rs.Server.Handlers.{
  handle_read, read_reply, handle_write, served, store, store_sector, handshake,
}

bind-send {κ} :
    {B : Type κ} (bytes : List ℕ) (f : Unit {0} → Session B) (w : World)
    → w.wire.sink ≡ steady
    → (send bytes >>= f) w ≡ f tt (sent bytes w)
bind-send bytes f w s = bind_of_ok (send bytes) f w (send_steady bytes w s)

-- Two writes are one.
sent-sent : (xs ys : List ℕ) (w : World) → sent ys (sent xs w) ≡ sent (xs ++ ys) w
sent-sent xs ys w =
    ap (λ out. record w { wire = record w.wire { output = out } })
      (append_assoc w.wire.output xs ys)

-- The sector that a READ with this header serves.
abbrev pub asked : ℕ → ℕ → ℕ → ℕ → World → Sector
asked slot b0 b1 b2 w = served w.server.drives w.files slot (from_be3 b0 b1 b2)

module _ (slot b0 b1 b2 : ℕ) (w : World) (s : w.wire.sink ≡ steady) where
  -- On a peer that takes every byte, OP_READ answers with the served sector and its checksum, high
  -- byte first.
  pub handle_read_lem :
      (rest : List ℕ)
      → handle_read false (fed (slot ∷ b0 ∷ b1 ∷ b2 ∷ rest) w) ≡ (
          let sector = asked slot b0 b1 b2 w in
          (ok tt, sent (sector ++ to_be2 (checksum16 sector)) (fed rest w)))
  unfolding handle_read read_reply gets ◌>>=◌
  handle_read_lem rest =
      let sector = asked slot b0 b1 b2 w in
      bind-receive_enough 4 _ (fed (slot ∷ b0 ∷ b1 ∷ b2 ∷ rest) w) (omega arith)
      ∙ bind-send sector _ (fed rest w) s
      ∙ send_steady _ (sent sector (fed rest w)) s
      ∙ ap (λ v. (ok tt, v)) (sent-sent sector (to_be2 (checksum16 sector)) (fed rest w))

  -- On a peer that takes every byte, OP_READEX sends the served sector, takes the guest's checksum
  -- and answers 0 if it is the sector's and E$CRC if it is not.
  pub handle_read_ex_lem :
      (hi lo : ℕ) (rest : List ℕ)
      → handle_read true (fed (slot ∷ b0 ∷ b1 ∷ b2 ∷ hi ∷ lo ∷ rest) w) ≡ (
          let sector = asked slot b0 b1 b2 w in
          (
            ok tt,
            sent (sector ++ (handshake (from_be2 hi lo) (checksum16 sector) ∷ [])) (fed rest w),
          ))
  unfolding handle_read read_reply gets ◌>>=◌
  handle_read_ex_lem hi lo rest =
      let sector = asked slot b0 b1 b2 w in
      bind-receive_enough 4 _ (fed (slot ∷ b0 ∷ b1 ∷ b2 ∷ hi ∷ lo ∷ rest) w) (omega arith)
      ∙ bind-send sector _ (fed (hi ∷ lo ∷ rest) w) s
      ∙ bind-receive_enough 2 _ (sent sector (fed (hi ∷ lo ∷ rest) w)) (omega arith)
      ∙ send_steady _ (sent sector (fed rest w)) s
      ∙ ap (λ v. (ok tt, v))
          (sent-sent sector (handshake (from_be2 hi lo) (checksum16 sector) ∷ []) (fed rest w))

pub bind-receive_bytes {κ} :
    {B : Type κ} (n : ℕ) (bytes rest : List ℕ) (f : List ℕ → Session B) (w : World)
    → length bytes ≡ n
    → (receive n >>= f) (fed (bytes ++ rest) w) ≡ f bytes (fed rest w)
bind-receive_bytes n bytes rest f w h =
    bind-receive_enough n f (fed (bytes ++ rest) w) (omega (arith, length-append bytes rest))
    ∙ rw (← h, take-length-append bytes rest, drop-length-append bytes rest)

-- A WRITE frame behind its opcode: header, sector, checksum.
abbrev pub write_frame : ℕ → ℕ → ℕ → ℕ → Sector → ℕ → ℕ → List ℕ → List ℕ
write_frame slot b0 b1 b2 sector hi lo rest = slot ∷ b0 ∷ b1 ∷ b2 ∷ (sector ++ (hi ∷ lo ∷ rest))

-- What the store of this sector answers, and the files behind it.
abbrev pub answer : ℕ → ℕ → ℕ → ℕ → Sector → World → ℕ × Files
answer slot b0 b1 b2 sector w = store w.server.drives w.files slot (from_be3 b0 b1 b2) sector

module _ (slot b0 b1 b2 hi lo : ℕ) (sector : Sector) (rest : List ℕ) (w : World)
    (n : length sector ≡ sector_size) (s : w.wire.sink ≡ steady) where
  -- On a peer that takes every byte, OP_WRITE of a whole sector with the right checksum answers with
  -- the disk's status and leaves the disk's files, and with any other checksum answers E$CRC and
  -- changes only the stream.
  pub handle_write_lem : handle_write (fed (write_frame slot b0 b1 b2 sector hi lo rest) w) ≡ (
      if from_be2 hi lo == checksum16 sector
      then (
        ok tt,
        sent
            ((answer slot b0 b1 b2 sector w).0 ∷ [])
            (record (fed rest w) { files = (answer slot b0 b1 b2 sector w).1 }),
      )
      else (ok tt, sent (ErrorCode.to_byte DwError.crc ∷ []) (fed rest w)))
  unfolding handle_write store_sector ◌>>=◌
  handle_write_lem =
      bind-receive_enough 4 _ (fed (write_frame slot b0 b1 b2 sector hi lo rest) w) (omega arith)
      ∙ bind-receive_bytes 256 sector (hi ∷ lo ∷ rest) _ w n
      ∙ bind-receive_enough 2 _ (fed (hi ∷ lo ∷ rest) w) (omega arith)
      ∙ elim (Bool-cases (from_be2 hi lo == checksum16 sector)) [
        | inl e ↦
            rw e
              (send_steady _ (record (fed rest w) { files = (answer slot b0 b1 b2 sector w).1 }) s)
        | inr e ↦ rw e (send_steady _ (fed rest w) s)
      ]
