-- ===== src/Server/Run/RoundTrip.antt =====
-- A sector written over the wire is what a later command reads back, through any slot.
use drivewire_rs.Prelude.{
  ℕ, ◌<◌, ◌≡◌, ◌≢◌, ap, ◌∙◌, sym, List, [], ◌∷◌, ◌++◌, arith, false, some, ok, ◌==◌, ==_iff, ◌&&◌,
  if◌then◌else◌, length,
}
use drivewire_rs.Io.{steady}
use drivewire_rs.Proto.Checksum.{checksum16, checksum16_detects}
use drivewire_rs.Proto.ErrorCode
use drivewire_rs.Proto.ErrorCode.{DwError}
use drivewire_rs.Proto.Opcode.{from_byte, try_from}
use drivewire_rs.Proto.Lsn.{Lsn, from_be3}
use drivewire_rs.Vdisk
use drivewire_rs.Vdisk.{DskFile, Sector, Files, sector_size}
use drivewire_rs.Vdisk.Laws.{IsOpen, stored, read_lem, read-write, write_in_range}
use drivewire_rs.Server.State.{Drives, get}
use drivewire_rs.Server.Session.{World, from_be2, to_be2}
use drivewire_rs.Server.Session.Laws.{sent, fed}
use drivewire_rs.Server.Handlers.{served, store}
use drivewire_rs.Server.Handlers.Disk.{handle_read_lem, handle_write_lem, write_frame}
use drivewire_rs.Server.Run.{dispatch, handle_op, turn}
use drivewire_rs.Server.Run.Framing.{turn-fed}

-- A mounted image that holds the sector.
pub record Holds (drives : Drives) (files : Files) (slot : ℕ) (d : DskFile) (l : Lsn) : Type 0 where
  pub mounted : get slot drives ≡ some d
  pub image : IsOpen d files
  pub in_range : l.value < d.sector_count

pub served_lem :
    (drives : Drives) (files : Files) (slot : ℕ) (d : DskFile) (l : Lsn)
    → Holds drives files slot d l
    → served drives files slot l ≡ stored (files d.file) l.value
unfolding served
served_lem drives files slot d l h =
    ground (arith, h.mounted, h.in_range, read_lem d l files h.image)

module _ (drives : Drives) (files : Files) (slot slot' : ℕ) (d e : DskFile) (l k : Lsn)
    (sector : Sector) (hd : Holds drives files slot d l) (he : Holds drives files slot' e k)
    (writable : d.read_only ≡ false) (n : length sector ≡ sector_size) where
  pub stored_status : (store drives files slot l sector).0 ≡ 0
  unfolding store
  stored_status =
      ground (arith, hd.mounted, write_in_range d l sector files hd.image writable hd.in_range)

  stored_files : (store drives files slot l sector).1 ≡ (Vdisk.write d l sector files).1
  unfolding store
  stored_files = ground (arith, hd.mounted)

  -- What the other slot serves after the store.
  pub served-store :
      served drives (store drives files slot l sector).1 slot' k
      ≡ (if d.file == e.file && l.value == k.value then sector else served drives files slot' k)
  unfolding served
  served-store = ground (
    arith,
    stored_files,
    he.mounted,
    he.in_range,
    read-write d e l k sector files hd.image he.image writable hd.in_range n,
    read_lem e k files he.image,
  )

pub write_turn :
    (slot b0 b1 b2 hi lo : ℕ) (sector : Sector) (rest : List ℕ) (w : World)
    → length sector ≡ sector_size
    → w.wire.sink ≡ steady
    → from_be2 hi lo ≡ checksum16 sector
    → let (status, files) = store w.server.drives w.files slot (from_be3 b0 b1 b2) sector in
      turn (fed (0x57 ∷ write_frame slot b0 b1 b2 sector hi lo rest) w)
      ≡ (ok tt, sent (status ∷ []) (record (fed rest w) { files = files }))
unfolding dispatch handle_op from_byte try_from
write_turn slot b0 b1 b2 hi lo sector rest w n s c =
    turn-fed 0x57 (write_frame slot b0 b1 b2 sector hi lo rest) w
    ∙ handle_write_lem slot b0 b1 b2 hi lo sector rest w n s
    ∙ rw ((==_iff _ _).1 c)

pub read_turn :
    (slot b0 b1 b2 : ℕ) (rest : List ℕ) (w : World)
    → w.wire.sink ≡ steady
    → let sector = served w.server.drives w.files slot (from_be3 b0 b1 b2) in
      turn (fed (0x52 ∷ slot ∷ b0 ∷ b1 ∷ b2 ∷ rest) w)
      ≡ (ok tt, sent (sector ++ to_be2 (checksum16 sector)) (fed rest w))
unfolding dispatch handle_op from_byte try_from
read_turn slot b0 b1 b2 rest w s =
    turn-fed 0x52 (slot ∷ b0 ∷ b1 ∷ b2 ∷ rest) w ∙ handle_read_lem slot b0 b1 b2 w s rest

-- The world after OP_WRITE of a sector.
abbrev pub after_write : ℕ → ℕ → ℕ → ℕ → Sector → ℕ → ℕ → List ℕ → World → World
after_write slot b0 b1 b2 sector hi lo rest w =
    (turn (fed (0x57 ∷ write_frame slot b0 b1 b2 sector hi lo rest) w)).1

-- What a slot is to serve of sector `k` of its image `e`, after the write of sector `l` to the image `d`.
abbrev pub seen : DskFile → Lsn → Sector → ℕ → DskFile → Lsn → World → Sector
seen d l sector slot' e k w =
    if d.file == e.file && l.value == k.value
    then sector
    else served w.server.drives w.files slot' k

module _ (slot b0 b1 b2 hi lo slot' c0 c1 c2 : ℕ) (sector : Sector) (rest more : List ℕ)
    (d e : DskFile) (w : World) where
  -- On a peer that takes every byte, OP_WRITE of a sector with its checksum to a mounted writable
  -- image answers 0, and a following OP_READ of any sector of any mounted image answers with the
  -- written sector where it is that sector of that file, through whichever slot, and else with what
  -- was served before, each with its checksum.
  pub read_after_write :
      w.wire.sink ≡ steady
      → Holds w.server.drives w.files slot d (from_be3 b0 b1 b2)
      → Holds w.server.drives w.files slot' e (from_be3 c0 c1 c2)
      → d.read_only ≡ false
      → length sector ≡ sector_size
      → from_be2 hi lo ≡ checksum16 sector
      → let w' = after_write slot b0 b1 b2 sector hi lo rest w in
        let answer = seen d (from_be3 b0 b1 b2) sector slot' e (from_be3 c0 c1 c2) w in
        (w'.wire.output ≡ w.wire.output ++ (0 ∷ []))
        × (turn (fed (0x52 ∷ slot' ∷ c0 ∷ c1 ∷ c2 ∷ more) w')
            ≡ (ok tt, sent (answer ++ to_be2 (checksum16 answer)) (fed more w')))
  read_after_write s hd he writable n c =
      let l = from_be3 b0 b1 b2 in
      let k = from_be3 c0 c1 c2 in
      let drives = w.server.drives in
      let x = seen d l sector slot' e k w in
      let (status, files) = store drives w.files slot l sector in
      let next = sent (status ∷ []) (record (fed rest w) { files = files }) in
      let p = ap (λ r. r.1) (write_turn slot b0 b1 b2 hi lo sector rest w n s c) in
      (
        ap (λ v. v.wire.output) p
            ∙ ap (λ a. w.wire.output ++ (a ∷ []))
                (stored_status drives w.files slot slot' d e l k sector hd he writable n),
        ap (λ v. turn (fed (0x52 ∷ slot' ∷ c0 ∷ c1 ∷ c2 ∷ more) v)) p
            ∙ read_turn slot' c0 c1 c2 more next s
            ∙ ap (λ y. (ok tt, sent (y ++ to_be2 (checksum16 y)) (fed more next)))
                (served-store drives w.files slot slot' d e l k sector hd he writable n)
            ∙ ap (λ v. (ok tt, sent (x ++ to_be2 (checksum16 x)) (fed more v))) (sym p),
      )

module _ (slot b0 b1 b2 hi lo x y : ℕ) (front back : List ℕ) (rest : List ℕ) (w : World) where
  -- On a peer that takes every byte, OP_WRITE of a sector with one byte changed and the checksum of
  -- the unchanged sector answers E$CRC, and changes no file and no state of the server.
  pub corruption_refused :
      w.wire.sink ≡ steady
      → length (front ++ (y ∷ back)) ≡ sector_size
      → x < 256
      → y < 256
      → x ≢ y
      → from_be2 hi lo ≡ checksum16 (front ++ (x ∷ back))
      → turn (fed (0x57 ∷ write_frame slot b0 b1 b2 (front ++ (y ∷ back)) hi lo rest) w)
        ≡ (ok tt, sent (0xf3 ∷ []) (fed rest w))
  unfolding dispatch handle_op from_byte try_from ErrorCode.to_byte
  corruption_refused s n hx hy ne c =
      let differ : (from_be2 hi lo == checksum16 (front ++ (y ∷ back))) ≡ false =
        ground (arith, c, checksum16_detects front back x y hx hy ne) in
      turn-fed 0x57 (write_frame slot b0 b1 b2 (front ++ (y ∷ back)) hi lo rest) w
      ∙ handle_write_lem slot b0 b1 b2 hi lo (front ++ (y ∷ back)) rest w n s
      ∙ rw differ
