-- ===== src/Server/Sessions/Shared.antt =====
-- Two guests on one disk: what one writes the other reads.
use drivewire_rs.Prelude.{
  ℕ, ◌<◌, ◌≡◌, ◌≢◌, ◌∙◌, sym, ap, false, Option, none, some, List, [], ◌∷◌, ◌++◌, get_or, set,
  length, arith,
}
use drivewire_rs.Prelude.Lists.{get_or-set_self, get_or-set_ne, length-set}
use drivewire_rs.Io.{Wire, steady}
use drivewire_rs.Proto.Checksum.{checksum16}
use drivewire_rs.Proto.Lsn.{from_be3}
use drivewire_rs.Vdisk.{DskFile, Sector, sector_size}
use drivewire_rs.Server.Session.{from_be2, to_be2}
use drivewire_rs.Server.Handlers.{served, store}
use drivewire_rs.Server.Handlers.Disk.{write_frame}
use drivewire_rs.Server.Run.RoundTrip.{
  Holds, seen, write_turn, read_turn, stored_status, served-store,
}
use drivewire_rs.Server.Sessions.{Guests, world_of, settle, turn_at, turn_of}

-- A session that is there, with these bytes to read.
abbrev pub sends : List ℕ → Wire → Option Wire
sends xs wire = some (record wire { input = xs })

-- A session that has read these bytes and been replied.
abbrev pub replied : List ℕ → List ℕ → Wire → Option Wire
replied rest reply wire = some (record wire { input = rest; output = wire.output ++ reply })

module _ (slot b0 b1 b2 hi lo slot' c0 c1 c2 : ℕ) (sector : Sector) (rest more : List ℕ)
    (d e : DskFile) (i j : ℕ) (writer reader : Wire) (g : Guests) where
  -- Of two sessions on peers that take every byte, if one has an OP_WRITE of a sector with its
  -- checksum to a mounted writable image to read, and the other an OP_READ of any sector of any
  -- mounted image: after a turn of the first and one of the second, the first has been answered 0,
  -- and the second with the written sector where it is that sector of that file, through whichever
  -- slot, and else with what was served before, and its checksum.
  pub read_after_guest :
      i ≢ j
      → i < length g.sessions
      → j < length g.sessions
      → get_or g.sessions i none ≡ sends (0x57 ∷ write_frame slot b0 b1 b2 sector hi lo rest) writer
      → get_or g.sessions j none ≡ sends (0x52 ∷ slot' ∷ c0 ∷ c1 ∷ c2 ∷ more) reader
      → writer.sink ≡ steady
      → reader.sink ≡ steady
      → Holds g.server.drives g.files slot d (from_be3 b0 b1 b2)
      → Holds g.server.drives g.files slot' e (from_be3 c0 c1 c2)
      → d.read_only ≡ false
      → length sector ≡ sector_size
      → from_be2 hi lo ≡ checksum16 sector
      → let after = turn_of j (turn_of i g) in
        let x = seen d (from_be3 b0 b1 b2) sector slot' e (from_be3 c0 c1 c2) (world_of g reader) in
        (get_or after.sessions i none ≡ replied rest (0 ∷ []) writer)
        × (get_or after.sessions j none ≡ replied more (x ++ to_be2 (checksum16 x)) reader)
  unfolding turn_of
  read_after_guest ne li lj wi wj si sj hd he writable n c =
      let l = from_be3 b0 b1 b2 in
      let k = from_be3 c0 c1 c2 in
      let drives = g.server.drives in
      let (status, files) = store drives g.files slot l sector in
      let mid : Guests = record {
        server = g.server;
        files = files;
        clock = g.clock;
        sessions = set g.sessions i (replied rest (status ∷ []) writer);
      } in
      let first : turn_of i g ≡ mid =
        ap (turn_at i g) wi
        ∙ ap (settle i g) (write_turn slot b0 b1 b2 hi lo sector rest (world_of g writer) n si c) in
      let there : get_or mid.sessions j none ≡ sends (0x52 ∷ slot' ∷ c0 ∷ c1 ∷ c2 ∷ more) reader =
        get_or-set_ne g.sessions i j _ none ne ∙ wj in
      let y = served drives files slot' k in
      let second : turn_of j mid ≡ record mid {
        sessions = set mid.sessions j (replied more (y ++ to_be2 (checksum16 y)) reader);
      } =
        ap (turn_at j mid) there
        ∙ ap (settle j mid) (read_turn slot' c0 c1 c2 more (world_of mid reader) sj) in
      let whole = ap (turn_of j) first ∙ second in
      (
        ap (λ h. get_or h.sessions i none) whole
            ∙ get_or-set_ne mid.sessions j i _ none (λ q. ne (sym q))
            ∙ get_or-set_self g.sessions i _ none li
            ∙ ap (λ a. replied rest (a ∷ []) writer)
                (stored_status drives g.files slot slot' d e l k sector hd he writable n),
        ap (λ h. get_or h.sessions j none) whole
            ∙ get_or-set_self mid.sessions j _ none
                (omega (arith, length-set g.sessions i (replied rest (status ∷ []) writer)))
            ∙ ap (λ y. replied more (y ++ to_be2 (checksum16 y)) reader)
                (served-store drives g.files slot slot' d e l k sector hd he writable n),
      )
