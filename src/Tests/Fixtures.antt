-- ===== src/Tests/Fixtures.antt =====
-- A server with one image of two sectors, mounted in slots 0 and 1.
use drivewire_rs.Prelude.{false, none, [], ◌∷◌, replicate}
use drivewire_rs.Prelude.Int.{pos}
use drivewire_rs.Io.{Wire, unexpected_eof, steady}
use drivewire_rs.Vdisk.{DskFile, Files, Sector}
use drivewire_rs.Server.State.{Server, new}
use drivewire_rs.Server.Session.{World, Clock}

abbrev pub image : DskFile
image = record { path = 0x61 ∷ []; file = 0; sector_count = 2; read_only = false }

abbrev pub files : Files
files id = record { bytes = replicate 512 7; fault = none }

abbrev pub server : Server
server = record new { drives = (0, image) ∷ (1, image) ∷ [] }

abbrev pub clock : Clock
clock = record {
  now_local = none;
  now_utc = record { year = pos 2026; month = 2; day = 3; hour = 4; minute = 5; second = 6 };
}

abbrev pub quiet : Wire
quiet = record { input = []; ending = unexpected_eof; sink = steady; output = [] }

abbrev pub world : World
world = record { server = server; files = files; wire = quiet; clock = clock }

abbrev pub ones : Sector
ones = replicate 256 1
