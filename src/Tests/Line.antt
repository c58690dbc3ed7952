-- ===== src/Tests/Line.antt =====
-- The serial line on concrete reads and writes.
use drivewire_rs.Prelude.{ℕ, ◌≡◌, some, Option, List, [], ◌∷◌, arith}
use drivewire_rs.Io.{unexpected_eof}
use drivewire_rs.Serial.{opened, poll_reads}
use drivewire_rs.Serial.Laws.{poll_reads-opened}

abbrev line_reads : List (Option (List ℕ))
line_reads = some (1 ∷ 2 ∷ 3 ∷ []) ∷ some (4 ∷ []) ∷ some [] ∷ []

abbrev rooms : List ℕ
rooms = 2 ∷ 2 ∷ 9 ∷ 1 ∷ 1 ∷ []

poll_reads-opened_example :
    let (bytes, failure, last) = poll_reads rooms (opened line_reads) in
    (bytes ≡ 1 ∷ 2 ∷ 3 ∷ 4 ∷ []) × (failure ≡ some unexpected_eof)
poll_reads-opened_example =
    poll_reads-opened line_reads rooms
      (omega arith, (omega arith, (omega arith, (omega arith, (omega arith, tt))))) (omega arith)
