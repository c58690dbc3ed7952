-- ===== src/Io/Reads.antt =====
-- What the calls of `read` on a stream return, one after the other: bytes, `none` for an error, and no
-- bytes for the end.
use drivewire_rs.Prelude.{ℕ, Option, none, some, List, [], ◌∷◌, ◌++◌}

abbrev pub Reads : Type 0
Reads = List (Option (List ℕ))

-- The bytes that they bring, up to the first error or end.
abbrev pub brought : Reads → List ℕ
brought [] = []
brought (none ∷ reads) = []
brought (some [] ∷ reads) = []
brought (some (b ∷ bytes) ∷ reads) = b ∷ (bytes ++ brought reads)
