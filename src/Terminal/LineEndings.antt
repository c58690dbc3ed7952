-- ===== src/Terminal/LineEndings.antt =====
-- `normalize_line_endings`, and the loop over the socket's chunks that calls it.
pub mod Laws
use mathlib.Core.List.{flatten}
use drivewire_rs.Prelude.{ℕ, Bool, true, false, List, [], ◌∷◌, ◌++◌, ◌==◌, if◌then◌else◌}

abbrev pub cr : ℕ
cr = 0x0d

abbrev pub lf : ℕ
lf = 0x0a

abbrev pub crlf : List ℕ
crlf = cr ∷ lf ∷ []

-- A carriage return that is held back.
abbrev pub held : Bool → List ℕ
held had_cr = if had_cr then crlf else []

-- What one byte adds to the output, and the flag behind it.
unfoldable pub normalize_byte : Bool → ℕ → List ℕ × Bool
normalize_byte had_cr b =
    if b == cr
    then (held had_cr, true)
    else if b == lf
    then (crlf, false)
    else (held had_cr ++ (b ∷ []), false)

-- The output for an input, and the flag for the next call.
unfoldable pub normalize_line_endings : List ℕ → Bool → List ℕ × Bool
unfolding normalize_byte
normalize_line_endings [] had_cr = ([], had_cr)
normalize_line_endings (b ∷ input) had_cr =
    let (out, flag) = normalize_byte had_cr b in
    let (more, flag') = normalize_line_endings input flag in (out ++ more, flag')

-- What the loop shows for the chunks that it reads, with translation.
unfoldable pub shown : List (List ℕ) → Bool → List ℕ
shown [] had_cr = []
shown (chunk ∷ chunks) had_cr =
    let (out, flag) = normalize_line_endings chunk had_cr in out ++ shown chunks flag

-- All that `attach` puts on the terminal; with `raw` the bytes are shown as they are.
unfoldable pub sock_to_stdout : Bool → List (List ℕ) → List ℕ
unfolding shown
sock_to_stdout raw chunks = if raw then flatten chunks else shown chunks false
