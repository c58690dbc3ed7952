-- ===== src/Tests/Screen.antt =====
-- The terminal of `dw attach`.
use drivewire_rs.Prelude.{ℕ, ◌≡◌, refl, false, List, [], ◌∷◌, ◌++◌}
use drivewire_rs.Terminal.LineEndings.{normalize_line_endings, held}
use drivewire_rs.Terminal.LineEndings.Laws.{tokens, render, normalize-tokens}

-- "a", three CRs, an LF and "b", as in the tests of main.rs.
abbrev returns : List ℕ
returns = 0x61 ∷ 0x0d ∷ 0x0d ∷ 0x0d ∷ 0x0a ∷ 0x62 ∷ []

multiple_crs :
    normalize_line_endings returns false
    ≡ (0x61 ∷ 0x0d ∷ 0x0a ∷ 0x0d ∷ 0x0a ∷ 0x0d ∷ 0x0a ∷ 0x62 ∷ [], false)
unfolding normalize_line_endings
multiple_crs = refl

normalize-tokens_example :
    let (out, flag) = normalize_line_endings returns false in
    out ++ held flag ≡ render (tokens false returns)
normalize-tokens_example = normalize-tokens returns false

abbrev ended : List ℕ
ended = 0x61 ∷ 0x0d ∷ 0x0a ∷ []
