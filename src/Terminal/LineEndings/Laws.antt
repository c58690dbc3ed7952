-- ===== src/Terminal/LineEndings/Laws.antt =====
-- The terminal gets CR LF for every line end, however the input is cut into chunks.
use mathlib.Core.List.{append_assoc, flatten}
use drivewire_rs.Prelude.{
  ℕ, ◌≡◌, ◌≢◌, refl, sym, ap, Bool, true, false, Bool-cases, inl, inr, List, [], ◌∷◌, ◌++◌, ◌==◌,
  if◌then◌else◌, arith,
}
use drivewire_rs.Terminal.LineEndings.{cr, lf, held, normalize_byte, normalize_line_endings, shown}

-- An input cut in two gives the same output and flag.
normalize-append :
    (xs ys : List ℕ) (h : Bool)
    → normalize_line_endings (xs ++ ys) h ≡ (
        let (out, flag) = normalize_line_endings xs h in
        let (more, flag') = normalize_line_endings ys flag in (out ++ more, flag'))
unfolding normalize_line_endings
normalize-append [] ys h = refl
normalize-append (b ∷ xs) ys h =
    let (out, flag) = normalize_byte h b in
    rw (normalize-append xs ys flag) (
      ap (λ zs. (zs, (normalize_line_endings ys (normalize_line_endings xs flag).1).1))
        (sym (append_assoc out _ _)))

-- However the guest's bytes are cut into chunks, the terminal shows what normalize_line_endings
-- gives for all of them at once.
pub shown-flatten :
    (chunks : List (List ℕ)) (h : Bool)
    → shown chunks h ≡ (normalize_line_endings (flatten chunks) h).0
unfolding shown flatten
shown-flatten [] h = unfold normalize_line_endings in refl
shown-flatten (chunk ∷ chunks) h = rw (
  normalize-append chunk (flatten chunks) h,
  shown-flatten chunks (normalize_line_endings chunk h).1,
)

-- Text in which each CR stands before an LF and each LF behind a CR; `after`: a CR was the last byte.
abbrev pub IsRaw : Bool → List ℕ → Type 0
IsRaw true [] = ⊥
IsRaw true (b ∷ xs) = (b ≡ lf) × IsRaw false xs
IsRaw false [] = Unit
IsRaw false (b ∷ xs) = (b ≢ lf) × IsRaw (b == cr) xs

-- The lines and characters that a terminal is to show: CR LF, a lone CR and a lone LF each end a line.
pub data Token : Type 0 where
  newline : Token
  char : ℕ → Token

unfoldable pub tokens : Bool → List ℕ → List Token
tokens true [] = newline ∷ []
tokens false [] = []
tokens true (b ∷ xs) =
    let rest = tokens false xs in
    let again = tokens true xs in
    if b == lf then newline ∷ rest else if b == cr then newline ∷ again else newline ∷ char b ∷ rest
tokens false (b ∷ xs) =
    let rest = tokens false xs in
    let held = tokens true xs in
    if b == cr then held else if b == lf then newline ∷ rest else char b ∷ rest

unfoldable pub render : List Token → List ℕ
render [] = []
render (newline ∷ ts) = cr ∷ lf ∷ render ts
render (char b ∷ ts) = b ∷ render ts

-- The output of normalize_line_endings, with the CR LF of a carriage return still held back, is the
-- rendering of the input's lines and characters, where CR LF, a lone CR and a lone LF each end a
-- line.
pub normalize-tokens :
    (xs : List ℕ) (h : Bool)
    → let (out, flag) = normalize_line_endings xs h in out ++ held flag ≡ render (tokens h xs)
unfolding normalize_line_endings normalize_byte render tokens
normalize-tokens [] true = refl
normalize-tokens [] false = refl
normalize-tokens (b ∷ xs) true = ground (arith, normalize-tokens xs true, normalize-tokens xs false)
normalize-tokens (b ∷ xs) false =
    ground (arith, normalize-tokens xs true, normalize-tokens xs false)

-- Whatever the input and the flag, in the output of normalize_line_endings each CR stands before an
-- LF and each LF behind a CR.
normalize-IsRaw : (xs : List ℕ) (h : Bool) → IsRaw false (normalize_line_endings xs h).0
unfolding normalize_line_endings normalize_byte
normalize-IsRaw [] h = tt
normalize-IsRaw (b ∷ xs) h = elim (Bool-cases (b == cr)) [
  | inl p ↦ rw p (held_IsRaw h _ (normalize-IsRaw xs true))
  | inr p ↦ elim (Bool-cases (b == lf)) [
    | inl q ↦ rw (p, q) (held_IsRaw true _ (normalize-IsRaw xs false))
    | inr q ↦ rw (p, q) (other_IsRaw h _ p q (normalize-IsRaw xs false))
  ]
]
  where
    held_IsRaw : (h : Bool) (ys : List ℕ) → IsRaw false ys → IsRaw false (held h ++ ys)
    held_IsRaw true ys r = (omega arith, (refl, r))
    held_IsRaw false ys r = r

    other_IsRaw :
        (h : Bool) (ys : List ℕ)
        → (b == cr) ≡ false
        → (b == lf) ≡ false
        → IsRaw false ys
        → IsRaw false ((held h ++ (b ∷ [])) ++ ys)
    other_IsRaw true ys p q r = (omega arith, (refl, (ground arith, rw p r)))
    other_IsRaw false ys p q r = (ground arith, rw p r)

raw_fixed :
    (h : Bool) (xs : List ℕ)
    → IsRaw h xs
    → normalize_line_endings xs h ≡ ((if h then cr ∷ xs else xs), false)
unfolding normalize_line_endings normalize_byte
raw_fixed true [] r = absurd r
raw_fixed true (b ∷ xs) r = ground (arith, r.0, raw_fixed false xs r.1)
raw_fixed false [] r = refl
raw_fixed false (b ∷ xs) r = elim (Bool-cases (b == cr)) [
  | inl p ↦ ground (arith, p, raw_fixed true xs (rw p at r.1))
  | inr p ↦ ground (arith, p, r.0, raw_fixed false xs (rw p at r.1))
]

-- Text that has CR LF for its line ends is passed through as it is.
normalize_of_IsRaw : (xs : List ℕ) → IsRaw false xs → normalize_line_endings xs false ≡ (xs, false)
normalize_of_IsRaw xs r = raw_fixed false xs r
