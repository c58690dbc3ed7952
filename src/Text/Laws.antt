-- ===== src/Text/Laws.antt =====
-- Texts of one line, and what cutting a text up keeps of that.
use drivewire_rs.Prelude.{
  ℕ, ◌≡◌, refl, ◌&&◌, not, Bool, true, Option, none, some, [], ◌∷◌, ◌++◌, ◌==◌, arith, All,
  Bool-cases, inl, inr,
}
use drivewire_rs.Text.{Text, is_whitespace, split_once, splitn3, to_ascii_uppercase, decimal}
use drivewire_rs.Text.Decimal.{IsDigit, decimal-IsDigit}

abbrev pub is_line : Text → Bool
is_line [] = true
is_line (c ∷ s) = not (c == 0x0a) && is_line s

-- A text without a line feed.
abbrev pub IsLine : Text → Type 0
IsLine s = is_line s ≡ true

abbrev pub IsLineOption : Option Text → Type 0
IsLineOption none = Unit
IsLineOption (some s) = IsLine s

abbrev pub AllLines : Text × Option Text × Option Text → Type 0
AllLines (first, second, third) = IsLine first × (IsLineOption second × IsLineOption third)

pub is_line-append : (s t : Text) → is_line (s ++ t) ≡ (is_line s && is_line t)
is_line-append [] t = refl
is_line-append (c ∷ s) t = ground (arith, is_line-append s t)

digits-IsLine : (s : Text) → All IsDigit s → IsLine s
digits-IsLine [] h = refl
digits-IsLine (c ∷ s) ((a, b), h) = ground (arith, digits-IsLine s h)

pub decimal-IsLine : (n : ℕ) → IsLine (decimal n)
decimal-IsLine n = digits-IsLine (decimal n) (decimal-IsDigit n)

pub to_ascii_uppercase-IsLine : (s : Text) → IsLine s → IsLine (to_ascii_uppercase s)
to_ascii_uppercase-IsLine [] h = refl
to_ascii_uppercase-IsLine (c ∷ s) h = ground (arith, to_ascii_uppercase-IsLine s)

split_once-IsLine : (s : Text) → IsLine s → IsLine (split_once s).0 × IsLineOption (split_once s).1
split_once-IsLine [] h = (refl, tt)
split_once-IsLine (c ∷ s) h =
    let rest : IsLine s = ground arith in
    let (f, b) = split_once-IsLine s rest in
    elim (Bool-cases (is_whitespace c)) [
      | inl e ↦ rw e (refl, rest)
      | inr e ↦ rw e (ground (arith, f), b)
    ]

second-IsLine :
    (o : Option Text)
    → IsLineOption o
    → (first : Text) → IsLine first
    → AllLines (elim o [
      | none ↦ (first, none, none)
      | some back ↦ let (second, third) = split_once back in (first, some second, third)
    ])
second-IsLine none h first k = (k, (tt, tt))
second-IsLine (some back) h first k = (k, split_once-IsLine back h)

pub splitn3-IsLine : (s : Text) → IsLine s → AllLines (splitn3 s)
unfolding splitn3
splitn3-IsLine s h =
    let (f, b) = split_once-IsLine s h in second-IsLine (split_once s).1 b (split_once s).0 f
