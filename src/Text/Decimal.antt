-- ===== src/Text/Decimal.antt =====
-- Numbers as text: printing and parsing.
use drivewire_rs.Prelude.{
  ℕ, zero, suc, ◌+◌, ◌*◌, ◌/◌, ◌%◌, ◌≤◌, ◌<◌, ◌≡◌, ◌≢◌, refl, ◌∙◌, some, [], ◌∷◌, arith, ltb,
  Bool-cases, inl, inr, ltb→lt, All,
}
use drivewire_rs.Text.{Text, digits, decimal, push_digit, parse_digits, parse_u8}

push_digit_lem :
    (acc n m : ℕ) → acc * 10 + n ≡ m → m ≤ 255 → n < 10 → push_digit acc (b'0' + n) ≡ some m
push_digit_lem acc n m e h k = ground arith

parse_digits-push :
    (acc n m : ℕ) (tail : Text)
    → acc * 10 + n ≡ m
    → m ≤ 255
    → n < 10
    → parse_digits acc ((b'0' + n) ∷ tail) ≡ parse_digits m tail
unfolding parse_digits
parse_digits-push acc n m tail e h k = rw (push_digit_lem acc n m e h k, parse_digits)

parse_digits-digits :
    (fuel n : ℕ) (tail : Text)
    → n < fuel
    → n ≤ 255
    → parse_digits 0 (digits fuel n tail) ≡ parse_digits n tail
unfolding digits
parse_digits-digits zero n tail h k = absurd (omega arith)
parse_digits-digits (suc fuel) n tail h k = elim (Bool-cases (ltb n 10)) [
  | inl e ↦
      let small : n < 10 = ltb→lt n 10 e in
      rw e (parse_digits-push 0 n n tail (omega arith) k small)
  | inr e ↦
      let big : 10 ≤ n = ground arith in
      rw e (
        parse_digits-digits fuel (n / 10) ((b'0' + n % 10) ∷ tail) (omega arith) (omega arith)
        ∙ parse_digits-push (n / 10) (n % 10) n tail (omega arith) k (omega arith))
]

abbrev pub IsDigit : ℕ → Type 0
IsDigit c = (b'0' ≤ c) × (c ≤ b'9')

digits-IsDigit : (fuel n : ℕ) (tail : Text) → All IsDigit tail → All IsDigit (digits fuel n tail)
unfolding digits
digits-IsDigit zero n tail h = h
digits-IsDigit (suc fuel) n tail h = elim (Bool-cases (ltb n 10)) [
  | inl e ↦ rw e ((omega arith, let small : n < 10 = ltb→lt n 10 e in omega arith), h)
  | inr e ↦ rw e (digits-IsDigit fuel (n / 10) _ ((omega arith, omega arith), h))
]

pub decimal-IsDigit : (n : ℕ) → All IsDigit (decimal n)
unfolding decimal
decimal-IsDigit n = digits-IsDigit (suc n) n [] tt

parse_u8_of_digits : (s : Text) → All IsDigit s → s ≢ [] → parse_u8 s ≡ parse_digits 0 s
unfolding parse_u8
parse_u8_of_digits [] h ne = absurd (ne refl)
parse_u8_of_digits (c ∷ []) h ne = refl
parse_u8_of_digits (c ∷ d ∷ s) ((a, b), h) ne = ground arith

digits_ne : (fuel n : ℕ) (c : ℕ) (tail : Text) → digits fuel n (c ∷ tail) ≢ []
unfolding digits
digits_ne zero n c tail e = cc
digits_ne (suc fuel) n c tail e = elim (Bool-cases (ltb n 10)) [
  | inl t ↦ cc
  | inr f ↦ digits_ne fuel (n / 10) _ _ (rw f at e)
]

pub decimal_ne : (n : ℕ) → decimal n ≢ []
unfolding decimal digits
decimal_ne n e = elim (Bool-cases (ltb n 10)) [
  | inl t ↦ cc
  | inr f ↦ digits_ne n (n / 10) _ _ (rw f at e)
]

-- A number that fits `u8` survives printing and parsing.
pub parse_u8-decimal : (n : ℕ) → n ≤ 255 → parse_u8 (decimal n) ≡ some n
unfolding decimal parse_digits
parse_u8-decimal n h =
    parse_u8_of_digits (decimal n) (decimal-IsDigit n) (decimal_ne n)
    ∙ parse_digits-digits (suc n) n [] (omega arith) h
