-- ===== src/Text.antt =====
-- The standard library's operations on text that the control protocol uses: `trim`, `splitn`,
-- `to_ascii_uppercase`, `starts_with`, the decimal form of numbers and `parse::<u8>`.
pub mod Laws
pub mod Decimal
use Prim.Native.Char.{code}
use Prim.Native.String.{String}
use drivewire_rs.Prelude.{
  ℕ, zero, suc, ◌+◌, ◌-◌, ◌*◌, ◌/◌, ◌%◌, Bool, true, false, ◌&&◌, ◌||◌, Option, none, some, List,
  [], ◌∷◌, ltb, leb, ◌==◌, if◌then◌else◌,
}

-- A text is the list of its code points.
abbrev pub Text : Type 0
Text = List ℕ

abbrev pub chars : String → Text
chars String.[] = []
chars (String.◌∷◌ c s) = code c ∷ chars s

-- `char::is_whitespace`
abbrev pub is_whitespace : ℕ → Bool
is_whitespace c =
    (leb 0x09 c && leb c 0x0d)
    || ((c == 0x20)
        || ((c == 0x85)
            || ((c == 0xa0)
                || ((c == 0x1680)
                    || ((leb 0x2000 c && leb c 0x200a)
                        || ((c == 0x2028)
                            || ((c == 0x2029)
                                || ((c == 0x202f) || ((c == 0x205f) || (c == 0x3000))))))))))

abbrev pub is_empty : Text → Bool
is_empty [] = true
is_empty (c ∷ s) = false

unfoldable pub trim_start : Text → Text
trim_start [] = []
trim_start (c ∷ s) = let rest = trim_start s in if is_whitespace c then rest else c ∷ s

abbrev pub trim_end : Text → Text
trim_end [] = []
trim_end (c ∷ s) =
    let rest = trim_end s in if is_whitespace c && is_empty rest then [] else c ∷ rest

abbrev pub trim : Text → Text
trim s = trim_end (trim_start s)

-- The text before the first white space, and what stands behind it.
abbrev pub split_once : Text → Text × Option Text
split_once [] = ([], none)
split_once (c ∷ s) =
    let (front, back) = split_once s in if is_whitespace c then ([], some s) else (c ∷ front, back)

-- `splitn(3, char::is_whitespace)`
unfoldable pub splitn3 : Text → Text × Option Text × Option Text
splitn3 line =
    let (first, rest) = split_once line in
    elim rest [
      | none ↦ (first, none, none)
      | some back ↦ let (second, third) = split_once back in (first, some second, third)
    ]

abbrev pub to_ascii_uppercase : Text → Text
to_ascii_uppercase [] = []
to_ascii_uppercase (c ∷ s) = (if leb b'a' c && leb c b'z' then c - 32 else c) ∷ to_ascii_uppercase s

abbrev pub starts_with : Text → Text → Bool
starts_with [] s = true
starts_with (c ∷ prefix) [] = false
starts_with (c ∷ prefix) (d ∷ s) = (c == d) && starts_with prefix s

abbrev pub same : Text → Text → Bool
same [] [] = true
same [] (d ∷ s) = false
same (c ∷ prefix) [] = false
same (c ∷ prefix) (d ∷ s) = (c == d) && same prefix s

-- The digits of a number in front of `tail`, with fuel for one digit more than they are.
unfoldable pub digits : ℕ → ℕ → Text → Text
digits zero n tail = tail
digits (suc fuel) n tail =
    let front = digits fuel (n / 10) ((b'0' + n % 10) ∷ tail) in
    if ltb n 10 then (b'0' + n) ∷ tail else front

-- `Display` of an unsigned number.
unfoldable pub decimal : ℕ → Text
unfolding digits
decimal n = digits (suc n) n []

-- A digit behind the number `acc`, unless the result does not fit `u8`.
abbrev pub push_digit : ℕ → ℕ → Option ℕ
push_digit acc c =
    if leb b'0' c && leb c b'9'
    then (if leb (acc * 10 + (c - b'0')) 255 then some (acc * 10 + (c - b'0')) else none)
    else none

unfoldable pub parse_digits : ℕ → Text → Option ℕ
parse_digits acc [] = some acc
parse_digits acc (c ∷ s) = elim (push_digit acc c) [ none ↦ none | some n ↦ parse_digits n s ]

-- `str::parse::<u8>`: a `+` may stand before the digits.
unfoldable pub parse_u8 : Text → Option ℕ
unfolding parse_digits
parse_u8 [] = none
parse_u8 (c ∷ []) = parse_digits 0 (c ∷ [])
parse_u8 (c ∷ d ∷ s) = if c == b'+' then parse_digits 0 (d ∷ s) else parse_digits 0 (c ∷ d ∷ s)
