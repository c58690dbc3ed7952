-- ===== src/Proto/Checksum.antt =====
-- crates/drivewire-proto/src/checksum.rs: the 16-bit additive checksum.
use mathlib.Core.List.{foldl}
use drivewire_rs.Prelude.{
  ℕ, ◌+◌, ◌*◌, ◌%◌, ◌^◌, ◌≤◌, ◌<◌, ◌≡◌, ◌≢◌, List, [], ◌∷◌, ◌++◌, arith, length, All,
}

-- `acc.wrapping_add(b as u16)`
abbrev pub wrapping_add16 : ℕ → ℕ → ℕ
wrapping_add16 acc b = (acc + b) % 2 ^ 16

unfoldable pub checksum16 : List ℕ → ℕ
checksum16 bytes = foldl wrapping_add16 0 bytes

-- The plain sum.
unfoldable pub sum : List ℕ → ℕ
sum [] = 0
sum (x ∷ xs) = x + sum xs

sum-append : (xs ys : List ℕ) → sum (xs ++ ys) ≡ sum xs + sum ys
unfolding sum
sum-append [] ys = omega arith
sum-append (x ∷ xs) ys = omega (arith, sum-append xs ys)

foldl-sum : (acc : ℕ) (xs : List ℕ) → foldl wrapping_add16 acc xs % 2 ^ 16 ≡ (acc + sum xs) % 2 ^ 16
unfolding sum
foldl-sum acc [] = omega arith
foldl-sum acc (x ∷ xs) = omega (arith, foldl-sum (wrapping_add16 acc x) xs)

foldl-lt : (acc : ℕ) (xs : List ℕ) → acc < 2 ^ 16 → foldl wrapping_add16 acc xs < 2 ^ 16
foldl-lt acc [] h = h
foldl-lt acc (x ∷ xs) h = foldl-lt (wrapping_add16 acc x) xs (omega arith)

-- The wrapping loop computes the sum of the bytes modulo 2 ^ 16.
checksum16-sum : (xs : List ℕ) → checksum16 xs ≡ sum xs % 2 ^ 16
unfolding checksum16
checksum16-sum xs = omega (arith, foldl-sum 0 xs, foldl-lt 0 xs (omega arith))

sum-le : (xs : List ℕ) → All (λ x. x < 256) xs → sum xs ≤ 255 * length xs
unfolding sum
sum-le [] h = omega arith
sum-le (x ∷ xs) h = omega (arith, sum-le xs h.1)

-- Over at most 257 bytes the checksum never wraps: it is the sum of the bytes.
checksum16_exact : (xs : List ℕ) → All (λ x. x < 256) xs → length xs ≤ 257 → checksum16 xs ≡ sum xs
checksum16_exact xs h n = omega (arith, checksum16-sum xs, sum-le xs h)

-- Two blocks of any length that differ in one byte have different checksums.
pub checksum16_detects :
    (front back : List ℕ) (x y : ℕ)
    → x < 256
    → y < 256
    → x ≢ y
    → checksum16 (front ++ (x ∷ back)) ≢ checksum16 (front ++ (y ∷ back))
unfolding sum
checksum16_detects front back x y hx hy ne h = omega (
  arith,
  ne,
  h,
  checksum16-sum (front ++ (x ∷ back)),
  checksum16-sum (front ++ (y ∷ back)),
  sum-append front (x ∷ back),
  sum-append front (y ∷ back),
)
