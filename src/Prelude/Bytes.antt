-- ===== src/Prelude/Bytes.antt =====
-- Lists of bytes: numbers below 256, as the operations on lists keep them.
use drivewire_rs.Prelude.Lists.{get_or, set, take, drop, replicate, All}
use Prim.Native.Nat.{ℕ, zero, suc, ◌<◌}
use mathlib.Core.List.{List, [], ◌∷◌, ◌++◌}
use native.Mathlib.Omega.{arith}

abbrev pub IsByte : ℕ → Type 0
IsByte b = b < 256

abbrev pub IsBytes : List ℕ → Type 0
IsBytes = All IsByte

pub at-lt : (xs : List ℕ) (i : ℕ) → IsBytes xs → get_or xs i 0 < 256
at-lt [] i h = omega arith
at-lt (x ∷ xs) zero h = h.0
at-lt (x ∷ xs) (suc i) h = at-lt xs i h.1

module _ {ℓ κ} {A : Type ℓ} (P : A → Type κ) where
  pub append-All : (xs ys : List A) → All P xs → All P ys → All P (xs ++ ys)
  append-All [] ys h k = k
  append-All (x ∷ xs) ys (p, h) k = (p, append-All xs ys h k)

  pub take-All : (n : ℕ) (xs : List A) → All P xs → All P (take n xs)
  take-All zero xs h = tt
  take-All (suc n) [] h = tt
  take-All (suc n) (x ∷ xs) (p, h) = (p, take-All n xs h)

  pub drop-All : (n : ℕ) (xs : List A) → All P xs → All P (drop n xs)
  drop-All zero xs h = h
  drop-All (suc n) [] h = tt
  drop-All (suc n) (x ∷ xs) (p, h) = drop-All n xs h

  pub replicate-All : (n : ℕ) (x : A) → P x → All P (replicate n x)
  replicate-All zero x p = tt
  replicate-All (suc n) x p = (p, replicate-All n x p)

  pub set-All : (xs : List A) (i : ℕ) (x : A) → All P xs → P x → All P (set xs i x)
  set-All [] i x h p = tt
  set-All (y ∷ xs) zero x (q, h) p = (p, h)
  set-All (y ∷ xs) (suc i) x (q, h) p = (q, set-All xs i x h p)

  pub get_or-All : (xs : List A) (i : ℕ) (d : A) → All P xs → P d → P (get_or xs i d)
  get_or-All [] i d h p = p
  get_or-All (x ∷ xs) zero d (q, h) p = q
  get_or-All (x ∷ xs) (suc i) d (q, h) p = get_or-All xs i d h p
