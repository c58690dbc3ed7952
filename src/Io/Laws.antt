-- ===== src/Io/Laws.antt =====
-- How `split_exact` cuts a list.
use drivewire_rs.Prelude.{
  ℕ, zero, suc, ◌≤◌, ◌<◌, ◌≡◌, refl, none, some, List, [], ◌∷◌, ◌++◌, arith, length, take, drop,
}
use drivewire_rs.Io.{split_exact}

module _ {ℓ} {A : Type ℓ} where
  pub split_exact-append : (xs ys : List A) → split_exact (length xs) (xs ++ ys) ≡ some (xs, ys)
  unfolding split_exact
  split_exact-append [] ys = refl
  split_exact-append (x ∷ xs) ys = ground (arith, split_exact-append xs ys)

  pub split_exact_all : (xs : List A) → split_exact (length xs) xs ≡ some (xs, [])
  unfolding split_exact
  split_exact_all [] = refl
  split_exact_all (x ∷ xs) = ground (arith, split_exact_all xs)

  pub split_exact_enough :
      (n : ℕ) (xs : List A) → n ≤ length xs → split_exact n xs ≡ some (take n xs, drop n xs)
  unfolding split_exact
  split_exact_enough zero xs h = refl
  split_exact_enough (suc n) [] h = absurd (omega arith)
  split_exact_enough (suc n) (x ∷ xs) h = ground (arith, split_exact_enough n xs)

  pub split_exact_short : (n : ℕ) (xs : List A) → length xs < n → split_exact n xs ≡ none
  unfolding split_exact
  split_exact_short zero xs h = absurd (omega arith)
  split_exact_short (suc n) [] h = refl
  split_exact_short (suc n) (x ∷ xs) h = ground (arith, split_exact_short n xs)
