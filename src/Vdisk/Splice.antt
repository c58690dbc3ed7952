-- ===== src/Vdisk/Splice.antt =====
-- What a write into the middle of a file leaves at every place.
use drivewire_rs.Prelude.{
  ℕ, zero, suc, ◌+◌, ◌-◌, ◌≤◌, ◌≡◌, refl, ap, List, [], ◌∷◌, ◌++◌, arith, take, drop, replicate,
  length,
}
use drivewire_rs.Prelude.Lists.{length-append, length-take, length-drop, take-length-append}
use drivewire_rs.Vdisk.{splice}

replicate_none : (a b x : ℕ) → a ≤ b → replicate (a - b) x ≡ []
replicate_none a b x h = let e : a - b ≡ 0 = omega arith in rw e

-- Inside the file no gap is filled.
splice_inside :
    (bytes : List ℕ) (start : ℕ) (new : List ℕ)
    → start + length new ≤ length bytes
    → splice bytes start new ≡ take start bytes ++ (new ++ drop (start + length new) bytes)
unfolding splice
splice_inside bytes start new h = rw (replicate_none start (length bytes) 0 (omega arith))

drop-take-append : (n : ℕ) (xs ys : List ℕ) → n ≤ length xs → drop n (take n xs ++ ys) ≡ ys
drop-take-append zero xs ys h = refl
drop-take-append (suc n) [] ys h = absurd (omega arith)
drop-take-append (suc n) (x ∷ xs) ys h = drop-take-append n xs ys (omega arith)

take-take-append :
    (n m : ℕ) (xs ys : List ℕ) → n ≤ m → m ≤ length xs → take n (take m xs ++ ys) ≡ take n xs
take-take-append zero m xs ys h k = refl
take-take-append (suc n) zero xs ys h k = absurd (omega arith)
take-take-append (suc n) (suc m) [] ys h k = absurd (omega arith)
take-take-append (suc n) (suc m) (x ∷ xs) ys h k =
    ap (λ zs. x ∷ zs) (take-take-append n m xs ys (omega arith) (omega arith))

window_before :
    (a n m : ℕ) (xs ys : List ℕ)
    → a + n ≤ m
    → m ≤ length xs
    → take n (drop a (take m xs ++ ys)) ≡ take n (drop a xs)
window_before zero n m xs ys h k = take-take-append n m xs ys (omega arith) k
window_before (suc a) n zero xs ys h k = absurd (omega arith)
window_before (suc a) n (suc m) [] ys h k = absurd (omega arith)
window_before (suc a) n (suc m) (x ∷ xs) ys h k =
    window_before a n m xs ys (omega arith) (omega arith)

drop_past_new :
    (new : List ℕ) (a : ℕ) (xs : List ℕ)
    → length new ≤ a
    → length new ≤ length xs
    → drop a (new ++ drop (length new) xs) ≡ drop a xs
drop_past_new [] a xs h k = refl
drop_past_new (b ∷ new) zero xs h k = absurd (omega arith)
drop_past_new (b ∷ new) (suc a) [] h k = absurd (omega arith)
drop_past_new (b ∷ new) (suc a) (x ∷ xs) h k = drop_past_new new a xs (omega arith) (omega arith)

drop_after :
    (start end a : ℕ) (new xs : List ℕ)
    → end ≡ start + length new
    → end ≤ a
    → end ≤ length xs
    → drop a (take start xs ++ (new ++ drop end xs)) ≡ drop a xs
drop_after zero end a new xs e h k =
    let e' : end ≡ length new = omega arith in
    rw e' (drop_past_new new a xs (omega arith) (omega arith))
drop_after (suc start) zero a new xs e h k = absurd (omega arith)
drop_after (suc start) (suc end) zero new xs e h k = absurd (omega arith)
drop_after (suc start) (suc end) (suc a) new [] e h k = absurd (omega arith)
drop_after (suc start) (suc end) (suc a) new (x ∷ xs) e h k =
    drop_after start end a new xs (omega arith) (omega arith) (omega arith)

module _ (bytes : List ℕ) (start : ℕ) (new : List ℕ)
    (inside : start + length new ≤ length bytes) where
  pub length-splice : length (splice bytes start new) ≡ length bytes
  length-splice = rw (splice_inside bytes start new inside) (
      omega (
        arith,
        length-append (take start bytes) (new ++ drop (start + length new) bytes),
        length-append new (drop (start + length new) bytes),
        length-take start bytes,
        length-drop (start + length new) bytes,
      ))

  -- The written range holds the new bytes.
  pub window-splice_self : take (length new) (drop start (splice bytes start new)) ≡ new
  window-splice_self =
      rw
        (
          splice_inside bytes start new inside,
          drop-take-append start bytes (new ++ drop (start + length new) bytes) (omega arith),
        )
        (take-length-append new (drop (start + length new) bytes))

  pub window-splice_before :
      (a n : ℕ) → a + n ≤ start → take n (drop a (splice bytes start new)) ≡ take n (drop a bytes)
  window-splice_before a n h =
      rw (splice_inside bytes start new inside)
        (window_before a n start bytes (new ++ drop (start + length new) bytes) h (omega arith))

  pub window-splice_after :
      (a n : ℕ)
      → start + length new ≤ a
      → take n (drop a (splice bytes start new)) ≡ take n (drop a bytes)
  window-splice_after a n h = rw (
    splice_inside bytes start new inside,
    drop_after start (start + length new) a new bytes refl h inside,
  )
