-- ===== src/Server/State/Queues.antt =====
-- The queues of the channels: what writing to one, polling one and SERREADM do to it.
use mathlib.Core.List.{append-nil}
use drivewire_rs.Prelude.{
  ℕ, zero, suc, ◌+◌, ◌-◌, ◌≤◌, ◌<◌, ◌≡◌, refl, List, [], ◌∷◌, ◌++◌, arith, Bool-cases, inl, inr,
  some, ◌==◌, ==_iff, if◌then◌else◌, take, drop, length, replicate, get_or, set,
}
use native.Mathlib.Decide.{dec_le}
use drivewire_rs.Prelude.Lists.{get_or-set_self, get_or-set_ne, take-length-append_le}
use drivewire_rs.Server.State.{vserial_channels, read_many}
use drivewire_rs.Server.State.Poll.{first_ready, pop_each_lem}

-- The queue of a channel.
abbrev pub queue : List (List ℕ) → ℕ → List ℕ
queue queues c = get_or queues c []

pub queue-set :
    (qs : List (List ℕ)) (i j : ℕ) (q : List ℕ)
    → i < length qs
    → queue (set qs i q) j ≡ (if i == j then q else queue qs j)
queue-set qs i j q h = elim (Bool-cases (i == j)) [
  | inl p ↦ rw (p, ← (==_iff i j).0 p) (get_or-set_self qs i q [] h)
  | inr p ↦ rw p (get_or-set_ne qs i j q [] (λ e. ground arith))
]

pub first_ready-queue :
    (idx : ℕ) (qs : List (List ℕ)) (c byte : ℕ) (q : List ℕ)
    → first_ready idx qs ≡ some (c, byte, q)
    → (idx ≤ c) × (c < idx + length qs) × (queue qs (c - idx) ≡ byte ∷ q)
unfolding first_ready
first_ready-queue idx [] c byte q h = cc
first_ready-queue idx ([] ∷ qs) c byte q h =
    let (le, lt, same) = first_ready-queue (suc idx) qs c byte q h in
    let e : c - idx ≡ suc (c - suc idx) = omega arith in (omega arith, omega arith, rw e same)
first_ready-queue idx ((b ∷ p) ∷ qs) c byte q h =
    let e : c - idx ≡ 0 = ground arith in (ground arith, ground arith, rw e (ground arith))

-- SERREADM on a channel below 16 answers with the front of its queue padded with zeros to the count,
-- and takes exactly that front off the queue.
pub read_many_lem :
    (c n : ℕ) (qs : List (List ℕ))
    → c < vserial_channels
    → read_many c n qs ≡ (
      take n (queue qs c) ++ replicate (n - length (queue qs c)) 0,
      set qs c (drop n (queue qs c)),
    )
unfolding read_many
read_many_lem c n qs h = ground (arith, pop_each_lem n (queue qs c))

no_padding : (n : ℕ) (q : List ℕ) → take {A = ℕ} (length q - n) (replicate (n - length q) 0) ≡ []
no_padding n q = elim (dec_le (length q) n) [
  | yes h ↦ let e : length q - n ≡ 0 = omega arith in rw e
  | no h ↦ let e : n - length q ≡ 0 = omega arith in rw e (take_nil (length q - n))
]
  where
    take_nil : (k : ℕ) → take {A = ℕ} k [] ≡ []
    take_nil zero = refl
    take_nil (suc k) = refl

pub unpadded :
    (n : ℕ) (q : List ℕ) → take (length q) (take n q ++ replicate (n - length q) 0) ≡ take n q
unpadded n q =
    rw (take-length-append_le n q (replicate (n - length q) 0), no_padding n q, append-nil)
