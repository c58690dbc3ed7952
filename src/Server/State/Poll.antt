-- ===== src/Server/State/Poll.antt =====
-- What SERREAD and SERREADM take off the outboxes, and how a guest reads the answer.
use drivewire_rs.Prelude.{
  ℕ, zero, suc, ◌+◌, ◌-◌, ◌%◌, ◌≤◌, ◌<◌, ◌≡◌, refl, List, [], ◌∷◌, ◌++◌, arith, Option, some, none,
  ltb, min, ◌==◌, if◌then◌else◌, take, drop, length, replicate, set,
}
use drivewire_rs.EchoGuest.{Reply, idle, single, closing, burst, unhandled, decode_reply}
use drivewire_rs.Server.State.{vserial_channels, poll, pop_each}

-- The first channel with bytes for the guest, and its queue.
unfoldable pub first_ready : ℕ → List (List ℕ) → Option (ℕ × ℕ × List ℕ)
first_ready idx [] = none
first_ready idx ([] ∷ qs) = first_ready (suc idx) qs
first_ready idx ((byte ∷ q) ∷ qs) = some (idx, byte, q)

-- What a guest reads of a reply of two bytes.
unfoldable pub guest_reply : List ℕ → Reply
unfolding decode_reply
guest_reply (code ∷ second ∷ []) = decode_reply code second
guest_reply _ = idle

first_ready-le :
    (idx : ℕ) (qs : List (List ℕ)) (c byte : ℕ) (q : List ℕ)
    → first_ready idx qs ≡ some (c, byte, q)
    → idx ≤ c
unfolding first_ready
first_ready-le idx [] c byte q h = cc
first_ready-le idx ([] ∷ qs) c byte q h = omega (arith, first_ready-le (suc idx) qs c byte q h)
first_ready-le idx ((b ∷ p) ∷ qs) c byte q h = ground arith

first_ready-lt :
    (idx : ℕ) (qs : List (List ℕ)) (c byte : ℕ) (q : List ℕ)
    → first_ready idx qs ≡ some (c, byte, q)
    → c < idx + length qs
unfolding first_ready
first_ready-lt idx [] c byte q h = cc
first_ready-lt idx ([] ∷ qs) c byte q h = omega (arith, first_ready-lt (suc idx) qs c byte q h)
first_ready-lt idx ((b ∷ p) ∷ qs) c byte q h = ground arith

poll_idle :
    (idx : ℕ) (qs : List (List ℕ))
    → first_ready idx qs ≡ none
    → poll idx qs ≡ (0x00 ∷ 0x00 ∷ [], qs)
unfolding poll first_ready
poll_idle idx [] h = refl
poll_idle idx ([] ∷ qs) h = ground (arith, poll_idle (suc idx) qs h)
poll_idle idx ((b ∷ p) ∷ qs) h = cc

poll_ready :
    (idx : ℕ) (qs : List (List ℕ)) (c byte : ℕ) (q : List ℕ)
    → first_ready idx qs ≡ some (c, byte, q)
    → poll idx qs ≡ (
        if ltb (length (byte ∷ q)) 3
        then ((0x01 + c % 256) ∷ byte ∷ [], set qs (c - idx) q)
        else ((0x11 + c % 256) ∷ min (length (byte ∷ q)) 255 ∷ [], qs))
unfolding poll first_ready
poll_ready idx [] c byte q h = cc
poll_ready idx ([] ∷ qs) c byte q h =
    let e : c - idx ≡ suc (c - suc idx) = omega (arith, first_ready-le (suc idx) qs c byte q h) in
    rw e (ground (arith, poll_ready (suc idx) qs c byte q h))
poll_ready idx ((b ∷ p) ∷ qs) c byte q h = let e : c - idx ≡ 0 = ground arith in rw e (ground arith)

-- With no bytes on any channel a guest reads the reply of SERREAD as idle, and nothing changes.
pub poll_decodes_idle :
    (qs : List (List ℕ))
    → first_ready 0 qs ≡ none
    → (guest_reply (poll 0 qs).0 ≡ idle) × ((poll 0 qs).1 ≡ qs)
unfolding guest_reply
poll_decodes_idle qs h = rw (poll_idle 0 qs h) (refl, refl)

-- Over at most 16 outboxes, of which channel c is the first with bytes, the guest reads SERREAD's
-- reply as c's first byte if there are fewer than 3 and as their number, at most 255, if there are
-- more, except that channel 15 is read as a closing channel or not at all; only a byte that the
-- reply carries leaves its outbox.
pub poll_decodes :
    (qs : List (List ℕ)) (c byte : ℕ) (q : List ℕ)
    → length qs ≤ vserial_channels
    → first_ready 0 qs ≡ some (c, byte, q)
    → (guest_reply (poll 0 qs).0 ≡ (
        if ltb (length q) 2
        then (if c == 15 then closing byte else single c byte)
        else (if c == 15 then unhandled 0x20 else burst c (min (length q + 1) 255))))
      × ((poll 0 qs).1 ≡ (if ltb (length q) 2 then set qs c q else qs))
unfolding guest_reply
poll_decodes qs c byte q n h =
    let lt = first_ready-lt 0 qs c byte q h in
    let e : c - 0 ≡ c = omega arith in
    rw (poll_ready 0 qs c byte q h, e) (ground arith, ground arith)

pop_each_nil : (n : ℕ) → pop_each n [] ≡ (replicate n 0, [])
unfolding pop_each
pop_each_nil zero = refl
pop_each_nil (suc n) = rw (pop_each_nil n)

-- `pop_each` takes what is there and pads it with zeros.
pub pop_each_lem :
    (n : ℕ) (q : List ℕ) → pop_each n q ≡ (take n q ++ replicate (n - length q) 0, drop n q)
unfolding pop_each
pop_each_lem zero q = let e : zero - length q ≡ 0 = omega arith in rw e
pop_each_lem (suc n) [] = let e : suc n - 0 ≡ suc n = omega arith in rw (pop_each_nil n, e)
pop_each_lem (suc n) (x ∷ q) =
    let e : suc n - suc (length q) ≡ n - length q = omega arith in rw (pop_each_lem n q, e)
