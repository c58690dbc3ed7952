-- ===== src/Io.antt =====
-- The transport `T : AsyncRead + AsyncWrite` of crates/drivewire-server, as the events that its peer
-- chooses, and the actions of a session: a step on the world that succeeds or returns early by `?`.
pub mod Laws
pub mod Reads
use drivewire_rs.Prelude.{
  ℕ, zero, suc, ◌-◌, Option, none, some, List, [], ◌∷◌, ◌++◌, Result, ok, err, leb, take, length,
  if◌then◌else◌,
}

-- `std::io::ErrorKind`: the kind that the code tests for, and the others.
pub data IoKind : Type 0 where
  unexpected_eof : IoKind
  other_kind : ℕ → IoKind

-- The peer takes every byte, or so many more and then a write fails.
pub data Sink : Type 0 where
  steady : Sink
  limited : ℕ → IoKind → Sink

-- `input`: the bytes that the peer will send; `ending`: what a read past them reports;
-- `output`: what has been written to the peer.
pub record Wire : Type 0 where
  pub input : List ℕ
  pub ending : IoKind
  pub sink : Sink
  pub output : List ℕ

-- The first `n` elements and the rest, if there are that many.
unfoldable pub split_exact {ℓ} : {A : Type ℓ} → ℕ → List A → Option (List A × List A)
split_exact zero xs = some ([], xs)
split_exact (suc n) [] = none
split_exact (suc n) (x ∷ xs) = elim (split_exact n xs) [
  | none ↦ none
  | some (front, back) ↦ some (x ∷ front, back)
]

-- What a read comes to: on a failure what had arrived is gone.
unfoldable pub taken : Wire → Option (List ℕ × List ℕ) → Result IoKind (List ℕ) × Wire
taken w none = (err w.ending, record w { input = [] })
taken w (some (front, back)) = (ok front, record w { input = back })

-- `read_exact` into a buffer of `n` bytes.
unfoldable pub read_exact : ℕ → Wire → Result IoKind (List ℕ) × Wire
unfolding taken split_exact
read_exact n w = taken w (split_exact n w.input)

unfoldable pub write_to : Sink → List ℕ → Wire → Result IoKind (Unit {0}) × Wire
write_to steady bytes w = (ok tt, record w { output = w.output ++ bytes })
write_to (limited n kind) bytes w =
    if leb (length bytes) n
    then (ok tt, record w { sink = limited (n - length bytes) kind; output = w.output ++ bytes })
    else (err kind, record w { sink = limited 0 kind; output = w.output ++ take n bytes })

-- `write_all`: all of the bytes, or an error after those that the peer took.
unfoldable pub write_all : List ℕ → Wire → Result IoKind (Unit {0}) × Wire
unfolding write_to
write_all bytes w = write_to w.sink bytes w
