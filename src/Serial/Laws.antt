-- ===== src/Serial/Laws.antt =====
-- The serial stream delivers what the line brought.
use drivewire_rs.Prelude.{
  ℕ, zero, suc, ◌<◌, ◌≤◌, ◌≡◌, ◌≢◌, refl, ◌∙◌, sym, ap, min, Option, none, some, List, [], ◌∷◌,
  ◌++◌, Result, ok, err, take, drop, length, All, arith,
}
use drivewire_rs.Prelude.Lists.{take-append-drop, length-take, length-append}
use mathlib.Core.List.{flatten, append_assoc, append-nil}
use drivewire_rs.Io.{IoKind, unexpected_eof}
use drivewire_rs.Io.Reads.{brought}
use drivewire_rs.Serial.{
  BlockingSerial, opened, reader_loop, receive_chunk, poll_read, behind, poll_reads,
}

-- What the stream has still to deliver.
abbrev pub pending : BlockingSerial → List ℕ
pending s = s.leftover ++ flatten s.rx

abbrev pub IsFilled : BlockingSerial → Type 0
IsFilled s = All (λ chunk. chunk ≢ []) s.rx

-- What a read may come to: bytes off the front, at least one if there is room, or the end.
pub data Read (room : ℕ) (s : BlockingSerial)
    : Result IoKind (List ℕ) × BlockingSerial → Type 0 where
  finished :
      {s' : BlockingSerial}
      → pending s ≡ []
      → pending s' ≡ []
      → IsFilled s'
      → Read room s (err unexpected_eof, s')
  got :
      {bytes : List ℕ} {s' : BlockingSerial}
      → pending s ≡ bytes ++ pending s'
      → length bytes ≤ room
      → (0 < room → 0 < length bytes)
      → IsFilled s'
      → Read room s (ok bytes, s')

take_positive : (n : ℕ) (xs : List ℕ) → 0 < n → xs ≢ [] → 0 < length (take n xs)
take_positive zero xs h ne = absurd (omega arith)
take_positive (suc n) [] h ne = absurd (ne refl)
take_positive (suc n) (x ∷ xs) h ne = omega arith

-- The first bytes of a chunk, as many as there is room for.
module _ (room : ℕ) (chunk : List ℕ) where
  fits : length (take (min (length chunk) room) chunk) ≤ room
  fits = omega (arith, length-take (min (length chunk) room) chunk)

  moves : chunk ≢ [] → 0 < room → 0 < length (take (min (length chunk) room) chunk)
  moves ne h =
      take_positive (min (length chunk) room) chunk (omega (arith, length_positive chunk ne)) ne
    where
      length_positive : (xs : List ℕ) → xs ≢ [] → 0 < length xs
      length_positive [] ne = absurd (ne refl)
      length_positive (x ∷ xs) ne = omega arith

  splits :
      (tail : List ℕ)
      → chunk ++ tail
        ≡ take (min (length chunk) room) chunk ++ (drop (min (length chunk) room) chunk ++ tail)
  splits tail =
      ap (λ front. front ++ tail) (sym (take-append-drop (min (length chunk) room) chunk))
      ∙ append_assoc _ _ tail

read_front :
    (room : ℕ) (leftover : List ℕ) (rx : List (List ℕ))
    → All (λ chunk. chunk ≢ []) rx
    → let s : BlockingSerial = record { rx = rx; leftover = leftover } in
      Read room s (poll_read room s)
unfolding poll_read receive_chunk flatten
read_front room [] [] h = finished refl refl tt
read_front room [] (chunk ∷ rx) (ne, h) =
    got (splits room chunk (flatten rx)) (fits room chunk) (moves room chunk ne) h
read_front room (b ∷ bytes) rx h =
    got (splits room (b ∷ bytes) (flatten rx)) (fits room (b ∷ bytes))
      (moves room (b ∷ bytes) (λ e. cc)) h

-- Reads from a stream whose chunks have bytes.
pub poll_read-Read : (room : ℕ) (s : BlockingSerial) → IsFilled s → Read room s (poll_read room s)
poll_read-Read room s h = read_front room s.leftover s.rx h

pub reader_loop-IsFilled :
    (reads : List (Option (List ℕ))) → All (λ chunk. chunk ≢ []) (reader_loop reads)
unfolding reader_loop
reader_loop-IsFilled [] = tt
reader_loop-IsFilled (none ∷ reads) = tt
reader_loop-IsFilled (some [] ∷ reads) = tt
reader_loop-IsFilled (some (b ∷ bytes) ∷ reads) = (λ e. cc, reader_loop-IsFilled reads)

-- What comes of reads into buffers of the given sizes.
pub record Delivered (rooms : List ℕ) (s : BlockingSerial)
    (out : List ℕ × Option IoKind × BlockingSerial) : Type 0 where
  pub in_order : pending s ≡ out.0 ++ pending out.2
  pub at_end : {kind : IoKind} → out.1 ≡ some kind → (kind ≡ unexpected_eof) × (pending out.2 ≡ [])
  pub to_end :
      All (λ room. 0 < room) rooms → length (pending s) < length rooms → out.1 ≡ some unexpected_eof

some_inj : (k l : IoKind) → some k ≡ some l → l ≡ k
some_inj k l e = cc

shorter :
    (n : ℕ) (bytes : List ℕ) (s s' : BlockingSerial)
    → pending s ≡ bytes ++ pending s'
    → 0 < length bytes
    → length (pending s) < suc n
    → length (pending s') < n
shorter n bytes s s' p b l = omega (arith, length-append bytes (pending s'), ap length p)

Delivered-step :
    (room : ℕ) (rooms : List ℕ) (s : BlockingSerial) (out : Result IoKind (List ℕ) × BlockingSerial)
    → Read room s out
    → (IsFilled out.1 → Delivered rooms out.1 (poll_reads rooms out.1))
    → Delivered (room ∷ rooms) s (behind (λ s'. poll_reads rooms s') out)
unfolding behind
Delivered-step room rooms s out (finished p q f) rest = record {
  in_order = p ∙ sym q;
  at_end = λ t. (some_inj unexpected_eof _ t, q);
  to_end = λ _ _. refl;
}
Delivered-step room rooms s out (got {bytes} {s'} p q r f) rest = record {
  in_order = p ∙ ap (λ t. bytes ++ t) (rest f).in_order ∙ sym (append_assoc bytes _ _);
  at_end = (rest f).at_end;
  to_end = λ a l. (rest f).to_end a.1 (shorter (length rooms) bytes s s' p (r a.0) l);
}

-- From a stream without empty chunks: reads give the pending bytes in order and lose none, an error is
-- the end of file behind the last byte, and reads with room, more than there are bytes, come to it.
pub poll_reads-Delivered :
    (rooms : List ℕ) (s : BlockingSerial) → IsFilled s → Delivered rooms s (poll_reads rooms s)
unfolding poll_reads
poll_reads-Delivered [] s h = record {
  in_order = refl;
  at_end = λ e. cc;
  to_end = λ p l. absurd (omega arith);
}
poll_reads-Delivered (room ∷ rooms) s h =
    Delivered-step room rooms s (poll_read room s) (poll_read-Read room s h)
      (λ f. poll_reads-Delivered rooms (poll_read room s).1 f)

pub pending-opened : (reads : List (Option (List ℕ))) → pending (opened reads) ≡ brought reads
unfolding reader_loop flatten
pending-opened [] = refl
pending-opened (none ∷ reads) = refl
pending-opened (some [] ∷ reads) = refl
pending-opened (some (b ∷ bytes) ∷ reads) = ap (λ t. b ∷ (bytes ++ t)) (pending-opened reads)

-- Reads from a BlockingSerial into buffers with room, more of them than the line brings bytes, give
-- exactly the bytes that the reader thread's reads bring up to their first error or end, in order,
-- and then the end of file, however the reads and the buffers cut them.
pub poll_reads-opened :
    (reads : List (Option (List ℕ))) (rooms : List ℕ)
    → All (λ room. 0 < room) rooms
    → length (brought reads) < length rooms
    → let (bytes, failure, last) = poll_reads rooms (opened reads) in
      (bytes ≡ brought reads) × (failure ≡ some unexpected_eof)
poll_reads-opened reads rooms a l =
    let d = poll_reads-Delivered rooms (opened reads) (reader_loop-IsFilled reads) in
    let whole = pending-opened reads in
    let stop = d.to_end a (rw whole l) in
    (
      sym (append-nil _)
          ∙ ap (λ t. (poll_reads rooms (opened reads)).0 ++ t) (sym (d.at_end stop).1)
          ∙ sym d.in_order
          ∙ whole,
      stop,
    )
