-- ===== src/Serial/Writer.antt =====
-- The writer thread: what it puts on the line.
use drivewire_rs.Prelude.{
  ℕ, zero, suc, ◌≤◌, ◌+◌, ◌≡◌, refl, ◌∙◌, sym, ap, Option, none, some, List, [], ◌∷◌, ◌++◌, take,
  drop, length, All, arith,
}
use drivewire_rs.Prelude.Lists.{take-append-drop, length-drop, length-append}
use mathlib.Core.List.{flatten, append-nil, append_assoc}
use drivewire_rs.Serial.{write_chunk, writer_loop, poll_write, poll_writes}

-- A `write` that takes at least one byte.
abbrev pub Takes : Option ℕ → Type 0
Takes none = ⊥
Takes (some zero) = ⊥
Takes (some (suc n)) = Unit

record Written (returns : List (Option ℕ)) (chunk : List ℕ) (out : List ℕ × List (Option ℕ))
    : Type 0 where
  whole : out.0 ≡ chunk
  good : All Takes out.1
  enough : length returns ≤ length out.1 + length chunk

write_chunk-Written :
    (returns : List (Option ℕ)) (chunk : List ℕ)
    → All Takes returns
    → length chunk ≤ length returns
    → Written returns chunk (write_chunk returns chunk)
unfolding write_chunk
write_chunk-Written [] [] h l = record { whole = refl; good = tt; enough = omega arith }
write_chunk-Written (r ∷ returns) [] h l = record { whole = refl; good = h; enough = omega arith }
write_chunk-Written [] (b ∷ chunk) h l = absurd (omega arith)
write_chunk-Written (some (suc n) ∷ returns) (b ∷ chunk) (t, h) l =
    let rest = write_chunk-Written returns (drop n chunk) h (omega (arith, length-drop n chunk)) in
    record {
      whole = ap (λ s. b ∷ s) (ap (λ s. take n chunk ++ s) rest.whole ∙ take-append-drop n chunk);
      good = rest.good;
      enough = omega (arith, length-drop n chunk, rest.enough);
    }
write_chunk-Written (some zero ∷ returns) (b ∷ chunk) (t, h) l = absurd t
write_chunk-Written (none ∷ returns) (b ∷ chunk) (t, h) l = absurd t

-- If each call of write takes at least one byte, and there are as many calls as bytes, the writer
-- thread puts all chunks on the line whole and in order, however the calls cut them.
writer_loop-flatten :
    (returns : List (Option ℕ)) (chunks : List (List ℕ))
    → All Takes returns
    → length (flatten chunks) ≤ length returns
    → writer_loop returns chunks ≡ flatten chunks
unfolding writer_loop flatten
writer_loop-flatten returns [] h l = refl
writer_loop-flatten returns (chunk ∷ chunks) h l =
    let total = length-append chunk (flatten chunks) in
    let first = write_chunk-Written returns chunk h (omega (arith, total, l)) in
    ap (λ s. s ++ writer_loop (write_chunk returns chunk).1 chunks) first.whole
    ∙ ap (λ s. chunk ++ s)
        (writer_loop-flatten (write_chunk returns chunk).1 chunks first.good
          (omega (arith, total, l, first.enough)))

poll_writes_lem :
    (bufs tx : List (List ℕ)) → poll_writes bufs tx ≡ (length (flatten bufs), tx ++ bufs)
unfolding poll_writes poll_write flatten
poll_writes_lem [] tx = ap (λ t. (0, t)) (sym (append-nil tx))
poll_writes_lem (buf ∷ bufs) tx =
    rw (poll_writes_lem bufs (tx ++ (buf ∷ [])), length-append buf (flatten bufs))
      (ap (λ t. (length buf + length (flatten bufs), t)) (append_assoc tx (buf ∷ []) bufs))

-- With the writer thread there, writes take all of their bytes, and if each call of write takes at
-- least one byte, and there are as many calls as bytes, the thread puts the bytes of all writes on
-- the line whole and in order.
poll_writes-writer_loop :
    (returns : List (Option ℕ)) (bufs : List (List ℕ))
    → All Takes returns
    → length (flatten bufs) ≤ length returns
    → let (total, tx) = poll_writes bufs [] in
      (total ≡ length (flatten bufs)) × (writer_loop returns tx ≡ flatten bufs)
poll_writes-writer_loop returns bufs h l =
    rw (poll_writes_lem bufs []) (refl, writer_loop-flatten returns bufs h l)
