-- ===== src/Serial.antt =====
-- `BlockingSerial` of crates/drivewire-transport/src/blocking_serial.rs: the worker threads and the
-- stream that they feed. The stream is read as long as the threads run, so no channel is closed early.
pub mod Laws
pub mod Writer
pub mod Drain
pub mod Open
pub mod Termios
use drivewire_rs.Prelude.{
  ℕ, zero, suc, ◌+◌, ◌-◌, min, Option, none, some, List, [], ◌∷◌, ◌++◌, Result, ok, err, take, drop,
  length,
}
use drivewire_rs.Io.{IoKind, unexpected_eof}

-- `rx`: the chunks that the reader thread has sent and will send before it ends.
pub record BlockingSerial : Type 0 where
  pub rx : List (List ℕ)
  pub leftover : List ℕ

-- The chunks that the thread sends, from what its calls of `read` return: `none` for an error, and no
-- bytes for the end.
unfoldable pub reader_loop : List (Option (List ℕ)) → List (List ℕ)
reader_loop [] = []
reader_loop (none ∷ reads) = []
reader_loop (some [] ∷ reads) = []
reader_loop (some (b ∷ bytes) ∷ reads) = (b ∷ bytes) ∷ reader_loop reads

abbrev pub opened : List (Option (List ℕ)) → BlockingSerial
opened reads = record { rx = reader_loop reads; leftover = [] }

unfoldable pub receive_chunk : ℕ → List (List ℕ) → Result IoKind (List ℕ) × BlockingSerial
receive_chunk room [] = (err unexpected_eof, record { rx = []; leftover = [] })
receive_chunk room (chunk ∷ rx) =
    let n = min (length chunk) room in
    (ok (take n chunk), record { rx = rx; leftover = drop n chunk })

-- One read into a buffer with `room` bytes left: what is put there. It is pending while the reader
-- thread has nothing, which is left out here.
unfoldable pub poll_read : ℕ → BlockingSerial → Result IoKind (List ℕ) × BlockingSerial
unfolding receive_chunk
poll_read room s = elim s.leftover [
  | [] ↦ receive_chunk room s.rx
  | b ∷ bytes ↦
      let n = min (length s.leftover) room in
      (ok (take n s.leftover), record s { leftover = drop n s.leftover })
]

-- What follows a read that gave bytes is read behind them.
unfoldable pub behind :
    (BlockingSerial → List ℕ × Option IoKind × BlockingSerial)
    → Result IoKind (List ℕ) × BlockingSerial
    → List ℕ × Option IoKind × BlockingSerial
behind more (err kind, s) = ([], some kind, s)
behind more (ok bytes, s) = let (rest, failure, last) = more s in (bytes ++ rest, failure, last)

-- Reads into buffers of the given sizes, up to the first error: the bytes, whether there was an error, and
-- the stream.
unfoldable pub poll_reads : List ℕ → BlockingSerial → List ℕ × Option IoKind × BlockingSerial
unfolding poll_read behind
poll_reads [] s = ([], none, s)
poll_reads (room ∷ rooms) s = behind (λ s'. poll_reads rooms s') (poll_read room s)

-- A chunk's bytes on the line, from what the calls of `write` return: how many bytes each took, with
-- `none` and 0 for an error, which drops the rest of the chunk. The result is the bytes, and the returns
-- that are left for the next chunk.
unfoldable pub write_chunk : List (Option ℕ) → List ℕ → List ℕ × List (Option ℕ)
write_chunk returns [] = ([], returns)
write_chunk [] (b ∷ remaining) = ([], [])
write_chunk (none ∷ returns) (b ∷ remaining) = ([], returns)
write_chunk (some zero ∷ returns) (b ∷ remaining) = ([], returns)
write_chunk (some (suc n) ∷ returns) (b ∷ remaining) =
    let (bytes, left) = write_chunk returns (drop n remaining) in
    (b ∷ (take n remaining ++ bytes), left)

unfoldable pub writer_loop : List (Option ℕ) → List (List ℕ) → List ℕ
unfolding write_chunk
writer_loop returns [] = []
writer_loop returns (chunk ∷ chunks) =
    let (bytes, left) = write_chunk returns chunk in bytes ++ writer_loop left chunks

-- A write: the number of bytes taken, and what waits for the writer thread. `gone`: the error of a thread that
-- has ended.
unfoldable pub poll_write : Option IoKind → List ℕ → List (List ℕ) → Result IoKind ℕ × List (List ℕ)
poll_write none buf tx = (ok (length buf), tx ++ (buf ∷ []))
poll_write (some kind) buf tx = (err kind, tx)

-- Writes one after the other: how many bytes were taken.
unfoldable pub poll_writes : List (List ℕ) → List (List ℕ) → ℕ × List (List ℕ)
poll_writes [] tx = (0, tx)
poll_writes (buf ∷ bufs) tx =
    let (r, tx') = poll_write none buf tx in
    let (total, tx'') = poll_writes bufs tx' in (elim r [ ok n ↦ n | err kind ↦ 0 ] + total, tx'')
