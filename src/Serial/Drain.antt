-- ===== src/Serial/Drain.antt =====
-- `drain_serial` of crates/drivewire-transport/src/lib.rs: the stale bytes thrown away at the start.
use mathlib.Core.List.{append-nil, append_assoc}
use drivewire_rs.Prelude.{
  ℕ, ◌+◌, ◌<◌, ◌≤◌, ◌≡◌, refl, ◌∙◌, sym, ap, some, List, [], ◌∷◌, ◌++◌, Result, ok, err, drop,
  length, All, arith,
}
use drivewire_rs.Prelude.Lists.{length-append, drop-length-append}
use drivewire_rs.Io.{IoKind, unexpected_eof}
use drivewire_rs.Io.Reads.{Reads, brought}
use drivewire_rs.Serial.{BlockingSerial, opened, poll_read, poll_reads}
use drivewire_rs.Serial.Laws.{
  pending, IsFilled, Read, finished, got, poll_read-Read, poll_reads-Delivered,
  reader_loop-IsFilled, pending-opened,
}

-- What a pass of the loop meets before the window is over: the timeout, or a read that returns.
pub data Pass : Type 0 where
  timed_out arrived : Pass

-- A read's bytes are counted, and the loop goes on unless there are none.
unfoldable pub discard :
    (BlockingSerial → ℕ × BlockingSerial)
    → Result IoKind (List ℕ) × BlockingSerial
    → ℕ × BlockingSerial
discard more (err kind, s) = (0, s)
discard more (ok [], s) = (0, s)
discard more (ok (b ∷ bytes), s) = let (total, last) = more s in (length (b ∷ bytes) + total, last)

-- The bytes thrown away, and the port behind them. The window is over where the passes end.
unfoldable pub drain_serial : List Pass → BlockingSerial → ℕ × BlockingSerial
unfolding discard
drain_serial [] s = (0, s)
drain_serial (timed_out ∷ passes) s = (0, s)
drain_serial (arrived ∷ passes) s = discard (λ s'. drain_serial passes s') (poll_read 1024 s)

abbrev pub IsArrived : Pass → Type 0
IsArrived timed_out = ⊥
IsArrived arrived = Unit

-- What a drain may come to.
pub record Drained (passes : List Pass) (s : BlockingSerial) (out : ℕ × BlockingSerial)
    : Type 0 where
  pub front : List ℕ
  pub counted : length front ≡ out.0
  pub dropped : pending s ≡ front ++ pending out.1
  pub filled : IsFilled out.1
  pub emptied : All IsArrived passes → length (pending s) < length passes → pending out.1 ≡ []

Drained-step :
    (passes : List Pass) (s : BlockingSerial) (out : Result IoKind (List ℕ) × BlockingSerial)
    → Read 1024 s out
    → (IsFilled out.1 → Drained passes out.1 (drain_serial passes out.1))
    → Drained (arrived ∷ passes) s (discard (λ s'. drain_serial passes s') out)
unfolding discard
Drained-step passes s out (finished p q f) rest = record {
  front = [];
  counted = refl;
  dropped = p ∙ sym q;
  filled = f;
  emptied = λ _ _. q;
}
Drained-step passes s out (got {bytes = []} {s'} p q r f) rest =
    absurd (omega (arith, r (omega arith)))
Drained-step passes s out (got {bytes = b ∷ bytes} {s'} p q r f) rest =
    let d = rest f in
    record {
      front = (b ∷ bytes) ++ d.front;
      counted = omega (arith, length-append (b ∷ bytes) d.front, d.counted);
      dropped = p ∙ ap (λ t. (b ∷ bytes) ++ t) d.dropped ∙ sym (append_assoc (b ∷ bytes) d.front _);
      filled = d.filled;
      emptied = λ a l.
          d.emptied a.1 (omega (arith, l, ap length p, length-append (b ∷ bytes) (pending s')));
    }

drain_serial-Drained :
    (passes : List Pass) (s : BlockingSerial)
    → IsFilled s
    → Drained passes s (drain_serial passes s)
unfolding drain_serial
drain_serial-Drained [] s f = record {
  front = [];
  counted = refl;
  dropped = refl;
  filled = f;
  emptied = λ a l. absurd (omega arith);
}
drain_serial-Drained (timed_out ∷ passes) s f = record {
  front = [];
  counted = refl;
  dropped = refl;
  filled = f;
  emptied = λ a l. absurd a.0;
}
drain_serial-Drained (arrived ∷ passes) s f =
    Drained-step passes s (poll_read 1024 s) (poll_read-Read 1024 s f)
      (λ f'. drain_serial-Drained passes (poll_read 1024 s).1 f')

-- The port behind a drain has the rest of the line.
pub drain_serial-pending :
    (reads : Reads) (passes : List Pass)
    → let (n, port) = drain_serial passes (opened reads) in pending port ≡ drop n (brought reads)
drain_serial-pending reads passes =
    let d = drain_serial-Drained passes (opened reads) (reader_loop-IsFilled reads) in
    let port = (drain_serial passes (opened reads)).1 in
    sym (drop-length-append d.front (pending port))
    ∙ ap (λ t. drop (length d.front) t) (sym d.dropped ∙ pending-opened reads)
    ∙ ap (λ k. drop k (brought reads)) d.counted

-- Whenever the drain's window ends, with the number of bytes that drain_serial reports, the reads
-- behind it, into buffers with room and more of them than the line brings bytes, give exactly what
-- the line brings behind that number of bytes, and then the end of file.
pub drain_serial-poll_reads :
    (reads : Reads) (passes : List Pass) (rooms : List ℕ)
    → All (λ room. 0 < room) rooms
    → length (brought reads) < length rooms
    → let (n, port) = drain_serial passes (opened reads) in
      let (bytes, failure, last) = poll_reads rooms port in
      (n ≤ length (brought reads))
      × (bytes ≡ drop n (brought reads))
      × (failure ≡ some unexpected_eof)
drain_serial-poll_reads reads passes rooms a l =
    let d = drain_serial-Drained passes (opened reads) (reader_loop-IsFilled reads) in
    let (n, port) = drain_serial passes (opened reads) in
    let e = poll_reads-Delivered rooms port d.filled in
    let whole : brought reads ≡ d.front ++ pending port = sym (pending-opened reads) ∙ d.dropped in
    let size : length (brought reads) ≡ n + length (pending port) =
      omega (arith, ap length whole, length-append d.front (pending port), d.counted) in
    let stop = e.to_end a (omega (arith, size)) in
    (
      omega (arith, size),
      sym (append-nil _)
          ∙ ap (λ t. (poll_reads rooms port).0 ++ t) (sym (e.at_end stop).1)
          ∙ sym e.in_order
          ∙ sym (drop-length-append d.front (pending port))
          ∙ ap (λ t. drop (length d.front) t) (sym whole)
          ∙ ap (λ k. drop k (brought reads)) d.counted,
      stop,
    )

-- If the window is longer than the reads, all that the line brings is thrown away.
drain_serial-All :
    (reads : Reads) (passes : List Pass)
    → All IsArrived passes
    → length (brought reads) < length passes
    → pending (drain_serial passes (opened reads)).1 ≡ []
drain_serial-All reads passes a l =
    (drain_serial-Drained passes (opened reads) (reader_loop-IsFilled reads)).emptied a
      (rw (pending-opened reads) l)
