-- ===== src/Server/Run/Ending.antt =====
-- How a session ends: the loop uses up its input, and its error says where the input broke off.
use drivewire_rs.Prelude.{
  ℕ, zero, suc, ◌≤◌, ◌<◌, ◌≡◌, refl, ◌∙◌, ap, List, [], ◌∷◌, arith, Option, some, ok, err, drop,
  length,
}
use native.Mathlib.Decide.{dec_le}
use drivewire_rs.Prelude.Lists.{length-drop, drop_all}
use drivewire_rs.Io.{IoKind, unexpected_eof, other_kind, steady}
use drivewire_rs.Proto.Opcode.{from_byte}
use drivewire_rs.Server.Session.{World, ServerError, eof, io}
use drivewire_rs.Server.Session.Laws.{fed}
use drivewire_rs.Server.Run.{turn, next, run, head_error}
use drivewire_rs.Server.Run.Framing.{payload_len, turn_framing, turn-fed_nil}

-- A stream of whole commands: each opcode with all of its payload.
pub data IsWhole : List ℕ → Type 0 where
  nil : IsWhole []
  command :
      {b : ℕ} {xs rest : List ℕ}
      → payload_len (from_byte b) xs ≤ length xs
      → rest ≡ drop (payload_len (from_byte b) xs) xs
      → IsWhole rest
      → IsWhole (b ∷ xs)

IsWhole-cons :
    (b : ℕ) (xs : List ℕ)
    → IsWhole (b ∷ xs)
    → (payload_len (from_byte b) xs ≤ length xs) × IsWhole (drop (payload_len (from_byte b) xs) xs)
IsWhole-cons b xs (command h e t) = (h, rw (← e) t)

-- The error of a session whose stream ends between two commands.
abbrev pub clean_error : IoKind → ServerError
clean_error unexpected_eof = eof
clean_error (other_kind code) = io (other_kind code)

head_error_lem : (kind : IoKind) → head_error (io kind) ≡ clean_error kind
unfolding head_error
head_error_lem unexpected_eof = refl
head_error_lem (other_kind code) = refl

-- What `run` returns on an input that ends so.
pub record Ends (input : List ℕ) (ending : IoKind) (out : Option (ServerError × World))
    : Type 0 where
  pub error : ServerError
  pub last : World
  pub returns : out ≡ some (error, last)
  pub all_read : last.wire.input ≡ []
  pub whole : IsWhole input → error ≡ clean_error ending
  pub broken : ¬ IsWhole input → error ≡ io ending

module _ (fuel : ℕ) (w : World) {w' : World} where
  pub run_of_ok : turn w ≡ (ok tt, w') → run (suc fuel) w ≡ run fuel w'
  unfolding run
  run_of_ok e = ap (next (λ v. run fuel v)) e

  pub run_of_err : {e : ServerError} → turn w ≡ (err e, w') → run (suc fuel) w ≡ some (e, w')
  unfolding run
  run_of_err h = ap (next (λ v. run fuel v)) h

-- A world is one with its own input.
Ends-run :
    (fuel : ℕ) (xs : List ℕ) (w : World)
    → w.wire.sink ≡ steady
    → length xs < fuel
    → Ends xs w.wire.ending (run fuel (fed xs w))
Ends-run zero xs w s h = absurd (omega arith)
Ends-run (suc fuel) [] w s h = record {
  error = head_error (io w.wire.ending);
  last = fed [] w;
  returns = run_of_err fuel (fed [] w) (turn-fed_nil w);
  all_read = refl;
  whole = λ _. head_error_lem w.wire.ending;
  broken = λ no. absurd (no nil);
}
Ends-run (suc fuel) (b ∷ xs) w s h =
    let (left, stays, ends, enough, short) = turn_framing b xs w s in
    elim (dec_le (payload_len (from_byte b) xs) (length xs)) [
      | yes fits ↦
          let after : World = (turn (fed (b ∷ xs) w)).1 in
          let rest : List ℕ = drop (payload_len (from_byte b) xs) xs in
          let ih : Ends after.wire.input after.wire.ending (run fuel after) =
            Ends-run fuel after.wire.input after stays
              (omega (arith, ap length left, length-drop (payload_len (from_byte b) xs) xs)) in
          record {
            error = ih.error;
            last = ih.last;
            returns = run_of_ok fuel (fed (b ∷ xs) w) (λ i. (enough fits i, after)) ∙ ih.returns;
            all_read = ih.all_read;
            whole = λ wh. ih.whole (rw left (IsWhole-cons b xs wh).1) ∙ ap clean_error ends;
            broken = λ no. ih.broken (λ wh. no (command fits refl (rw left at wh))) ∙ ap io ends;
          }
      | no cut ↦ record {
        error = io w.wire.ending;
        last = (turn (fed (b ∷ xs) w)).1;
        returns =
            run_of_err fuel (fed (b ∷ xs) w)
              (λ i. (short (omega arith) i, (turn (fed (b ∷ xs) w)).1));
        all_read = left ∙ drop_all _ xs (omega arith);
        whole = λ wh. absurd (cut (IsWhole-cons b xs wh).0);
        broken = λ _. refl;
      }
    ]

-- On a peer that takes every byte, with fuel for one turn more than the input has bytes, a session
-- ends with all input read; its error is that of the end of the stream, Eof for an end of file, if
-- the input is a sequence of whole commands, and that of a short read if it is not.
pub run-Ends :
    (fuel : ℕ) (w : World)
    → w.wire.sink ≡ steady
    → length w.wire.input < fuel
    → Ends w.wire.input w.wire.ending (run fuel w)
run-Ends fuel w s h = Ends-run fuel w.wire.input w s h
