-- ===== src/Server/Run/Returns.antt =====
-- The loop on any peer, also one that stops taking bytes: no action gives input back.
use drivewire_rs.Prelude.{
  ℕ, zero, suc, ◌≤◌, ◌<◌, ◌≡◌, ◌≢◌, refl, ap, Option, none, some, List, [], ◌∷◌, arith, Result, ok,
  err, length,
}
use native.Mathlib.Decide.{dec_le}
use drivewire_rs.Prelude.Lists.{length-drop}
use drivewire_rs.Io.{Sink, steady, limited, write_to, write_all}
use drivewire_rs.Proto.Opcode.{from_byte}
use drivewire_rs.Server.State.{Server}
use drivewire_rs.Server.Session.{
  World, ServerError, io, Session, and_then, ◌>>=◌, done, gets, modify, lift_io, receive, send,
}
use drivewire_rs.Server.Session.Laws.{fed, receive_enough, receive_short}
use drivewire_rs.Server.Handlers.{store_sector, poll_outbox, take_outbox}
use drivewire_rs.Server.Run.Rules.{Rules, dispatch-rule}
use drivewire_rs.Server.Run.{head_error, turn, next, run}
use drivewire_rs.Server.Run.Framing.{turn-fed, turn-fed_nil}
use drivewire_rs.Server.Run.Ending.{run_of_err}

-- No input comes back.
record Shrinks {ℓ} {A : Type ℓ} (m : Session A) : Type 0 where
  shrinks : (w : World) → length (m w).1.wire.input ≤ length w.wire.input

module _ {ℓ κ} {A : Type ℓ} {B : Type κ} where
  and_then-Shrinks :
      (n : ℕ) (f : A → Session B) (r : Result ServerError A × World)
      → length r.1.wire.input ≤ n
      → ((a : A) → Shrinks (f a))
      → length (and_then f r).1.wire.input ≤ n
  unfolding and_then
  and_then-Shrinks n f (ok a, w) h k = let below = (k a).shrinks w in omega (arith, below)
  and_then-Shrinks n f (err e, w) h k = h

  Shrinks-bind :
      {m : Session A} {f : A → Session B}
      → Shrinks m
      → ((a : A) → Shrinks (f a))
      → Shrinks (m >>= f)
  unfolding ◌>>=◌
  Shrinks-bind {m} {f} h k = record {
    shrinks = λ w. and_then-Shrinks (length w.wire.input) f (m w) (h.shrinks w) k;
  }

-- Actions that leave the stream alone.
Shrinks-same :
    {A : Type 0} {m : Session A} → ((w : World) → (m w).1.wire.input ≡ w.wire.input) → Shrinks m
Shrinks-same e = record { shrinks = λ w. omega (arith, ap length (e w)) }

Shrinks-receive : (n : ℕ) → Shrinks (receive n)
Shrinks-receive n = record {
  shrinks = λ w. elim (dec_le n (length w.wire.input)) [
    | yes h ↦ rw (receive_enough n w h) (omega (arith, length-drop n w.wire.input))
    | no h ↦ rw (receive_short n w (omega arith)) (omega arith)
  ];
}

write_to_lem :
    (k : Sink) (bytes : List ℕ) (w : World)
    → (lift_io w (write_to k bytes w.wire)).1.wire.input ≡ w.wire.input
unfolding write_to lift_io
write_to_lem steady bytes w = refl
write_to_lem (limited n kind) bytes w = ground arith

Shrinks-send : (bytes : List ℕ) → Shrinks (send bytes)
unfolding send write_all
Shrinks-send bytes = Shrinks-same λ w. write_to_lem w.wire.sink bytes w

Shrinks-modify : (f : Server → Server) → Shrinks (modify f)
unfolding modify
Shrinks-modify f = Shrinks-same λ w. refl

Shrinks-gets : {A : Type 0} (f : World → A) → Shrinks (gets f)
unfolding gets
Shrinks-gets f = Shrinks-same λ w. refl

Shrinks-done : Shrinks done
unfolding done
Shrinks-done = Shrinks-same λ w. refl

Shrinks-Rules : Rules ⊥ (λ A m. Shrinks m)
unfolding store_sector poll_outbox take_outbox
Shrinks-Rules = record {
  receives = λ B n f k. Shrinks-bind (Shrinks-receive n) (λ xs. k xs (λ t. absurd t));
  serves = λ B slot lsn f k. Shrinks-bind (Shrinks-gets _) (λ sector. k sector (λ t. absurd t));
  sends = λ xs g. Shrinks-send xs;
  sends_then = λ B xs f g k. Shrinks-bind (Shrinks-send xs) (λ _. k);
  stops = Shrinks-done;
  pushes = λ c b g. Shrinks-modify _;
  extends = λ c bs g. Shrinks-modify _;
  opens = λ c flag. Shrinks-modify _;
  prints = λ b g. Shrinks-modify _;
  flushes = Shrinks-modify _;
  polls = Shrinks-bind (Shrinks-same λ w. refl) (λ reply. Shrinks-send reply);
  takes = λ c n. Shrinks-bind (Shrinks-same λ w. refl) (λ bytes. Shrinks-send bytes);
  stores = λ slot lsn sector g. Shrinks-bind (Shrinks-same λ w. refl) (λ status. Shrinks-send _);
  tells_time = Shrinks-bind (Shrinks-gets _) (λ m. Shrinks-send _);
}

-- A turn leaves less input than it finds, if it finds any.
turn-fed-Shrinks :
    (b : ℕ) (xs : List ℕ) (w : World) → length (turn (fed (b ∷ xs) w)).1.wire.input ≤ length xs
turn-fed-Shrinks b xs w =
    let below =
      (dispatch-rule ⊥ (λ A m. Shrinks m) Shrinks-Rules (from_byte b)).shrinks (fed xs w) in
    rw (turn-fed b xs w) (omega (arith, below))

-- A result of the loop, whose last world is such.
pub record Returns (I : World → Type 0) (out : Option (ServerError × World)) : Type 0 where
  pub error : ServerError
  pub last : World
  pub returned : out ≡ some (error, last)
  pub holds : I last

module _ (I : World → Type 0) (turn_keeps : (w : World) → I w → I (turn w).1) where
  next_keeps :
      (loop : World → Option (ServerError × World)) (r : Result ServerError (Unit {0}) × World)
      → I r.1
      → Returns I (loop r.1)
      → Returns I (next loop r)
  unfolding next
  next_keeps loop (ok _, w) i h = h
  next_keeps loop (err e, w) i h = record { error = e; last = w; returned = refl; holds = i }

  run-fed_keeps :
      (fuel : ℕ) (xs : List ℕ) (w : World)
      → length xs < fuel
      → I (fed xs w)
      → Returns I (run fuel (fed xs w))
  unfolding run
  run-fed_keeps zero xs w h i = absurd (omega arith)
  run-fed_keeps (suc fuel) [] w h i = record {
    error = head_error (io w.wire.ending);
    last = fed [] w;
    returned = run_of_err fuel (fed [] w) (turn-fed_nil w);
    holds = i;
  }
  run-fed_keeps (suc fuel) (b ∷ xs) w h i =
      let after = (turn (fed (b ∷ xs) w)).1 in
      let i' = turn_keeps (fed (b ∷ xs) w) i in
      next_keeps (λ v. run fuel v) (turn (fed (b ∷ xs) w)) i'
        (run-fed_keeps fuel after.wire.input after (omega (arith, turn-fed-Shrinks b xs w)) i')

  -- With fuel for one turn more than the input has bytes, the loop returns, and keeps what each turn
  -- keeps.
  pub run_keeps : (fuel : ℕ) (w : World) → length w.wire.input < fuel → I w → Returns I (run fuel w)
  run_keeps fuel w h i = run-fed_keeps fuel w.wire.input w h i

-- Whatever the peer sends, and wherever it stops taking bytes, a session returns with fuel for one
-- turn more than the input has bytes.
pub run-returns : (fuel : ℕ) (w : World) → length w.wire.input < fuel → run fuel w ≢ none
run-returns fuel w h e =
    let r = run_keeps (λ _. Unit {0}) (λ _ _. tt) fuel w h tt in cc (e, r.returned)
