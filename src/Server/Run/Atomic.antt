-- ===== src/Server/Run/Atomic.antt =====
-- A command that fails on the way: no handler changes anything before it has its whole payload.
use drivewire_rs.Prelude.{
  ℕ, ◌≡◌, refl, ◌∙◌, List, [], ◌∷◌, arith, Result, ok, err, length, take, inl, inr, ◌⊎◌, ◌++◌,
}
use native.Mathlib.Decide.{dec_le}
use drivewire_rs.Io.{steady, write_all}
use drivewire_rs.Proto.Opcode.{from_byte}
use drivewire_rs.Server.Session.{World, ServerError, Session, ◌>>=◌, gets, receive, send}
use drivewire_rs.Server.Session.Laws.{
  fed, bind_of_ok, received, bind-receive_enough, bind-receive_short,
}
use drivewire_rs.Server.Session.Framed.{
  IsOk, Quiet, Quiet-done, Quiet-gets, Quiet-modify, Quiet-send, Quiet-bind,
}
use drivewire_rs.Server.Handlers.Framing.{Quiet-store_sector, Quiet-poll_outbox, Quiet-take_outbox}
use drivewire_rs.Server.Run.Rules.{Rules, dispatch-rule}
use drivewire_rs.Server.Run.{dispatch, turn}
use drivewire_rs.Server.Run.Framing.{turn-fed, turn-fed_nil}

-- Nothing but the stream is touched.
pub record IsUntouched (w w' : World) : Type 0 where
  pub server : w'.server ≡ w.server
  pub files : w'.files ≡ w.files

-- On a peer that takes every byte the action succeeds, or touches nothing but the stream.
record Atomic {ℓ} {A : Type ℓ} (m : Session A) : Type ℓ where
  at : (w : World) → w.wire.sink ≡ steady → IsOk (m w).0 ⊎ IsUntouched w (m w).1

-- The action succeeds and touches nothing but the stream.
record Still {ℓ} {A : Type ℓ} (m : Session A) : Type ℓ where
  at :
      (w : World)
      → w.wire.sink ≡ steady
      → (a : A) × (w' : World) × (m w ≡ (ok a, w')) × (w'.wire.sink ≡ steady) × IsUntouched w w'

Quiet-Atomic {ℓ} : {A : Type ℓ} {m : Session A} → Quiet m → Atomic m
Quiet-Atomic q = record { at = λ w s. let (a, w', e, i, k, d) = q.at w s in inl (rw e tt) }

Still-gets {ℓ} : {A : Type ℓ} (f : World → A) → Still (gets f)
unfolding gets
Still-gets f = record { at = λ w s. (f w, w, refl, s, record { server = refl; files = refl }) }

Still-send : (bytes : List ℕ) → Still (send bytes)
unfolding send write_all
Still-send bytes = record {
  at = λ w s. (
    tt,
    record w { wire = record w.wire { output = w.wire.output ++ bytes } },
    rw s,
    s,
    record { server = refl; files = refl },
  );
}

untouched-trans : {u v w : World} → IsUntouched u v → IsUntouched v w → IsUntouched u w
untouched-trans p q = record { server = q.server ∙ p.server; files = q.files ∙ p.files }

after-IsUntouched {ℓ} :
    {B : Type ℓ} (w w' : World) (r : Result ServerError B × World)
    → IsUntouched w w'
    → IsOk r.0 ⊎ IsUntouched w' r.1
    → IsOk r.0 ⊎ IsUntouched w r.1
after-IsUntouched w w' r u (inl o) = inl o
after-IsUntouched w w' r u (inr v) = inr (untouched-trans u v)

Atomic-Still {ℓ κ} :
    {A : Type ℓ} {B : Type κ} {m : Session A} {f : A → Session B}
    → Still m
    → ((a : A) → Atomic (f a))
    → Atomic (m >>= f)
Atomic-Still {m = m} {f = f} st k = record {
  at = λ w s.
      let (a, w', e, s', u) = st.at w s in
      rw (bind_of_ok m f w e) (after-IsUntouched w w' (f a w') u ((k a).at w' s'));
}

Atomic-receive {κ} :
    {B : Type κ} (n : ℕ) {f : List ℕ → Session B}
    → ((bytes : List ℕ) → Atomic (f bytes))
    → Atomic (receive n >>= f)
Atomic-receive n {f} k = record {
  at = λ w s. elim (dec_le n (length w.wire.input)) [
    | yes h ↦
        let xs : List ℕ = take n w.wire.input in
        rw (bind-receive_enough n f w h) (
          after-IsUntouched w (received n w) (f xs (received n w))
            (record { server = refl; files = refl }) ((k xs).at (received n w) s))
    | no h ↦
        rw (bind-receive_short n f w (omega arith)) (inr (record { server = refl; files = refl }))
  ];
}

Atomic-Rules : Rules ⊥ (λ A m. Atomic m)
Atomic-Rules = record {
  receives = λ B n f k. Atomic-receive n (λ xs. k xs (λ t. absurd t));
  serves = λ B slot lsn f k. Atomic-Still (Still-gets _) (λ sector. k sector (λ t. absurd t));
  sends = λ xs g. Quiet-Atomic (Quiet-send xs);
  sends_then = λ B xs f g k. Atomic-Still (Still-send xs) (λ _. k);
  stops = Quiet-Atomic Quiet-done;
  pushes = λ c b g. Quiet-Atomic (Quiet-modify _);
  extends = λ c bs g. Quiet-Atomic (Quiet-modify _);
  opens = λ c flag. Quiet-Atomic (Quiet-modify _);
  prints = λ b g. Quiet-Atomic (Quiet-modify _);
  flushes = Quiet-Atomic (Quiet-modify _);
  polls = Quiet-Atomic (Quiet-bind Quiet-poll_outbox (λ reply. Quiet-send reply));
  takes = λ c n. Quiet-Atomic (Quiet-bind (Quiet-take_outbox c n) (λ bytes. Quiet-send bytes));
  stores = λ slot lsn sector g.
      Quiet-Atomic (Quiet-bind (Quiet-store_sector slot lsn sector) (λ status. Quiet-send _));
  tells_time = Quiet-Atomic (Quiet-bind (Quiet-gets _) (λ m. Quiet-send _));
}

untouched_of_err :
    (w : World) (r : Result ServerError (Unit {0}) × World) (e : ServerError)
    → IsOk r.0 ⊎ IsUntouched w r.1
    → r.0 ≡ err e
    → IsUntouched w r.1
untouched_of_err w (ok _, v) e p h = cc
untouched_of_err w (err x, v) e (inl o) h = absurd o
untouched_of_err w (err x, v) e (inr u) h = u

turn_atomic_fed :
    (xs : List ℕ) (w : World)
    → w.wire.sink ≡ steady
    → IsOk (turn (fed xs w)).0 ⊎ IsUntouched w (turn (fed xs w)).1
turn_atomic_fed [] w s = rw (turn-fed_nil w) (inr (record { server = refl; files = refl }))
turn_atomic_fed (b ∷ xs) w s = rw (turn-fed b xs w) (
    after-IsUntouched w (fed xs w) (dispatch (from_byte b) (fed xs w))
      (record { server = refl; files = refl })
      ((dispatch-rule ⊥ (λ A m. Atomic m) Atomic-Rules (from_byte b)).at (fed xs w) s))

-- On a peer that takes every byte, a turn of the session loop that ends with an error has changed
-- neither the shared server nor a file: no handler does a part of its command.
pub turn_atomic :
    (w : World) (e : ServerError)
    → w.wire.sink ≡ steady
    → (turn w).0 ≡ err e
    → IsUntouched w (turn w).1
turn_atomic w e s h = untouched_of_err w (turn w) e (turn_atomic_fed w.wire.input w s) h
