-- ===== src/Server/Run/Performed.antt =====
-- What a session does to the shared server is a list of the steps of Server/Actions.
use drivewire_rs.Prelude.{
  ℕ, ◌≡◌, refl, ◌∙◌, sym, ap, List, [], ◌∷◌, ◌++◌, arith, Result, ok, err, length,
}
use native.Mathlib.Decide.{dec_le}
use drivewire_rs.Io.{Sink, steady, limited, write_to, write_all}
use drivewire_rs.Proto.Opcode.{from_byte}
use drivewire_rs.Server.State.{Server}
use drivewire_rs.Server.Actions.{
  Action, write, write_many, poll_one, poll_many, open_channel, print_byte, print_flush, perform,
  perform_all,
}
use drivewire_rs.Server.Session.{
  World, ServerError, Session, and_then, ◌>>=◌, done, gets, modify, lift_io, receive, send, at,
}
use drivewire_rs.Server.Session.Laws.{receive_enough, receive_short}
use drivewire_rs.Server.Handlers.{store_sector, poll_outbox, take_outbox}
use drivewire_rs.Server.Run.Rules.{Rules, dispatch-rule}
use drivewire_rs.Server.Run.{head_result, receive_opcode, turn}

-- The server after a list of steps.
pub record IsPerformed (s s' : Server) : Type 0 where
  pub actions : List Action
  pub performed : s' ≡ perform_all actions s

pub perform_all-append :
    (xs ys : List Action) (s : Server)
    → perform_all (xs ++ ys) s ≡ perform_all ys (perform_all xs s)
unfolding perform_all
perform_all-append [] ys s = refl
perform_all-append (a ∷ xs) ys s = perform_all-append xs ys (perform a s)

pub none-IsPerformed : (s s' : Server) → s' ≡ s → IsPerformed s s'
unfolding perform_all
none-IsPerformed s s' e = record { actions = []; performed = e }

pub IsPerformed-trans : {s t u : Server} → IsPerformed s t → IsPerformed t u → IsPerformed s u
IsPerformed-trans {s} p q = record {
  actions = p.actions ++ q.actions;
  performed =
      q.performed
      ∙ ap (perform_all q.actions) p.performed
      ∙ sym (perform_all-append p.actions q.actions s);
}

pub record Performs {ℓ} {A : Type ℓ} (m : Session A) : Type 0 where
  pub performs : (w : World) → IsPerformed w.server (m w).1.server

module _ {ℓ κ} {A : Type ℓ} {B : Type κ} where
  and_then-IsPerformed :
      (s : Server) (f : A → Session B) (r : Result ServerError A × World)
      → IsPerformed s r.1.server
      → ((a : A) → Performs (f a))
      → IsPerformed s (and_then f r).1.server
  unfolding and_then
  and_then-IsPerformed s f (ok a, w) p k = IsPerformed-trans p ((k a).performs w)
  and_then-IsPerformed s f (err e, w) p k = p

  Performs-bind :
      {m : Session A} {f : A → Session B}
      → Performs m
      → ((a : A) → Performs (f a))
      → Performs (m >>= f)
  unfolding ◌>>=◌
  Performs-bind {m} {f} h k = record {
    performs = λ w. and_then-IsPerformed w.server f (m w) (h.performs w) k;
  }

-- Actions that leave the server alone, and those that are one step.
Performs-none :
    {A : Type 0} {m : Session A} → ((w : World) → (m w).1.server ≡ w.server) → Performs m
Performs-none e = record { performs = λ w. none-IsPerformed w.server _ (e w) }

Performs-one :
    {A : Type 0} {m : Session A} (a : Action)
    → ((w : World) → (m w).1.server ≡ perform a w.server)
    → Performs m
unfolding perform_all
Performs-one a e = record { performs = λ w. record { actions = a ∷ []; performed = e w } }

Performs-receive : (n : ℕ) → Performs (receive n)
Performs-receive n = Performs-none λ w. elim (dec_le n (length w.wire.input)) [
  | yes h ↦ rw (receive_enough n w h)
  | no h ↦ rw (receive_short n w (omega arith))
]

write_to_lem :
    (k : Sink) (bytes : List ℕ) (w : World)
    → (lift_io w (write_to k bytes w.wire)).1.server ≡ w.server
unfolding write_to lift_io
write_to_lem steady bytes w = refl
write_to_lem (limited n kind) bytes w = ground arith

Performs-send : (bytes : List ℕ) → Performs (send bytes)
unfolding send write_all
Performs-send bytes = Performs-none λ w. write_to_lem w.wire.sink bytes w

Performs-modify :
    (a : Action) (f : Server → Server) → ((s : Server) → f s ≡ perform a s) → Performs (modify f)
unfolding modify
Performs-modify a f e = Performs-one a λ w. e w.server

Performs-gets : {A : Type 0} (f : World → A) → Performs (gets f)
unfolding gets
Performs-gets f = Performs-none λ w. refl

Performs-done : Performs done
unfolding done
Performs-done = Performs-none λ w. refl

Performs-Rules : Rules ⊥ (λ A m. Performs m)
unfolding store_sector poll_outbox take_outbox perform
Performs-Rules = record {
  receives = λ B n f k. Performs-bind (Performs-receive n) (λ xs. k xs (λ t. absurd t));
  serves = λ B slot lsn f k. Performs-bind (Performs-gets _) (λ sector. k sector (λ t. absurd t));
  sends = λ xs g. Performs-send xs;
  sends_then = λ B xs f g k. Performs-bind (Performs-send xs) (λ _. k);
  stops = Performs-done;
  pushes = λ c b g. Performs-modify (write c b) _ (λ s. refl);
  extends = λ c bs g. Performs-modify (write_many c bs) _ (λ s. refl);
  opens = λ c flag. Performs-modify (open_channel c flag) _ (λ s. refl);
  prints = λ b g. Performs-modify (print_byte b) _ (λ s. refl);
  flushes = Performs-modify print_flush _ (λ s. refl);
  polls = Performs-bind (Performs-one poll_one λ w. refl) (λ reply. Performs-send reply);
  takes =
      λ c n. Performs-bind (Performs-one (poll_many c n) λ w. refl) (λ bytes. Performs-send bytes);
  stores = λ slot lsn sector g. Performs-bind (Performs-none λ w. refl) (λ status. Performs-send _);
  tells_time = Performs-bind (Performs-gets _) (λ m. Performs-send _);
}

head_result-server :
    (r : Result ServerError (List ℕ) × World) → (head_result r).1.server ≡ r.1.server
unfolding head_result
head_result-server (ok b, w) = refl
head_result-server (err e, w) = refl

pub turn-Performs : Performs turn
unfolding turn receive_opcode
turn-Performs =
    Performs-bind
      (record {
        performs = λ w. rw (head_result-server (receive 1 w)) ((Performs-receive 1).performs w);
      })
      λ byte. dispatch-rule ⊥ (λ A m. Performs m) Performs-Rules (from_byte (at byte 0))
