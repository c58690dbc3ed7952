-- ===== src/Server/Run/Typed.antt =====
-- Every byte that a session stores or sends fits the `u8` that the code keeps it in.
use drivewire_rs.Prelude.{ℕ, ◌<◌, refl, List, [], ◌∷◌, arith, All, IsByte, IsBytes, length}
use drivewire_rs.Prelude.Bytes.{append-All}
use drivewire_rs.Proto.Lsn.{Lsn}
use drivewire_rs.Proto.Opcode.{from_byte}
use drivewire_rs.Vdisk.{Sector}
use drivewire_rs.Server.Actions.{poll_one, poll_many, perform}
use drivewire_rs.Server.Actions.Valid.{IsValid, perform-IsValid}
use drivewire_rs.Server.Session.{World, ◌>>=◌, gets, send}
use drivewire_rs.Server.Session.Laws.{fed}
use drivewire_rs.Server.Handlers.{store_sector, poll_outbox, take_outbox, time_bytes}
use drivewire_rs.Server.Handlers.Bytes.{
  calendar, IsTypedWorld, poll-IsBytes, read_many-IsBytes, served-IsBytes, store-IsBytes,
  time_bytes-IsBytes,
}
use drivewire_rs.Server.Handlers.Typed.{
  push-IsTyped, extend-IsTyped, open-IsTyped, print-IsTyped, outboxes-IsTyped,
}
use drivewire_rs.Server.Handlers.Keeps.{
  Typed, rewired, Typed-send, Typed-modify, Typed-bind, Typed-receive, Typed-then, Typed-done,
}
use drivewire_rs.Server.Run.Rules.{Rules, dispatch-rule}
use drivewire_rs.Server.Run.Returns.{Returns, run_keeps}
use drivewire_rs.Server.Run.{turn, run}
use drivewire_rs.Server.Run.Framing.{turn-fed, turn-fed_nil}

outboxes-IsTypedWorld :
    (qs : List (List ℕ)) (w : World)
    → IsValid (record w.server { vserial_outbox = qs })
    → All IsBytes qs
    → IsTypedWorld w
    → IsTypedWorld (record w { server = record w.server { vserial_outbox = qs } })
outboxes-IsTypedWorld qs w v h t = record {
  server = outboxes-IsTyped qs w.server v h t.server;
  files = t.files;
  input = t.input;
  output = t.output;
  clock = t.clock;
}

Typed-polls : Typed (poll_outbox >>= λ reply. send reply)
unfolding poll_outbox perform
Typed-polls =
    Typed-then IsBytes poll_outbox _ _ (λ w. refl) (Unit {0}) (λ reply. send reply)
      (λ w t.
        let (a, b) =
          poll-IsBytes 0 w.server.vserial_outbox (omega (arith, t.server.valid.outboxes))
            t.server.outboxes in
        (a, outboxes-IsTypedWorld _ w (perform-IsValid poll_one w.server t.server.valid) b t))
      (λ reply h. Typed-send reply (h tt))

Typed-takes : (c n : ℕ) → Typed (take_outbox c n >>= λ bytes. send bytes)
unfolding take_outbox perform
Typed-takes c n =
    Typed-then IsBytes (take_outbox c n) _ _ (λ w. refl) (Unit {0}) (λ bytes. send bytes)
      (λ w t.
        let (a, b) = read_many-IsBytes c n w.server.vserial_outbox t.server.outboxes in
        (
          a,
          outboxes-IsTypedWorld _ w (perform-IsValid (poll_many c n) w.server t.server.valid) b t,
        ))
      (λ bytes h. Typed-send bytes (h tt))

Typed-stores :
    (slot : ℕ) (lsn : Lsn) (sector : Sector)
    → IsBytes sector
    → Typed (store_sector slot lsn sector >>= λ status. send (status ∷ []))
unfolding store_sector
Typed-stores slot lsn sector g =
    Typed-then IsByte (store_sector slot lsn sector) _ _ (λ w. refl) (Unit {0})
      (λ status. send (status ∷ []))
      (λ w t.
        let (a, b) = store-IsBytes w.server.drives w.files slot lsn sector t.files g in
        (
          a,
          record {
            server = t.server;
            files = b;
            input = t.input;
            output = t.output;
            clock = t.clock;
          },
        ))
      (λ status h. Typed-send (status ∷ []) (h tt, tt))

Typed-Rules : Rules (Unit {0}) (λ A m. Typed m)
unfolding gets
Typed-Rules = record {
  receives = Typed-receive;
  serves = λ B slot lsn f k.
      Typed-then IsBytes _ _ (λ w. w) (λ w. refl) B f
        (λ w t. (served-IsBytes w.server.drives w.files slot lsn t.files, t)) k;
  sends = λ xs g. Typed-send xs (g tt);
  sends_then = λ B xs f g k. Typed-bind (Typed-send xs (g tt)) (λ _. k);
  stops = Typed-done;
  pushes = λ c b g. Typed-modify _ (λ s t. push-IsTyped c b s (g tt) t);
  extends = λ c bs g. Typed-modify _ (λ s t. extend-IsTyped c bs s (g tt) t);
  opens = λ c flag. Typed-modify _ (λ s t. open-IsTyped c flag s t);
  prints = λ b g.
      Typed-modify _ (λ s t.
        print-IsTyped _ s (append-All IsByte s.print_buffer (b ∷ []) t.printed (g tt, tt)) t);
  flushes = Typed-modify _ (λ s t. print-IsTyped [] s tt t);
  polls = Typed-polls;
  takes = Typed-takes;
  stores = λ slot lsn sector g. Typed-stores slot lsn sector (g tt);
  tells_time =
      Typed-then (λ m. IsBytes (calendar m)) _ _ (λ w. w) (λ w. refl) (Unit {0})
        (λ m. send (time_bytes m)) (λ w t. (t.clock, t))
        (λ m h. Typed-send (time_bytes m) (time_bytes-IsBytes m (h tt)));
}

turn-fed-IsTypedWorld :
    (xs : List ℕ) (w : World) → IsTypedWorld (fed xs w) → IsTypedWorld (turn (fed xs w)).1
turn-fed-IsTypedWorld [] w t = rw (turn-fed_nil w) t
turn-fed-IsTypedWorld (b ∷ xs) w t = rw (turn-fed b xs w) (
    (dispatch-rule Unit (λ A m. Typed m) Typed-Rules (from_byte b)).keeps (fed xs w)
      (rewired (fed (b ∷ xs) w) _ _ _ t t.input.1 t.output))

pub turn-IsTypedWorld : (w : World) → IsTypedWorld w → IsTypedWorld (turn w).1
turn-IsTypedWorld w t = turn-fed-IsTypedWorld w.wire.input w t

-- In a world whose queues, printer buffer, files, stream and clock fields hold numbers below 256,
-- and whose server has its 16 channels, a session with fuel for one turn more than the input has
-- bytes returns, and all that it has sent and stored is below 256: no u8 of the code overflows.
pub run-IsTypedWorld :
    (fuel : ℕ) (w : World)
    → length w.wire.input < fuel
    → IsTypedWorld w
    → Returns IsTypedWorld (run fuel w)
run-IsTypedWorld fuel w h t = run_keeps IsTypedWorld turn-IsTypedWorld fuel w h t
