-- ===== src/Server/Run/Refinement.antt =====
-- A whole session against the steps of Server/Actions that its stream asks for.
use drivewire_rs.Prelude.{
  ℕ, zero, suc, ◌<◌, ◌≡◌, refl, ◌∙◌, sym, ap, subst, Option, some, ok, err, List, [], ◌∷◌, ◌++◌,
  arith, length, drop, leb, true, false, if◌then◌else◌,
}
use native.Mathlib.Decide.{dec_le}
use drivewire_rs.Prelude.Lists.{length-drop}
use drivewire_rs.Io.{steady}
use drivewire_rs.Proto.Opcode.{from_byte}
use drivewire_rs.Server.State.{Server}
use drivewire_rs.Server.Actions.{Action, perform_all}
use drivewire_rs.Server.Session.{World, ServerError, io}
use drivewire_rs.Server.Session.Laws.{fed}
use drivewire_rs.Server.Session.Framed.{IsOk}
use drivewire_rs.Server.Run.{turn, run, head_error}
use drivewire_rs.Server.Run.Framing.{payload_len, turn-fed, turn-fed_nil, turn_framing}
use drivewire_rs.Server.Run.Atomic.{turn_atomic}
use drivewire_rs.Server.Run.Performed.{perform_all-append}
use drivewire_rs.Server.Run.Asked.{asked, dispatch-Does}
use drivewire_rs.Server.Run.Ending.{run_of_ok, run_of_err}

-- The steps that a stream asks for, command by command: a last command without all of its payload asks
-- for nothing. The fuel is for one command each.
unfoldable pub asked_in : ℕ → List ℕ → List Action
asked_in zero xs = []
asked_in (suc fuel) [] = []
asked_in (suc fuel) (b ∷ xs) =
    let len = payload_len (from_byte b) xs in
    let later = asked_in fuel (drop len xs) in
    if leb len (length xs) then asked (from_byte b) xs ++ later else []

-- A session that returned, and did to the server these steps.
pub record IsRefined (steps : List Action) (s : Server) (out : Option (ServerError × World))
    : Type 0 where
  pub error : ServerError
  pub last : World
  pub returns : out ≡ some (error, last)
  pub performed : last.server ≡ perform_all steps s

pub turn-asked :
    (b : ℕ) (xs : List ℕ) (w : World)
    → w.wire.sink ≡ steady
    → (turn (fed (b ∷ xs) w)).0 ≡ ok tt
    → (turn (fed (b ∷ xs) w)).1.server ≡ perform_all (asked (from_byte b) xs) w.server
turn-asked b xs w s h =
    ap (λ r. r.1.server) (turn-fed b xs w)
    ∙ (dispatch-Does (from_byte b)).at (fed xs w) s
        (subst IsOk (sym (ap (λ r. r.0) (sym (turn-fed b xs w)) ∙ h)) tt)

fed-IsRefined :
    (fuel : ℕ) (xs : List ℕ) (w : World)
    → w.wire.sink ≡ steady
    → length xs < fuel
    → IsRefined (asked_in fuel xs) w.server (run fuel (fed xs w))
unfolding asked_in perform_all
fed-IsRefined zero xs w s h = absurd (omega arith)
fed-IsRefined (suc fuel) [] w s h = record {
  error = head_error (io w.wire.ending);
  last = fed [] w;
  returns = run_of_err fuel (fed [] w) (turn-fed_nil w);
  performed = refl;
}
fed-IsRefined (suc fuel) (b ∷ xs) w s h =
    let (left, stays, ends, enough, short) = turn_framing b xs w s in
    let after : World = (turn (fed (b ∷ xs) w)).1 in
    let len : ℕ = payload_len (from_byte b) xs in
    elim (dec_le len (length xs)) [
      | yes fits ↦
          let within : leb len (length xs) ≡ true = ground (arith, fits) in
          let ih : IsRefined (asked_in fuel (drop len xs)) after.server (run fuel after) =
            subst (λ ys. IsRefined (asked_in fuel ys) after.server (run fuel after)) left
              (fed-IsRefined fuel after.wire.input after stays
                (omega (arith, ap length left, length-drop len xs))) in
          rw within (record {
            error = ih.error;
            last = ih.last;
            returns = run_of_ok fuel (fed (b ∷ xs) w) (λ i. (enough fits i, after)) ∙ ih.returns;
            performed =
                ih.performed
                ∙ ap (perform_all (asked_in fuel (drop len xs))) (turn-asked b xs w s (enough fits))
                ∙ sym (
                    perform_all-append (asked (from_byte b) xs) (asked_in fuel (drop len xs))
                      w.server);
          })
      | no cut ↦
          let beyond : leb len (length xs) ≡ false = ground (arith, cut) in
          let e : (turn (fed (b ∷ xs) w)).0 ≡ err (io w.wire.ending) = short (omega arith) in
          rw beyond (record {
            error = io w.wire.ending;
            last = after;
            returns = run_of_err fuel (fed (b ∷ xs) w) (λ i. (e i, after));
            performed = (turn_atomic (fed (b ∷ xs) w) (io w.wire.ending) s e).server;
          })
    ]

-- On a peer that takes every byte, with fuel for one turn more than the input has bytes, a session
-- returns with an error, and its effect on the shared server is that of the steps that its input
-- asks for by the protocol, command by command and in order, each opcode's read off its own payload;
-- a last command that is cut off before the end of its payload has no effect.
pub run-IsRefined :
    (fuel : ℕ) (w : World)
    → w.wire.sink ≡ steady
    → length w.wire.input < fuel
    → IsRefined (asked_in fuel w.wire.input) w.server (run fuel w)
run-IsRefined fuel w s h = fed-IsRefined fuel w.wire.input w s h
