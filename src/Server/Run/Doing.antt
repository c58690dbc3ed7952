-- ===== src/Server/Run/Doing.antt =====
-- Actions that perform steps which their input decides: a rule for each way to build one.
use drivewire_rs.Prelude.{
  ℕ, ◌≡◌, refl, ◌∙◌, ap, Bool, true, false, List, [], ◌∷◌, arith, if◌then◌else◌, take, drop, length,
  ok,
}
use native.Mathlib.Decide.{dec_le}
use drivewire_rs.Io.{steady}
use drivewire_rs.Server.State.{Server}
use drivewire_rs.Server.Actions.{Action, perform, perform_all}
use drivewire_rs.Server.Session.{World, Session, ◌>>=◌, done, gets, modify, receive, send}
use drivewire_rs.Server.Session.Laws.{
  bind_of_ok, received, sent, send_steady, bind-receive_enough, bind-receive_short,
}
use drivewire_rs.Server.Session.Framed.{IsOk}

-- On a peer that takes every byte, an action that succeeds has performed the steps that its input says.
pub record Does (f : List ℕ → List Action) (m : Session (Unit {0})) : Type 0 where
  pub at :
      (w : World)
      → w.wire.sink ≡ steady
      → IsOk (m w).0
      → (m w).1.server ≡ perform_all (f w.wire.input) w.server

-- An action that reads nothing, cannot fail and performs these steps.
pub record Acts {ℓ} {A : Type ℓ} (acts : List Action) (m : Session A) : Type ℓ where
  pub at :
      (w : World)
      → w.wire.sink ≡ steady
      → (a : A) × (w' : World) × (m w ≡ (ok a, w'))
        × (w'.wire.sink ≡ steady)
        × (w'.server ≡ perform_all acts w.server)

module _ {acts : List Action} where
  pub Acts-Does : {m : Session (Unit {0})} → Acts acts m → Does (λ _. acts) m
  Acts-Does {m} p = record {
    at = λ w s h. let (a, w', e, s', q) = p.at w s in ap (λ r. r.1.server) e ∙ q;
  }

  pub Acts-then :
      {A : Type 0} {B : Type 0} {m : Session A} {f : A → Session B}
      → Acts acts m
      → ((a : A) → Acts [] (f a))
      → Acts acts (m >>= f)
  unfolding perform_all
  Acts-then {m = m} {f = f} p k = record {
    at = λ w s.
        let (a, w', e, s', q) = p.at w s in
        let (b, w'', e', s'', q') = (k a).at w' s' in
        (b, w'', bind_of_ok m f w e ∙ e', s'', q' ∙ q);
  }

  pub Does-still :
      {A : Type 0} {m : Session A} {f : A → Session (Unit {0})}
      → Acts [] m
      → ((a : A) → Does (λ _. acts) (f a))
      → Does (λ _. acts) (m >>= f)
  unfolding perform_all
  Does-still {m = m} {f = f} p k = record {
    at = λ w s.
        let (a, w', e, s', q) = p.at w s in
        rw (bind_of_ok m f w e) (λ h. (k a).at w' s' h ∙ ap (perform_all acts) q);
  }

pub Acts-gets : {A : Type 0} (f : World → A) → Acts [] (gets f)
unfolding gets perform_all
Acts-gets f = record { at = λ w s. (f w, w, refl, s, refl) }

pub Acts-send : (bytes : List ℕ) → Acts [] (send bytes)
unfolding perform_all
Acts-send bytes = record { at = λ w s. (tt, sent bytes w, send_steady bytes w s, s, refl) }

pub Acts-modify :
    (a : Action) (f : Server → Server)
    → ((s : Server) → f s ≡ perform a s)
    → Acts (a ∷ []) (modify f)
unfolding modify perform_all
Acts-modify a f e = record {
  at = λ w s. (tt, record w { server = f w.server }, refl, s, e w.server);
}

pub Does-done : Does (λ _. []) done
unfolding done perform_all
Does-done = record { at = λ w s h. refl }

pub Does-if :
    {f g : List ℕ → List Action} {m n : Session (Unit {0})} (b : Bool)
    → Does f m
    → Does g n
    → Does (λ xs. if b then f xs else g xs) (if b then m else n)
Does-if true p q = p
Does-if false p q = q

pub Does-either :
    {f : List ℕ → List Action} {m n : Session (Unit {0})} (b : Bool)
    → Does f m
    → Does f n
    → Does f (if b then m else n)
Does-either true p q = p
Does-either false p q = q

-- What is read decides, with what is left.
pub Does-receive :
    (n : ℕ) {g : List ℕ → List ℕ → List Action} {f : List ℕ → Session (Unit {0})}
    → ((xs : List ℕ) → Does (g xs) (f xs))
    → Does (λ xs. g (take n xs) (drop n xs)) (receive n >>= f)
Does-receive n {g} {f} k = record {
  at = λ w s. elim (dec_le n (length w.wire.input)) [
    | yes h ↦ rw (bind-receive_enough n f w h) ((k (take n w.wire.input)).at (received n w) s)
    | no h ↦ rw (bind-receive_short n f w (omega arith)) (λ o. absurd o)
  ];
}

pub Does-cast :
    {f g : List ℕ → List Action} {m : Session (Unit {0})}
    → ((xs : List ℕ) → f xs ≡ g xs)
    → Does f m
    → Does g m
Does-cast e p = record {
  at = λ w s h. p.at w s h ∙ ap (λ acts. perform_all acts w.server) (e w.wire.input);
}
