-- ===== src/Server/Session/Framed.antt =====
-- How many bytes of its input an action takes: a predicate with a rule for each way to build one.
use drivewire_rs.Prelude.{
  ℕ, ◌+◌, ◌≤◌, ◌<◌, ◌≡◌, refl, ◌∙◌, sym, List, ◌++◌, arith, Result, ok, err, length, take, drop,
}
use drivewire_rs.Prelude.Lists.{drop_all, drop-drop, length-drop}
use mathlib.Core.Path.{subst₂}
use native.Mathlib.Decide.{dec_le}
use drivewire_rs.Io.{IoKind, steady, write_all}
use drivewire_rs.Server.State.{Server}
use drivewire_rs.Server.Session.Laws.{bind_of_ok, received, bind-receive_enough, bind-receive_short}
use drivewire_rs.Server.Session.{
  World, ServerError, io, Session, ◌>>=◌, done, gets, modify, receive, send,
}

abbrev pub IsOk {ℓ} : {A : Type ℓ} → Result ServerError A → Type 0
IsOk (ok a) = Unit
IsOk (err e) = ⊥

-- From an input that ends so, a result comes with exactly `n` bytes taken, or with all of them taken
-- and the error of a short read.
pub record Frame {ℓ} {A : Type ℓ} (n : ℕ) (input : List ℕ) (ending : IoKind)
    (r : Result ServerError A × World) : Type ℓ where
  pub stays : r.1.wire.sink ≡ steady
  pub ends : r.1.wire.ending ≡ ending
  pub rest : r.1.wire.input ≡ drop n input
  pub enough : n ≤ length input → IsOk r.0
  pub short : length input < n → r.0 ≡ err (io ending)

-- On a peer that takes every byte, the action takes a number of bytes that the input decides.
pub record Framed {ℓ} {A : Type ℓ} (len : List ℕ → ℕ) (m : Session A) : Type ℓ where
  pub at :
      (w : World) → w.wire.sink ≡ steady → Frame (len w.wire.input) w.wire.input w.wire.ending (m w)

-- The action reads nothing and cannot fail.
pub record Quiet {ℓ} {A : Type ℓ} (m : Session A) : Type ℓ where
  pub at :
      (w : World)
      → w.wire.sink ≡ steady
      → (a : A) × (w' : World) × (m w ≡ (ok a, w'))
        × (w'.wire.input ≡ w.wire.input)
        × (w'.wire.sink ≡ steady)
        × (w'.wire.ending ≡ w.wire.ending)

module _ {ℓ} {A : Type ℓ} where
  pub Quiet-Framed : {m : Session A} → Quiet m → Framed (λ _. 0) m
  Quiet-Framed q = record {
    at = λ w s.
        let (a, w', e, i, k, d) = q.at w s in
        rw e (record {
          stays = k;
          ends = d;
          rest = i;
          enough = λ _. tt;
          short = λ h. absurd (omega arith);
        });
  }

  pub Quiet-gets : (f : World → A) → Quiet (gets f)
  unfolding gets
  Quiet-gets f = record { at = λ w s. (f w, w, refl, refl, s, refl) }

pub Quiet-done : Quiet done
unfolding done
Quiet-done = record { at = λ w s. (tt, w, refl, refl, s, refl) }

pub Quiet-modify : (f : Server → Server) → Quiet (modify f)
unfolding modify
Quiet-modify f = record { at = λ w s. (tt, record w { server = f w.server }, refl, refl, s, refl) }

pub Quiet-send : (bytes : List ℕ) → Quiet (send bytes)
unfolding send write_all
Quiet-send bytes = record {
  at = λ w s. (
    tt,
    record w { wire = record w.wire { output = w.wire.output ++ bytes } },
    rw s,
    refl,
    s,
    refl,
  );
}

module _ {ℓ κ} {A : Type ℓ} {B : Type κ} where
  pub Quiet-bind :
      {m : Session A} {f : A → Session B} → Quiet m → ((a : A) → Quiet (f a)) → Quiet (m >>= f)
  unfolding ◌>>=◌
  Quiet-bind {m} {f} q k = record {
    at = λ w s.
        let (a, w', e, i, s', d) = q.at w s in
        let (b, w'', e', i', s'', d') = (k a).at w' s' in
        (b, w'', bind_of_ok m f w e ∙ e', i' ∙ i, s'', d' ∙ d);
  }

  pub Framed-Quiet :
      {len : List ℕ → ℕ} {m : Session A} {f : A → Session B}
      → Quiet m
      → ((a : A) → Framed len (f a))
      → Framed len (m >>= f)
  Framed-Quiet {len} {m} {f} q k = record {
    at = λ w s.
        let (a, w', e, i, s', d) = q.at w s in
        rw (bind_of_ok m f w e)
          (subst₂ (λ xs x. Frame (len xs) xs x (f a w')) i d ((k a).at w' s'));
  }

module _ {κ} {B : Type κ} where
  Frame-after :
      (n : ℕ) (len : List ℕ → List ℕ → ℕ) (w : World) {r : Result ServerError B × World}
      → n ≤ length w.wire.input
      → Frame
          (len (take n w.wire.input) (drop n w.wire.input))
          (drop n w.wire.input)
          w.wire.ending
          r
      → Frame (n + len (take n w.wire.input) (drop n w.wire.input)) w.wire.input w.wire.ending r
  Frame-after n len w h fr = record {
    stays = fr.stays;
    ends = fr.ends;
    rest = fr.rest ∙ drop-drop n _ w.wire.input;
    enough = λ g. fr.enough (omega (arith, length-drop n w.wire.input));
    short = λ g. fr.short (omega (arith, length-drop n w.wire.input));
  }

  pub Framed-receive :
      (n : ℕ) (len : List ℕ → List ℕ → ℕ) (f : List ℕ → Session B)
      → ((bytes : List ℕ) → Framed (len bytes) (f bytes))
      → Framed (λ xs. n + len (take n xs) (drop n xs)) (receive n >>= f)
  Framed-receive n len f k = record {
    at = λ w s. elim (dec_le n (length w.wire.input)) [
      | yes h ↦
          rw (bind-receive_enough n f w h)
            (Frame-after n len w h ((k (take n w.wire.input)).at (received n w) s))
      | no h ↦ rw (bind-receive_short n f w (omega arith)) (record {
        stays = s;
        ends = refl;
        rest = sym (drop_all _ w.wire.input (omega arith));
        enough = λ g. absurd (omega arith);
        short = λ g. refl;
      })
    ];
  }
