-- ===== src/Server/Session/Laws.antt =====
-- How the actions of a session run on.
use drivewire_rs.Prelude.{ℕ, ◌≤◌, ◌<◌, ◌≡◌, ap, List, ◌++◌, ok, err, length, take, drop, []}
use drivewire_rs.Io.{steady, taken, read_exact, write_all}
use drivewire_rs.Io.Laws.{split_exact_enough, split_exact_short}
use drivewire_rs.Server.Session.{
  World, ServerError, io, Session, and_then, lift_io, ◌>>=◌, receive, send,
}

module _ {ℓ κ} {A : Type ℓ} {B : Type κ} (m : Session A) (f : A → Session B) (w : World) where
  pub bind_of_ok : {a : A} {w' : World} → m w ≡ (ok a, w') → (m >>= f) w ≡ f a w'
  unfolding ◌>>=◌
  bind_of_ok e = ap (and_then f) e

  pub bind_of_err : {e : ServerError} {w' : World} → m w ≡ (err e, w') → (m >>= f) w ≡ (err e, w')
  unfolding ◌>>=◌
  bind_of_err e = ap (and_then f) e

-- A world whose peer will send these bytes.
abbrev pub fed : List ℕ → World → World
fed xs w = record w { wire = record w.wire { input = xs } }

-- The worlds after a read of `n` bytes, after a read that found too few, and after a write.
abbrev pub received : ℕ → World → World
received n w = record w { wire = record w.wire { input = drop n w.wire.input } }

abbrev pub cut : World → World
cut w = record w { wire = record w.wire { input = [] } }

abbrev pub sent : List ℕ → World → World
sent bytes w = record w { wire = record w.wire { output = w.wire.output ++ bytes } }

pub receive_enough :
    (n : ℕ) (w : World)
    → n ≤ length w.wire.input
    → receive n w ≡ (ok (take n w.wire.input), received n w)
unfolding receive read_exact
receive_enough n w h = ap (λ o. lift_io w (taken w.wire o)) (split_exact_enough n w.wire.input h)

pub receive_short :
    (n : ℕ) (w : World) → length w.wire.input < n → receive n w ≡ (err (io w.wire.ending), cut w)
unfolding receive read_exact
receive_short n w h = ap (λ o. lift_io w (taken w.wire o)) (split_exact_short n w.wire.input h)

pub send_steady :
    (bytes : List ℕ) (w : World) → w.wire.sink ≡ steady → send bytes w ≡ (ok tt, sent bytes w)
unfolding send write_all
send_steady bytes w s = rw s

module _ {κ} {B : Type κ} (n : ℕ) (f : List ℕ → Session B) (w : World) where
  pub bind-receive_enough :
      n ≤ length w.wire.input → (receive n >>= f) w ≡ f (take n w.wire.input) (received n w)
  bind-receive_enough h = bind_of_ok (receive n) f w (receive_enough n w h)

  pub bind-receive_short :
      length w.wire.input < n → (receive n >>= f) w ≡ (err (io w.wire.ending), cut w)
  bind-receive_short h = bind_of_err (receive n) f w (receive_short n w h)
