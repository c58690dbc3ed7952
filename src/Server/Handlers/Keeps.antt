-- ===== src/Server/Handlers/Keeps.antt =====
-- Actions that keep a world of bytes one: a rule for each way to build one.
use drivewire_rs.Prelude.{
  ℕ, ◌≡◌, List, arith, Result, ok, err, leb, IsByte, IsBytes, Bool-cases, inl, inr, length, take,
}
use native.Mathlib.Decide.{dec_le}
use drivewire_rs.Prelude.Bytes.{append-All, take-All, drop-All}
use drivewire_rs.Io.{Sink, steady, limited, write_to, write_all}
use drivewire_rs.Server.State.{Server}
use drivewire_rs.Server.Session.{
  World, ServerError, Session, and_then, ◌>>=◌, done, modify, lift_io, receive, send,
}
use drivewire_rs.Server.Session.Laws.{bind_of_ok, bind-receive_enough, bind-receive_short}
use drivewire_rs.Server.Handlers.Bytes.{IsTyped, IsTypedWorld}

-- The action keeps a world of bytes so.
pub record Typed {ℓ} {A : Type ℓ} (m : Session A) : Type 0 where
  pub keeps : (w : World) → IsTypedWorld w → IsTypedWorld (m w).1

-- A world of bytes with another stream of bytes.
pub rewired :
    (w : World) (input output : List ℕ) (sink : Sink)
    → IsTypedWorld w
    → IsBytes input
    → IsBytes output
    → IsTypedWorld
        (record w { wire = record w.wire { input = input; output = output; sink = sink } })
rewired w input output sink t h k = record {
  server = t.server;
  files = t.files;
  input = h;
  output = k;
  clock = t.clock;
}

write_to-IsTypedWorld :
    (k : Sink) (bytes : List ℕ) (w : World)
    → IsBytes bytes
    → IsTypedWorld w
    → IsTypedWorld (lift_io w (write_to k bytes w.wire)).1
unfolding write_to lift_io
write_to-IsTypedWorld steady bytes w h t =
    rewired w _ _ _ t t.input (append-All IsByte w.wire.output bytes t.output h)
write_to-IsTypedWorld (limited n kind) bytes w h t = elim (Bool-cases (leb (length bytes) n)) [
  | inl e ↦ rw e (rewired w _ _ _ t t.input (append-All IsByte w.wire.output bytes t.output h))
  | inr e ↦ rw e (
      rewired w _ _ _ t t.input
        (append-All IsByte w.wire.output (take n bytes) t.output (take-All IsByte n bytes h)))
]

pub Typed-send : (bytes : List ℕ) → IsBytes bytes → Typed (send bytes)
unfolding send write_all
Typed-send bytes h = record { keeps = λ w t. write_to-IsTypedWorld w.wire.sink bytes w h t }

pub Typed-modify :
    (f : Server → Server) → ((s : Server) → IsTyped s → IsTyped (f s)) → Typed (modify f)
unfolding modify
Typed-modify f h = record {
  keeps = λ w t. record {
    server = h w.server t.server;
    files = t.files;
    input = t.input;
    output = t.output;
    clock = t.clock;
  };
}

module _ {ℓ κ} {A : Type ℓ} {B : Type κ} where
  and_then-IsTypedWorld :
      (f : A → Session B) (r : Result ServerError A × World)
      → IsTypedWorld r.1
      → ((a : A) → Typed (f a))
      → IsTypedWorld (and_then f r).1
  unfolding and_then
  and_then-IsTypedWorld f (ok a, w) t k = (k a).keeps w t
  and_then-IsTypedWorld f (err e, w) t k = t

  pub Typed-bind :
      {m : Session A} {f : A → Session B} → Typed m → ((a : A) → Typed (f a)) → Typed (m >>= f)
  unfolding ◌>>=◌
  Typed-bind {m} {f} h k = record { keeps = λ w t. and_then-IsTypedWorld f (m w) (h.keeps w t) k }

-- What is read is bytes.
pub Typed-receive :
    (B : Type 0) (n : ℕ) (f : List ℕ → Session B)
    → ((xs : List ℕ) → (Unit {0} → IsBytes xs) → Typed (f xs))
    → Typed (receive n >>= f)
Typed-receive B n f k = record {
  keeps = λ w t. elim (dec_le n (length w.wire.input)) [
    | yes h ↦ rw (bind-receive_enough n f w h) (
        (k (take n w.wire.input) (λ _. take-All IsByte n w.wire.input t.input)).keeps _
          (rewired w _ _ _ t (drop-All IsByte n w.wire.input t.input) t.output))
    | no h ↦ rw (bind-receive_short n f w (omega arith)) (rewired w _ _ _ t tt t.output)
  ];
}

-- An action that always succeeds, with bytes and in a world of bytes.
module _ {A : Type 0} (P : A → Type 0) (m : Session A) (value : World → A) (after : World → World)
    (runs : (w : World) → m w ≡ (ok (value w), after w)) where
  pub Typed-then :
      (B : Type 0) (f : A → Session B)
      → ((w : World) → IsTypedWorld w → P (value w) × IsTypedWorld (after w))
      → ((a : A) → (Unit {0} → P a) → Typed (f a))
      → Typed (m >>= f)
  Typed-then B f h k = record {
    keeps = λ w t.
        let (p, t') = h w t in
        rw (bind_of_ok m f w (runs w)) ((k (value w) (λ _. p)).keeps (after w) t');
  }

pub Typed-done : Typed done
unfolding done
Typed-done = record { keeps = λ w t. t }
