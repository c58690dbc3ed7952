-- ===== src/EchoGuest/Loop.antt =====
-- The guest's side of the conversation in `main`, over any connection to a server.
use drivewire_rs.Prelude.{ℕ, zero, suc, List, [], ◌∷◌, Result, ok, err, get_or}
use drivewire_rs.Io.{IoKind}
use drivewire_rs.EchoGuest.{Reply, idle, single, closing, burst, unhandled, decode_reply, echo_back}

-- The connection: a `TcpStream`, as what its two operations do to the state behind it.
pub record Link (S : Type 0) : Type 0 where
  pub write_all : List ℕ → S → Result IoKind (Unit {0}) × S
  pub read_exact : ℕ → S → Result IoKind (List ℕ) × S

-- An action of the guest, which ends at the first error.
abbrev pub Guest : Type 0 → Type 0 → Type 0
Guest S A = S → Result IoKind A × S

unfoldable pub and_then :
    {S A B : Type 0} → (A → Guest S B) → Result IoKind A × S → Result IoKind B × S
and_then f (ok a, s) = f a s
and_then f (err kind, s) = (err kind, s)

infixl 5 ◌>>=◌ ◌>>◌
unfoldable pub ◌>>=◌ : {S A B : Type 0} → Guest S A → (A → Guest S B) → Guest S B
unfolding and_then
◌>>=◌ m f s = and_then f (m s)

abbrev pub ◌>>◌ : {S B : Type 0} → Guest S (Unit {0}) → Guest S B → Guest S B
m >> k = m >>= λ _. k

unfoldable pub done : {S : Type 0} → Guest S (Unit {0})
done s = (ok tt, s)

module _ {S : Type 0} (l : Link S) where
  -- The arms of the match on the reply. The sleep of the first is time only.
  unfoldable pub answer : Reply → Guest S (Unit {0})
  answer idle = done
  answer (single channel byte) = l.write_all (echo_back channel (byte ∷ []))
  answer (closing channel) = done
  answer (burst channel count) = do
    l.write_all (0x63 ∷ channel ∷ count ∷ [])
    buf ← l.read_exact count
    l.write_all (echo_back channel buf)
  answer (unhandled code) = done

  -- One pass of the loop.
  unfoldable pub poll_once : Guest S (Unit {0})
  unfolding answer
  poll_once = do
    l.write_all (0x43 ∷ [])
    resp ← l.read_exact 2
    answer (decode_reply (get_or resp 0 0) (get_or resp 1 0))

  -- So many passes.
  unfoldable pub poll_loop : ℕ → Guest S (Unit {0})
  unfolding poll_once
  poll_loop zero = done
  poll_loop (suc n) = do poll_once; poll_loop n

  -- The exchange before the loop: the server's capabilities.
  unfoldable pub greet : Guest S (List ℕ)
  greet = do l.write_all (0x5a ∷ 0x42 ∷ []); l.read_exact 1

  -- `main` behind its connect, up to so many passes.
  unfoldable pub converse : ℕ → Guest S (Unit {0})
  unfolding greet poll_loop
  converse n = do caps ← greet; poll_loop n
