-- ===== src/Server/Session.antt =====
-- The actions of one session: the world that a handler sees, and `?`.
pub mod Laws
pub mod Framed
use drivewire_rs.Prelude.{ℕ, ◌*◌, ◌+◌, ◌/◌, ◌%◌, Option, List, [], ◌∷◌, Result, ok, err, get_or}
use drivewire_rs.Io
use drivewire_rs.Io.{IoKind, Wire}
use drivewire_rs.Prelude.Int.{ℤ}
use drivewire_rs.Vdisk.{Files}
use drivewire_rs.Server.State.{Server}

pub data ServerError : Type 0 where
  eof : ServerError
  unknown_opcode : ℕ → ServerError
  io : IoKind → ServerError

-- What `time::OffsetDateTime` says of a moment.
pub record Moment : Type 0 where
  pub year : ℤ
  pub month : ℕ
  pub day : ℕ
  pub hour : ℕ
  pub minute : ℕ
  pub second : ℕ

-- `now_local`, which may fail, and `now_utc`.
pub record Clock : Type 0 where
  pub now_local : Option Moment
  pub now_utc : Moment

pub record World : Type 0 where
  pub server : Server
  pub files : Files
  pub wire : Wire
  pub clock : Clock

abbrev pub Session {ℓ} : Type ℓ → Type ℓ
Session A = World → Result ServerError A × World

-- The rest of a `do` block; the server keeps what was done before an error.
unfoldable pub and_then {ℓ κ} :
    {A : Type ℓ} {B : Type κ}
    → (A → Session B)
    → Result ServerError A × World
    → Result ServerError B × World
and_then f (ok a, w) = f a w
and_then f (err e, w) = (err e, w)

infixl 5 ◌>>=◌ ◌>>◌
unfoldable pub ◌>>=◌ {ℓ κ} : {A : Type ℓ} {B : Type κ} → Session A → (A → Session B) → Session B
unfolding and_then
◌>>=◌ m f w = and_then f (m w)

abbrev pub ◌>>◌ {ℓ} : {B : Type ℓ} → Session (Unit {0}) → Session B → Session B
m >> k = m >>= λ _. k

unfoldable pub done : Session (Unit {0})
done w = (ok tt, w)

unfoldable pub gets {ℓ} : {A : Type ℓ} → (World → A) → Session A
gets f w = (ok (f w), w)

unfoldable pub modify : (Server → Server) → Session (Unit {0})
modify f w = (ok tt, record w { server = f w.server })

unfoldable pub lift_io {ℓ} :
    {A : Type ℓ} → World → Result IoKind A × Wire → Result ServerError A × World
lift_io w (ok a, wire) = (ok a, record w { wire = wire })
lift_io w (err kind, wire) = (err (io kind), record w { wire = wire })

-- `t.read_exact(&mut buf).await?` with a buffer of `n` bytes.
unfoldable pub receive : ℕ → Session (List ℕ)
unfolding lift_io
receive n w = lift_io w (Io.read_exact n w.wire)

-- `t.write_all(&bytes).await?`
unfoldable pub send : List ℕ → Session (Unit {0})
unfolding lift_io
send bytes w = lift_io w (Io.write_all bytes w.wire)

-- The element of a buffer that has been read.
abbrev pub at : List ℕ → ℕ → ℕ
at bytes i = get_or bytes i 0

-- `u16::from_be_bytes` and `u16::to_be_bytes`.
abbrev pub from_be2 : ℕ → ℕ → ℕ
from_be2 hi lo = hi * 256 + lo

abbrev pub to_be2 : ℕ → List ℕ
to_be2 n = n / 256 % 256 ∷ n % 256 ∷ []
