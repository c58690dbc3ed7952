-- ===== src/Proto/Lsn.antt =====
-- crates/drivewire-proto/src/lsn.rs: the 24-bit logical sector number.
use drivewire_rs.Prelude.{ℕ, ◌+◌, ◌*◌, ◌/◌, ◌%◌, ◌^◌, ◌≤◌, ◌<◌, ◌≡◌, arith}

-- `struct Lsn(pub u32)`
pub record Lsn : Type 0 where
  pub value : ℕ

-- `Lsn::MAX`
abbrev pub max : Lsn
max = record { value = 0x00ff_ffff }

-- `u32::from_be_bytes([0, b0, b1, b2])`
unfoldable pub from_be3 : ℕ → ℕ → ℕ → Lsn
from_be3 b0 b1 b2 = record { value = b0 * 2 ^ 16 + b1 * 2 ^ 8 + b2 }

-- `to_be_bytes` without its first byte.
unfoldable pub to_be3 : Lsn → ℕ × ℕ × ℕ
to_be3 l = (l.value / 2 ^ 16 % 256, l.value / 2 ^ 8 % 256, l.value % 256)

-- A logical sector number up to Lsn::MAX survives the wire.
from_be3-to_be3 :
    (l : Lsn) → l.value ≤ max.value → let (b0, b1, b2) = to_be3 l in from_be3 b0 b1 b2 ≡ l
unfolding from_be3 to_be3
from_be3-to_be3 l h = ground arith

-- Three bytes are the wire form of the number that they decode to, and it is at most Lsn::MAX.
to_be3-from_be3 :
    (b0 b1 b2 : ℕ)
    → b0 < 256
    → b1 < 256
    → b2 < 256
    → (to_be3 (from_be3 b0 b1 b2) ≡ (b0, b1, b2)) × ((from_be3 b0 b1 b2).value ≤ max.value)
unfolding from_be3 to_be3
to_be3-from_be3 b0 b1 b2 h0 h1 h2 = (ground arith, omega arith)
