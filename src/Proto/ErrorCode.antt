-- ===== src/Proto/ErrorCode.antt =====
-- crates/drivewire-proto/src/error.rs: the one-byte error replies.
use drivewire_rs.Prelude.{ℕ}

pub data DwError : Type 0 where
  crc read write not_ready : DwError

-- The `#[repr(u8)]` discriminants, `DwError::Crc as u8`.
unfoldable pub to_byte : DwError → ℕ
to_byte DwError.crc = 0xf3
to_byte DwError.read = 0xf4
to_byte DwError.write = 0xf5
to_byte DwError.not_ready = 0xf6
