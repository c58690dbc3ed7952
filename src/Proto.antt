-- ===== src/Proto.antt =====
-- crates/drivewire-proto: the pure wire primitives.
pub mod Checksum
pub mod Lsn
pub mod Opcode
pub mod ErrorCode
