-- ===== src/Proto/Opcode.antt =====
-- crates/drivewire-proto/src/opcode.rs: opcodes, and the decoding of one byte.
pub mod Laws
use drivewire_rs.Prelude.{ℕ, ◌+◌, ◌-◌, ◌≡◌, refl, ◌&&◌, leb, ◌==◌, if◌then◌else◌, Result, ok, err}

pub data Opcode : Type 0 where
  nop time print_flush get_stat init print read set_stat : Opcode
  term write reread rewrite read_ex reread_ex reset2 reset1 : Opcode
  wirebug_mode ser_read ser_get_stat ser_init dw_init ser_read_m ser_write_m ser_write : Opcode
  ser_set_stat ser_term reset3 : Opcode

-- The `#[repr(u8)]` discriminants, `op as u8`.
unfoldable pub to_byte : Opcode → ℕ
to_byte Opcode.nop = 0x00
to_byte Opcode.time = 0x23
to_byte Opcode.print_flush = 0x46
to_byte Opcode.get_stat = 0x47
to_byte Opcode.init = 0x49
to_byte Opcode.print = 0x50
to_byte Opcode.read = 0x52
to_byte Opcode.set_stat = 0x53
to_byte Opcode.term = 0x54
to_byte Opcode.write = 0x57
to_byte Opcode.reread = 0x72
to_byte Opcode.rewrite = 0x77
to_byte Opcode.read_ex = 0xd2
to_byte Opcode.reread_ex = 0xf2
to_byte Opcode.reset2 = 0xfe
to_byte Opcode.reset1 = 0xff
to_byte Opcode.wirebug_mode = 0x42
to_byte Opcode.ser_read = 0x43
to_byte Opcode.ser_get_stat = 0x44
to_byte Opcode.ser_init = 0x45
to_byte Opcode.dw_init = 0x5a
to_byte Opcode.ser_read_m = 0x63
to_byte Opcode.ser_write_m = 0x64
to_byte Opcode.ser_write = 0xc3
to_byte Opcode.ser_set_stat = 0xc4
to_byte Opcode.ser_term = 0xc5
to_byte Opcode.reset3 = 0xf8

-- `TryFrom<u8> for Opcode`: the arms of the match, in order; the error is the byte.
unfoldable pub try_from : ℕ → Result ℕ Opcode
try_from b =
    if b == 0x00
    then ok Opcode.nop
    else if b == 0x23
    then ok Opcode.time
    else if b == 0x42
    then ok Opcode.wirebug_mode
    else if b == 0x43
    then ok Opcode.ser_read
    else if b == 0x44
    then ok Opcode.ser_get_stat
    else if b == 0x45
    then ok Opcode.ser_init
    else if b == 0x46
    then ok Opcode.print_flush
    else if b == 0x47
    then ok Opcode.get_stat
    else if b == 0x49
    then ok Opcode.init
    else if b == 0x50
    then ok Opcode.print
    else if b == 0x52
    then ok Opcode.read
    else if b == 0x53
    then ok Opcode.set_stat
    else if b == 0x54
    then ok Opcode.term
    else if b == 0x57
    then ok Opcode.write
    else if b == 0x5a
    then ok Opcode.dw_init
    else if b == 0x63
    then ok Opcode.ser_read_m
    else if b == 0x64
    then ok Opcode.ser_write_m
    else if b == 0x72
    then ok Opcode.reread
    else if b == 0x77
    then ok Opcode.rewrite
    else if b == 0xc3
    then ok Opcode.ser_write
    else if b == 0xc4
    then ok Opcode.ser_set_stat
    else if b == 0xc5
    then ok Opcode.ser_term
    else if b == 0xd2
    then ok Opcode.read_ex
    else if b == 0xf2
    then ok Opcode.reread_ex
    else if b == 0xf8
    then ok Opcode.reset3
    else if b == 0xfe
    then ok Opcode.reset2
    else if b == 0xff
    then ok Opcode.reset1
    else err b

pub data Decoded : Type 0 where
  op : Opcode → Decoded
  fast_write : ℕ → Decoded
  unknown : ℕ → Decoded

abbrev from_result : ℕ → Result ℕ Opcode → Decoded
from_result b (ok o) = Decoded.op o
from_result b (err _) = Decoded.unknown b

-- `Decoded::from_byte`: the range 0x80..=0x8F is looked at first.
unfoldable pub from_byte : ℕ → Decoded
from_byte b =
    if leb 0x80 b && leb b 0x8f then Decoded.fast_write (b - 0x80) else from_result b (try_from b)
