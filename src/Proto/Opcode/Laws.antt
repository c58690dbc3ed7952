-- ===== src/Proto/Opcode/Laws.antt =====
-- The opcode tables of opcode.rs agree with one another.
use drivewire_rs.Prelude.{ℕ, ◌+◌, ◌<◌, ◌≡◌, refl, arith, Result, ok, err}
use drivewire_rs.Proto.Opcode.{Opcode, Decoded, to_byte, try_from, from_byte, from_result}

-- Every opcode is read back from its discriminant.
pub try_from-to_byte : (o : Opcode) → try_from (to_byte o) ≡ ok o
unfolding try_from to_byte
try_from-to_byte Opcode.nop = refl
try_from-to_byte _ = refl

-- The only byte that reads as an opcode is its discriminant.
pub to_byte_of_try_from : (b : ℕ) (o : Opcode) → try_from b ≡ ok o → to_byte o ≡ b
unfolding try_from to_byte
to_byte_of_try_from b o h = ground arith

-- The error of a byte that is no opcode is the byte.
try_from_err : (b e : ℕ) → try_from b ≡ err e → e ≡ b
unfolding try_from
try_from_err b e h = ground arith

-- The byte that a decoded value stands for.
unfoldable pub encode : Decoded → ℕ
encode (Decoded.op o) = to_byte o
encode (Decoded.fast_write channel) = 0x80 + channel
encode (Decoded.unknown b) = b

encode-from_result : (b : ℕ) (r : Result ℕ Opcode) → try_from b ≡ r → encode (from_result b r) ≡ b
unfolding encode
encode-from_result b (ok o) h = to_byte_of_try_from b o h
encode-from_result b (err e) h = refl

-- No byte is lost by decoding: each is the encoding of what it decodes to.
pub encode-from_byte : (b : ℕ) → encode (from_byte b) ≡ b
unfolding encode from_byte
encode-from_byte b = ground (arith, encode-from_result b (try_from b) refl)

-- Every opcode is decoded from its discriminant: the range of fast writes hides none.
pub from_byte-to_byte : (o : Opcode) → from_byte (to_byte o) ≡ Decoded.op o
unfolding from_byte try_from to_byte
from_byte-to_byte Opcode.nop = refl
from_byte-to_byte _ = refl

pub from_byte_fast_write : (c : ℕ) → c < 16 → from_byte (0x80 + c) ≡ Decoded.fast_write c
unfolding from_byte
from_byte_fast_write c h = ground arith
