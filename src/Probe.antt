-- ===== src/Probe.antt =====
-- `probe` of crates/drivewire-cli/src/main.rs, behind the opening of its transport: whether a guest talks.
pub mod Laws
pub mod Command
use drivewire_rs.Prelude.{
  ℕ, Bool, true, false, List, [], ◌∷◌, Result, ok, err, get_or, ◌==◌, if◌then◌else◌,
}
use drivewire_rs.Io.{IoKind, Wire, read_exact, write_all}
use drivewire_rs.Proto.Opcode.{Opcode, try_from}

-- The errors that it ends with: `bail!`, and `?` on the transport.
pub data ProbeError : Type 0 where
  silent_guest not_drivewire : ProbeError
  read_error : IoKind → ProbeError
  io : IoKind → ProbeError

abbrev pub Probing : Type 0
Probing = Result ProbeError (Unit {0}) × Wire

-- The write of the answer to DWINIT.
answered : Result IoKind (Unit {0}) × Wire → Probing
answered (ok _, w) = (ok tt, w)
answered (err kind, w) = (err (ProbeError.io kind), w)

-- DWINIT's driver byte, and the answer.
handshaken : Result IoKind (List ℕ) × Wire → Probing
unfolding answered
handshaken (ok driver, w) = answered (write_all (0x04 ∷ []) w)
handshaken (err kind, w) = (err (ProbeError.io kind), w)

-- A byte that is not DWINIT's.
known : Result ℕ Opcode → Wire → Probing
known (ok op) w = (ok tt, w)
known (err b) w = (err not_drivewire, w)

judged : ℕ → Wire → Probing
unfolding handshaken known
judged b w = if b == 0x5a then handshaken (read_exact 1 w) else known (try_from b) w

first_byte : Result IoKind (List ℕ) × Wire → Probing
unfolding judged
first_byte (ok first, w) = judged (get_or first 0 0) w
first_byte (err kind, w) = (err (read_error kind), w)

-- `timely`: the first byte, or an error, comes before the timeout.
unfoldable pub probe : Bool → Wire → Probing
unfolding first_byte
probe false w = (err silent_guest, w)
probe true w = first_byte (read_exact 1 w)
