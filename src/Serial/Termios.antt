-- ===== src/Serial/Termios.antt =====
-- `configure_termios` and `baud_to_speed` of crates/drivewire-transport/src/blocking_serial.rs, over the
-- settings of a port. The constants and calls of libc are arguments.
pub mod Laws
use drivewire_rs.Prelude.{
  ℕ, ◌≡◌, ◌≢◌, refl, sym, ap, ◌∙◌, Bool, true, false, not, ◌&&◌, ◌||◌, Option, none, some, List, [],
  ◌∷◌, Result, ok, err, ◌==◌, ==_iff, Bool-cases, inl, inr, if◌then◌else◌, arith,
}
use drivewire_rs.Io.{IoKind}
use drivewire_rs.Serial.Open.{Calls, Table, Opening, open_port}

-- A word of flags, by its bits.
abbrev pub Flags : Type 0
Flags = ℕ → Bool

-- `w &= !mask` and `w |= mask`
unfoldable pub clear : Flags → Flags → Flags
clear mask w i = w i && not (mask i)

unfoldable pub raise : Flags → Flags → Flags
raise mask w i = w i || mask i

-- The parts of `struct termios` that the code sets itself, and all other fields as a number.
pub record Termios : Type 0 where
  pub cflag : Flags
  pub cc : ℕ → ℕ
  pub rest : ℕ

-- What libc has on one platform. A call answers with an error or goes through. `cbaud`: the bits of `c_cflag` that
-- hold speeds; `cfgetospeed` reads the speed that settings hold. `tcsetattr`, from the settings that the port has
-- and those that are asked for, gives what the driver makes of them.
pub record Libc : Type 0 where
  pub csize : Flags
  pub cs8 : Flags
  pub parenb : Flags
  pub cstopb : Flags
  pub crtscts : Flags
  pub cread : Flags
  pub clocal : Flags
  pub cbaud : Flags
  pub vmin : ℕ
  pub vtime : ℕ
  pub b1200 : ℕ
  pub b2400 : ℕ
  pub b4800 : ℕ
  pub b9600 : ℕ
  pub b19200 : ℕ
  pub b38400 : ℕ
  pub b57600 : ℕ
  pub b115200 : ℕ
  pub b230400 : ℕ
  pub tcgetattr : Option IoKind
  pub cfmakeraw : Termios → Termios
  pub cfsetspeed : ℕ → Termios → Result IoKind Termios
  pub cfgetospeed : Termios → ℕ
  pub tcsetattr : Termios → Termios → Result IoKind Termios

-- `tio.c_cc[index] = value`
abbrev pub put_cc : ℕ → ℕ → (ℕ → ℕ) → ℕ → ℕ
put_cc index value cc i = if i == index then value else cc i

module _ (libc : Libc) where
  open libc use {
    csize, cs8, parenb, cstopb, crtscts, cread, clocal, vmin, vtime, b1200, b2400, b4800, b9600,
    b19200, b38400, b57600, b115200, b230400, tcgetattr, cfmakeraw, cfsetspeed, tcsetattr,
  }

  unfoldable pub baud_to_speed : ℕ → ℕ
  baud_to_speed baud =
      if baud == 1200
      then b1200
      else if baud == 2400
      then b2400
      else if baud == 4800
      then b4800
      else if baud == 9600
      then b9600
      else if baud == 19200
      then b19200
      else if baud == 38400
      then b38400
      else if baud == 57600
      then b57600
      else if baud == 115200
      then b115200
      else if baud == 230400
      then b230400
      else b115200

  -- The changes to `c_cflag`, in their order.
  unfoldable pub framed : Flags → Flags
  unfolding clear raise
  framed w =
      let sized = raise cs8 (clear csize w) in
      let plain = clear crtscts (clear cstopb (clear parenb sized)) in
      raise (λ i. cread i || clocal i) plain

  -- The settings that are asked for, before the speed.
  unfoldable pub wanted : Termios → Termios
  unfolding framed
  wanted t =
      let made = cfmakeraw t in
      record made { cflag = framed made.cflag; cc = put_cc vtime 0 (put_cc vmin 1 made.cc) }

  abbrev pub Configured : Type 0
  Configured = Option IoKind × Termios

  -- `tcsetattr`: the settings that the driver has made, or the old ones and an error. A call that has changed
  -- anything goes through.
  unfoldable pub apply_settings : Termios → Result IoKind Termios → Configured
  apply_settings port (err kind) = (some kind, port)
  apply_settings port (ok made) = (none, made)

  unfoldable pub with_speed : Termios → Result IoKind Termios → Configured
  unfolding apply_settings
  with_speed port (err kind) = (some kind, port)
  with_speed port (ok t) = apply_settings port (tcsetattr port t)

  unfoldable pub configure_at : ℕ → Termios → Option IoKind → Configured
  unfolding with_speed wanted baud_to_speed
  configure_at baud port (some kind) = (some kind, port)
  configure_at baud port none = with_speed port (cfsetspeed (baud_to_speed baud) (wanted port))

  -- The error, if there is one, and the settings of the port behind it.
  unfoldable pub configure_termios : ℕ → Termios → Configured
  unfolding configure_at
  configure_termios baud port = configure_at baud port tcgetattr

-- What is left of the port's settings when `open` has come as far as it comes.
unfoldable pub settings_behind :
    Option IoKind → Result IoKind ℕ → Option IoKind × Termios → Termios → Termios
settings_behind none (ok fd) (e, t) port = t
settings_behind _ _ (e, t) port = port

-- `open`, with what it makes of the port's settings.
unfoldable pub open_at_baud : Libc → ℕ → Calls → Termios → Table → Opening × Termios
unfolding settings_behind
open_at_baud libc baud calls port table =
    let configured = configure_termios libc baud port in
    (
      open_port (record calls { configure_termios = configured.0 }) table,
      settings_behind calls.path calls.open_device configured port,
    )
