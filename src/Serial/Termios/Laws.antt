-- ===== src/Serial/Termios/Laws.antt =====
-- What a port is set to by `configure_termios`, and behind `open` of
-- crates/drivewire-transport/src/blocking_serial.rs.
use drivewire_rs.Prelude.{
  ℕ, ◌≡◌, ◌≢◌, true, false, none, some, List, [], ◌∷◌, ok, err, ◌==◌, ◌⊎◌, if◌then◌else◌,
}
use drivewire_rs.Serial.Open.{Opening}
use drivewire_rs.Serial.Termios.{Flags, Termios, Libc, Configured}

-- No bit is in both masks.
abbrev pub Apart : Flags → Flags → Type 0
Apart a b = (i : ℕ) → a i ≡ true → b i ≡ false

-- What termios(3) says of the constants and of `cfsetspeed`, which stores the speed and changes nothing else that the
-- code sets.
pub record IsStandard (libc : Libc) : Type 0 where
  pub csize_parenb : Apart libc.csize libc.parenb
  pub csize_cstopb : Apart libc.csize libc.cstopb
  pub csize_crtscts : Apart libc.csize libc.crtscts
  pub csize_cread : Apart libc.csize libc.cread
  pub csize_clocal : Apart libc.csize libc.clocal
  pub parenb_cread : Apart libc.parenb libc.cread
  pub parenb_clocal : Apart libc.parenb libc.clocal
  pub cstopb_cread : Apart libc.cstopb libc.cread
  pub cstopb_clocal : Apart libc.cstopb libc.clocal
  pub crtscts_cread : Apart libc.crtscts libc.cread
  pub crtscts_clocal : Apart libc.crtscts libc.clocal
  pub vmin_ne : libc.vmin ≢ libc.vtime
  pub csize_cbaud : Apart libc.csize libc.cbaud
  pub parenb_cbaud : Apart libc.parenb libc.cbaud
  pub cstopb_cbaud : Apart libc.cstopb libc.cbaud
  pub crtscts_cbaud : Apart libc.crtscts libc.cbaud
  pub cread_cbaud : Apart libc.cread libc.cbaud
  pub clocal_cbaud : Apart libc.clocal libc.cbaud
  pub keeps_flags :
      (speed : ℕ) (t t' : Termios)
      → libc.cfsetspeed speed t ≡ ok t'
      → (i : ℕ) → libc.cbaud i ≡ false
      → t'.cflag i ≡ t.cflag i
  pub keeps_cc : (speed : ℕ) (t t' : Termios) → libc.cfsetspeed speed t ≡ ok t' → t'.cc ≡ t.cc
  pub stores :
      (speed : ℕ) (t t' : Termios) → libc.cfsetspeed speed t ≡ ok t' → libc.cfgetospeed t' ≡ speed

-- The speeds that the code knows, by their baud rates.
abbrev pub speeds : Libc → List (ℕ × ℕ)
speeds libc =
    (1200, libc.b1200)
    ∷ (2400, libc.b2400)
    ∷ (4800, libc.b4800)
    ∷ (9600, libc.b9600)
    ∷ (19200, libc.b19200)
    ∷ (38400, libc.b38400)
    ∷ (57600, libc.b57600)
    ∷ (115200, libc.b115200)
    ∷ (230400, libc.b230400)
    ∷ []

abbrev pub speed_or : ℕ → ℕ → List (ℕ × ℕ) → ℕ
speed_or baud default [] = default
speed_or baud default ((b, s) ∷ rest) = if baud == b then s else speed_or baud default rest

-- 8 data bits, no parity, one stop bit, no flow control, receiver on, modem lines ignored; a read
-- returns as soon as there is a byte; the speed of the baud rate, or of 115200 for one that is not known.
pub record IsFramed (libc : Libc) (baud : ℕ) (t : Termios) : Type 0 where
  pub size : (i : ℕ) → libc.csize i ≡ true → t.cflag i ≡ libc.cs8 i
  pub no_parity : (i : ℕ) → libc.parenb i ≡ true → t.cflag i ≡ false
  pub one_stop : (i : ℕ) → libc.cstopb i ≡ true → t.cflag i ≡ false
  pub no_flow : (i : ℕ) → libc.crtscts i ≡ true → t.cflag i ≡ false
  pub receiver : (i : ℕ) → libc.cread i ≡ true → t.cflag i ≡ true
  pub local : (i : ℕ) → libc.clocal i ≡ true → t.cflag i ≡ true
  pub wakes_at_one : t.cc libc.vmin ≡ 1
  pub waits : t.cc libc.vtime ≡ 0
  pub speed : libc.cfgetospeed t ≡ speed_or baud libc.b115200 (speeds libc)

module _ (libc : Libc) where
  -- The driver has been asked for a framed port, and the port has what the driver made of that.
  pub record IsAsked (baud : ℕ) (port t : Termios) : Type 0 where
    pub asked : Termios
    pub framed_well : IsFramed libc baud asked
    pub made : libc.tcsetattr port asked ≡ ok t

  -- Behind an error the port is as it was.
  abbrev IsSettled : ℕ → Termios → Configured libc → Type 0
  IsSettled baud port (some kind, t) = t ≡ port
  IsSettled baud port (none, t) = IsAsked baud port t

  -- Behind `open`: a port that is open is as the driver made it, and else it is so or as it was.
  abbrev pub IsOpened : ℕ → Termios → Opening × Termios → Type 0
  IsOpened baud port ((ok serial, table), t) = IsAsked baud port t
  IsOpened baud port ((err kind, table), t) = (t ≡ port) ⊎ IsAsked baud port t
