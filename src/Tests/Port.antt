-- ===== src/Tests/Port.antt =====
-- The settings of a serial port, with the constants that Linux has.
use drivewire_rs.Prelude.{ℕ, ◌≡◌, refl, true, ◌||◌, none, [], ok, ◌==◌, leb, false, if◌then◌else◌}
use drivewire_rs.Serial.Open.{Calls}
use drivewire_rs.Serial.Termios.{Flags, Termios, Libc, configure_termios}

-- The bits of CSIZE and CS8, which are the same two, and of the other flags.
abbrev size_bits : Flags
size_bits i = i == 4 || i == 5

-- The bits of CBAUD.
abbrev baud_bits : Flags
baud_bits i = leb i 3 || i == 12

abbrev bit : ℕ → Flags
bit n i = i == n

abbrev linux : Libc
linux = record {
  csize = size_bits;
  cs8 = size_bits;
  parenb = bit 8;
  cstopb = bit 6;
  crtscts = bit 31;
  cread = bit 7;
  clocal = bit 11;
  cbaud = baud_bits;
  vmin = 6;
  vtime = 5;
  b1200 = 9;
  b2400 = 11;
  b4800 = 12;
  b9600 = 13;
  b19200 = 14;
  b38400 = 15;
  b57600 = 4097;
  b115200 = 4098;
  b230400 = 4099;
  tcgetattr = none;
  cfmakeraw = λ t. t;
  cfsetspeed = λ speed t.
      ok (record t { cflag = λ i. if baud_bits i then false else t.cflag i; rest = speed });
  cfgetospeed = λ t. t.rest;
  tcsetattr = λ port t. ok t;
}

abbrev calls : Calls
calls = record { path = none; open_device = ok 7; configure_termios = none; dup = ok 8; reads = [] }

abbrev cooked_port : Termios
cooked_port = record { cflag = λ i. true; cc = λ i. 0; rest = 13 }

-- A rate that is not known sets the speed of 115200.
unknown_rate : (configure_termios linux 460800 cooked_port).1.rest ≡ 4098
unfolding configure_termios
unknown_rate = refl
