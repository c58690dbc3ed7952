-- ===== src/Tests/Socket.antt =====
-- The control socket on concrete requests.
use drivewire_rs.Prelude.{
  none, ℕ, ◌≡◌, ◌≢◌, ◌<◌, refl, [], ◌∷◌, ◌++◌, ◌==◌, arith, ok, if◌then◌else◌,
}
use drivewire_rs.Vdisk.{Directory, open_dsk}
use drivewire_rs.Proto.Lsn.{Lsn}
use drivewire_rs.Server.State.{new}
use drivewire_rs.Server.Handlers.{served}
use drivewire_rs.Vdisk.Laws.{stored}
use drivewire_rs.Text.{Text, chars, trim, trim_start, splitn3, decimal, parse_u8}
use drivewire_rs.Text.Laws.{IsLine}
use drivewire_rs.Control.{Wording, mount_dsk, handle_control_command, handle_control}
use drivewire_rs.Control.Client.{mount_line, control_request}
use drivewire_rs.Control.Complete.{IsOneLine, HasLineNames, control_request-handle_control_command}
use drivewire_rs.Control.Serving.{served-mount_line}
use drivewire_rs.Tests.Fixtures.{server, files}

-- A line feed is printed as `\n`, and every error as `gone`.
abbrev pub escape : Text → Text
escape [] = []
escape (c ∷ s) = let rest = escape s in if c == 0x0a then b'\\' ∷ b'n' ∷ rest else c ∷ rest

abbrev pub plain : Wording
plain = record { debug = escape; message = λ kind. chars "gone" }

escape-IsLine : (s : Text) → IsLine (escape s)
escape-IsLine [] = refl
escape-IsLine (c ∷ s) = ground (arith, escape-IsLine s)

pub plain-IsOneLine : IsOneLine plain
plain-IsOneLine = record { debug_line = escape-IsLine; message_line = λ kind. refl }

-- Every path opens file 0.
abbrev pub one_file : Directory
one_file path write = ok 0

mount_runs :
    (handle_control plain one_file files ((chars "mount 3 a.dsk ", none) ∷ []) new).0
    ≡ chars "OK mounted slot 3 sectors=2 path=a.dsk\n"
unfolding handle_control handle_control_command trim_start splitn3 parse_u8 mount_dsk open_dsk
    decimal
mount_runs = refl

control_request-handle_control_command_example :
    let (reply, s') = handle_control_command plain one_file files (chars "STATUS") server in
    (control_request (reply ++ chars "ERROR") ≡ reply) × HasLineNames s'.drives
control_request-handle_control_command_example =
    control_request-handle_control_command plain plain-IsOneLine one_file files (chars "STATUS")
      (chars "ERROR") server refl (refl, (refl, tt))

served-mount_line_example :
    let after =
      (handle_control_command plain one_file files
        (trim (mount_line 3 (chars "a.dsk")))
        server).1 in
    ((l : Lsn) → l.value < 2 → served after.drives files 3 l ≡ stored (files 0) l.value)
    × ((j : ℕ) (l : Lsn) → j ≢ 3 → served after.drives files j l ≡ served server.drives files j l)
served-mount_line_example =
    served-mount_line plain one_file files 3 (chars "a.dsk") 0 server (omega arith) refl refl refl
      refl
