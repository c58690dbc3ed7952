-- ===== src/Tests/Command.antt =====
-- The process of `dw mount` on concrete arguments.
use drivewire_rs.Prelude.{◌≡◌, refl, false, none, some, [], ◌∷◌, ◌++◌, ok, err, arith}
use drivewire_rs.Text.{chars}
use drivewire_rs.Vdisk.{DskFile, open_dsk}
use drivewire_rs.Control.{handle_control, status_reply}
use drivewire_rs.Control.Status.{IsDistinct}
use drivewire_rs.Command.Report.{Shows, main-Shows}
use drivewire_rs.Server.State.{Server}
use drivewire_rs.Io.{other_kind}
use drivewire_rs.Control.Client.{mount_line}
use drivewire_rs.Command.{Cmd, read_error, Daemon, Outside, replied, main}
use drivewire_rs.Command.Mount.{ExitsWith, main-handle_control}
use drivewire_rs.Terminal.Attach.{cooked}
use drivewire_rs.Tests.Fixtures.{files, server, quiet}
use drivewire_rs.Tests.Socket.{plain, plain-IsOneLine, one_file}
use drivewire_rs.Tests.Start.{host, probe_host}

-- A server's control session, and nothing behind its reply.
abbrev daemon : Daemon
daemon = record {
  refuses = none;
  replies = λ cmd.
      (handle_control plain one_file files ((mount_line 3 (chars "a.dsk"), none) ∷ []) server).0
      ++ [];
  broken = some (other_kind 104);
}

abbrev outside : Outside
outside = record {
  connect = λ socket. ok daemon;
  host = host;
  probe_host = probe_host;
  attach_host = record {
    connect = λ path. ok quiet;
    enable_raw_mode = none;
    disable_raw_mode = none;
  };
  events = [];
  stdout = quiet;
  mode = cooked;
  table = [];
}

main-handle_control_example :
    ExitsWith 3 server
      (open_dsk one_file files (chars "a.dsk") false)
      (main 0 outside (Cmd.mount (record { slot = 3; path = some (chars "a.dsk"); socket = [] })))
      (handle_control plain one_file files ((mount_line 3 (chars "a.dsk"), none) ∷ []) server).1
main-handle_control_example =
    main-handle_control 0 outside 3 (chars "a.dsk") [] daemon plain one_file files [] server
      (omega arith) refl refl refl plain-IsOneLine (refl, (refl, tt)) refl refl refl

-- The server behind that mount, and a session that reports on it.
abbrev mounted_server : Server
mounted_server =
    (handle_control plain one_file files ((mount_line 3 (chars "a.dsk"), none) ∷ []) server).1

abbrev reporting : Daemon
reporting = record daemon {
  replies = λ cmd.
      (handle_control plain one_file files ((chars "STATUS", none) ∷ []) mounted_server).0
      ++ chars "OK";
}

abbrev a_disk : DskFile
a_disk = record { path = chars "a.dsk"; file = 0; sector_count = 2; read_only = false }

a_disk_opens : open_dsk one_file files (chars "a.dsk") false ≡ ok a_disk
unfolding open_dsk
a_disk_opens = refl

server-IsDistinct : IsDistinct server.drives
server-IsDistinct = (((λ e. omega arith), tt), (tt, tt))

main-Shows_example :
    (main 0
        (record outside { connect = λ socket. ok reporting })
        (Cmd.status (record { socket = [] }))
      ≡ replied (ok (status_reply mounted_server)))
    × Shows 3 (chars "a.dsk") 2 server mounted_server
main-Shows_example =
    main-Shows plain plain-IsOneLine one_file files 0
      (record outside { connect = λ socket. ok reporting }) 3 (chars "a.dsk") [] (chars "OK")
      reporting a_disk server (omega arith) refl refl refl (refl, (refl, tt)) server-IsDistinct
      a_disk_opens refl refl refl

-- A daemon that closes the connection without a reply: the command succeeds.
abbrev gone : Daemon
gone = record { refuses = none; replies = λ cmd. []; broken = none }

unanswered :
    main 0
      (record outside { connect = λ socket. ok gone })
      (Cmd.mount (record { slot = 3; path = some (chars "a.dsk"); socket = [] }))
    ≡ replied (ok [])
unfolding main
unanswered = refl

-- A reply that breaks off inside its line is an error of the read.
abbrev torn : Daemon
torn = record {
  refuses = none;
  replies = λ cmd. chars "OK mounted sl";
  broken = some (other_kind 104);
}

torn_fails :
    main 0
      (record outside { connect = λ socket. ok torn })
      (Cmd.mount (record { slot = 3; path = some (chars "a.dsk"); socket = [] }))
    ≡ replied (err (read_error (other_kind 104)))
unfolding main
torn_fails = refl
