-- ===== src/Tests/Listeners.antt =====
-- A listener on a path that is taken.
use drivewire_rs.Prelude.{◌≡◌, refl, true, none, some, List, [], ◌∷◌, err}
use drivewire_rs.Io.{other_kind}
use drivewire_rs.Io.Reads.{Reads}
use drivewire_rs.Server.Attach.Client.{read_channel}
use drivewire_rs.Server.Listeners.{
  SocketHost, absent, other_file, stale_socket, run_listener, run_attach_listener,
}
use drivewire_rs.Server.Listeners.Laws.{arriving, run_listener-replaced}

-- A listener whose path is taken by a file: two connections, and then an error.
abbrev socket_host : SocketHost
socket_host = record { removes = true; bind_error = none; address_in_use = other_kind 98 }

abbrev two_streams : List Reads
two_streams = (some (2 ∷ b'x' ∷ []) ∷ []) ∷ (none ∷ []) ∷ []

run_listener-replaced_example :
    run_listener socket_host other_file (arriving two_streams (err (other_kind 24) ∷ []))
    ≡ ((two_streams, some (other_kind 24)), stale_socket)
run_listener-replaced_example =
    run_listener-replaced socket_host other_file two_streams (other_kind 24) [] refl

-- Of two connections only the one that names a channel becomes a client.
clients_lem :
    (run_attach_listener socket_host absent (arriving two_streams [])).0
    ≡ ((2, some (b'x' ∷ []) ∷ []) ∷ [], none)
unfolding run_attach_listener read_channel
clients_lem = refl
