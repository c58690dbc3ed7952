-- ===== src/Server/Listeners.antt =====
-- `run_attach_listener` and `run_control_listener` of crates/drivewire-server/src/lib.rs: the socket that is bound
-- over what stands at its path, and the task for each connection.
pub mod Laws
use drivewire_rs.Prelude.{
  ℕ, Bool, true, false, Option, none, some, List, [], ◌∷◌, ◌++◌, Result, ok, err, if◌then◌else◌,
}
use drivewire_rs.Io.{IoKind}
use drivewire_rs.Io.Reads.{Reads}
use drivewire_rs.Server.Attach.Client.{read_channel}

-- What stands at a path: nothing, a socket that nobody serves, one that a process serves, or another file.
pub data Entry : Type 0 where
  absent stale_socket live_socket other_file : Entry

-- What the host answers: whether the file may be removed, and the errors of a bind at a free path and at one that
-- is taken.
pub record SocketHost : Type 0 where
  pub removes : Bool
  pub bind_error : Option IoKind
  pub address_in_use : IoKind

-- `remove_file`, whose error is dropped.
unfoldable pub remove_file : SocketHost → Entry → Entry
remove_file host entry = if host.removes then absent else entry

-- `UnixListener::bind`
unfoldable pub bind_free : Option IoKind → Result IoKind Entry
bind_free none = ok live_socket
bind_free (some kind) = err kind

unfoldable pub bind : SocketHost → Entry → Result IoKind Entry
unfolding bind_free
bind host absent = bind_free host.bind_error
bind host _ = err host.address_in_use

-- The tasks that have been spawned, and the error that has ended the listener, if one has.
abbrev pub Listening : Type 0 → Type 0
Listening A = List A × Option IoKind

-- What is at the path of a listener that has ended, whose file stays: a socket that nobody serves.
unfoldable pub left_at : Entry → Option IoKind → Entry
left_at bound none = bound
left_at bound (some kind) = stale_socket

module _ {A : Type 0} where
  -- The loop over what `accept` returns; at the end of the list it waits.
  unfoldable pub accept_loop : List (Result IoKind A) → Listening A
  accept_loop [] = ([], none)
  accept_loop (err kind ∷ accepts) = ([], some kind)
  accept_loop (ok stream ∷ accepts) =
      let (tasks, ending) = accept_loop accepts in (stream ∷ tasks, ending)

  unfoldable pub listen_at :
      Entry → List (Result IoKind A) → Result IoKind Entry → Listening A × Entry
  unfolding accept_loop left_at
  listen_at entry accepts (err kind) = (([], some kind), entry)
  listen_at entry accepts (ok bound) =
      let (tasks, ending) = accept_loop accepts in ((tasks, ending), left_at bound ending)

  -- What both listeners do, with what is at the path in the end.
  unfoldable pub run_listener : SocketHost → Entry → List (Result IoKind A) → Listening A × Entry
  unfolding listen_at remove_file bind
  run_listener host entry accepts =
      listen_at (remove_file host entry) accepts (bind host (remove_file host entry))

-- The clients of `handle_attach`: a connection whose first byte does not come has none.
abbrev with_channel : Option (ℕ × Reads) → List (ℕ × Reads) → List (ℕ × Reads)
with_channel none clients = clients
with_channel (some client) clients = client ∷ clients

unfoldable pub attach_clients : List Reads → List (ℕ × Reads)
attach_clients [] = []
attach_clients (reads ∷ streams) = with_channel (read_channel reads) (attach_clients streams)

unfoldable pub run_attach_listener :
    SocketHost → Entry → List (Result IoKind Reads) → Listening (ℕ × Reads) × Entry
unfolding run_listener attach_clients
run_attach_listener host entry accepts =
    let ((streams, ending), entry') = run_listener host entry accepts in
    ((attach_clients streams, ending), entry')
