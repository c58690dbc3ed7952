-- ===== src/Server/Listeners/Laws.antt =====
-- What a listener of crates/drivewire-server/src/lib.rs makes of its path and of its connections.
use mathlib.Core.List.{append-nil}
use drivewire_rs.Prelude.{
  ◌≡◌, refl, ap, ◌∙◌, true, Option, none, some, List, [], ◌∷◌, ◌++◌, map, Result, ok, err,
}
use drivewire_rs.Io.{IoKind}
use drivewire_rs.Server.Listeners.{
  Entry, absent, live_socket, stale_socket, left_at, SocketHost, remove_file, bind, bind_free,
  Listening, accept_loop, run_listener,
}

-- What `accept` returns over time: connections, and then an error, or none yet.
abbrev pub arriving {ℓ} : {A : Type ℓ} → List A → List (Result IoKind A) → List (Result IoKind A)
arriving streams rest = map ok streams ++ rest

accept_loop-arriving :
    {A : Type 0} (streams : List A) (rest : List (Result IoKind A))
    → accept_loop (arriving streams rest)
      ≡ (let (tasks, ending) = accept_loop rest in (streams ++ tasks, ending))
unfolding accept_loop
accept_loop-arriving [] rest = refl
accept_loop-arriving (s ∷ streams) rest =
    ap (λ l. (s ∷ l.0, l.1)) (accept_loop-arriving streams rest)

-- What is left of a listener that may remove what stands at its path: it ends with the error of `bind`, and
-- nothing at the path, or with that of `accept`, behind a task for each connection, and its socket stale.
abbrev pub replaced : {A : Type 0} → Option IoKind → List A → IoKind → Listening A × Entry
replaced none tasks kind = ((tasks, some kind), stale_socket)
replaced (some e) tasks kind = (([], some e), absent)

module _ {A : Type 0} (host : SocketHost) (entry : Entry) (streams : List A) (kind : IoKind)
    (more : List (Result IoKind A)) (removes : host.removes ≡ true) where
  bound-replaced :
      (bind_error : Option IoKind)
      → host.bind_error ≡ bind_error
      → run_listener host entry (arriving streams (err kind ∷ more))
        ≡ replaced bind_error streams kind
  unfolding run_listener remove_file bind bind_free accept_loop left_at
  bound-replaced none e =
      rw (removes, e)
        (ap (λ l. (l, left_at live_socket l.1)) (accept_loop-arriving streams (err kind ∷ more))
          ∙ ap (λ l. ((l, some kind), stale_socket)) (append-nil streams))
  bound-replaced (some x) e = rw (removes, e) refl

  -- A listener that may remove what stands at its path, be it a socket that another process serves
  -- or a file of any kind: where its socket can be bound it serves, in order, each connection that
  -- is accepted before the first error of accept, and ends with that error, with a socket file that
  -- nobody serves left at the path; else it ends with the error of bind, with no connection served
  -- and nothing left at the path.
  pub run_listener-replaced :
      run_listener host entry (arriving streams (err kind ∷ more))
      ≡ replaced host.bind_error streams kind
  run_listener-replaced = bound-replaced host.bind_error refl
