-- ===== src/EchoGuest/Served.antt =====
-- A guest that talks to a session of the server: what it writes is served at once, and what it reads is
-- what the session has sent.
use drivewire_rs.Prelude.{
  ℕ, zero, suc, ◌+◌, ◌<◌, ◌≡◌, ◌∙◌, List, [], ◌∷◌, ◌++◌, Option, none, some, Result, ok, err,
  length,
}
use drivewire_rs.Io.{IoKind, steady, split_exact, write_all, read_exact}
use drivewire_rs.EchoGuest.Loop.{Link}
use drivewire_rs.Proto.Opcode.{from_byte, try_from}
use drivewire_rs.Proto.Opcode.Laws.{from_byte_fast_write}
use drivewire_rs.Server.State.{Server, push_vserial, poll, read_many}
use drivewire_rs.Server.Actions.{perform, poll_one, poll_many}
use drivewire_rs.Server.Session.{World, ◌>>=◌, receive, send, modify}
use drivewire_rs.Server.Session.Laws.{fed, sent}
use drivewire_rs.Server.Handlers.{
  handle_fastwrite, handle_dwinit, handle_serread, handle_serreadm, poll_outbox, take_outbox,
}
use drivewire_rs.Server.Run.{turn, dispatch, handle_op}
use drivewire_rs.Server.Run.Framing.{turn-fed}

-- Turns of the session while it has input.
unfoldable pub serve : ℕ → World → World
serve zero w = w
serve (suc fuel) w =
    let rest = serve fuel (turn w).1 in elim w.wire.input [ [] ↦ w | b ∷ xs ↦ rest ]

-- The first bytes of what the session has sent, and the session behind them.
abbrev pub split_output : World → Option (List ℕ × List ℕ) → Result IoKind (List ℕ) × World
split_output w none = (err w.wire.ending, w)
split_output w (some (front, back)) =
    (ok front, record w { wire = record w.wire { output = back } })

unfoldable pub served_link : Link World
unfolding serve split_exact
served_link = record {
  write_all = λ bytes w. (ok tt, serve (length bytes) (fed (w.wire.input ++ bytes) w));
  read_exact = λ n w. split_output w (split_exact n w.wire.output);
}

-- A session that waits for a command, on a peer that takes every byte.
abbrev pub session : World → Server → World
session w s = record w {
  server = s;
  wire = record { input = []; ending = w.wire.ending; sink = steady; output = [] };
}

pub turn_fast_write :
    (w : World) (s : Server) (c b : ℕ) (xs : List ℕ)
    → c < 16
    → turn (fed ((0x80 + c) ∷ b ∷ xs) (session w s))
      ≡ (ok tt, fed xs (session w (push_vserial c b s)))
unfolding dispatch handle_fastwrite ◌>>=◌ receive read_exact split_exact modify
turn_fast_write w s c b xs h =
    turn-fed (0x80 + c) (b ∷ xs) (session w s) ∙ rw (from_byte_fast_write c h)

pub turn-poll :
    (w : World) (s : Server)
    → turn (fed (0x43 ∷ []) (session w s))
      ≡ (ok tt, sent (poll 0 s.vserial_outbox).0 (session w (perform poll_one s)))
unfolding dispatch handle_op handle_serread poll_outbox ◌>>=◌ send write_all perform from_byte
    try_from
turn-poll w s = turn-fed 0x43 [] (session w s)

pub turn_poll_many :
    (w : World) (s : Server) (c n : ℕ)
    → turn (fed (0x63 ∷ c ∷ n ∷ []) (session w s))
      ≡ (ok tt, sent (read_many c n s.vserial_outbox).0 (session w (perform (poll_many c n) s)))
unfolding dispatch handle_op handle_serreadm take_outbox ◌>>=◌ receive read_exact split_exact send
    write_all perform from_byte try_from
turn_poll_many w s c n = turn-fed 0x63 (c ∷ n ∷ []) (session w s)

pub turn_dwinit :
    (w : World) (s : Server)
    → turn (fed (0x5a ∷ 0x42 ∷ []) (session w s)) ≡ (ok tt, sent (0x04 ∷ []) (session w s))
unfolding dispatch handle_op handle_dwinit ◌>>=◌ receive read_exact split_exact send write_all
    from_byte try_from
turn_dwinit w s = turn-fed 0x5a (0x42 ∷ []) (session w s)
