-- ===== src/EchoGuest/Echo.antt =====
-- What is echoed: every byte that hosts sent, on its own channel and in order.
use drivewire_rs.Prelude.{
  ℕ, zero, suc, ◌-◌, ◌≤◌, ◌<◌, ◌≡◌, refl, ◌∙◌, sym, ap, List, [], ◌∷◌, ◌++◌, arith, ok, length,
  take, get_or, replicate,
}
use drivewire_rs.Prelude.Lists.{length-take}
use mathlib.Core.List.{append-nil}
use drivewire_rs.Io.Laws.{split_exact_all}
use drivewire_rs.EchoGuest.{burst, decode_reply, echo_back}
use drivewire_rs.EchoGuest.Loop.{answer, poll_once, greet, and_then, ◌>>=◌}
use drivewire_rs.EchoGuest.Served.{
  serve, split_output, served_link, session, turn_fast_write, turn-poll, turn_poll_many,
  turn_dwinit,
}
use drivewire_rs.Server.State.{Server, push_vserial, poll, read_many}
use drivewire_rs.Server.State.Poll.{guest_reply}
use drivewire_rs.Server.State.Queues.{queue, read_many_lem}
use drivewire_rs.Server.Actions.{perform, poll_one, poll_many}
use drivewire_rs.Server.Session.{World}
use drivewire_rs.Server.Session.Laws.{fed, sent}

-- The server after fast writes of these bytes.
abbrev pub push_all : ℕ → List ℕ → Server → Server
push_all c [] s = s
push_all c (b ∷ bytes) s = push_all c bytes (push_vserial c b s)

serve-echo_back :
    (w : World) (c fuel : ℕ) (bytes : List ℕ) (s : Server)
    → c < 16
    → length (echo_back c bytes) ≤ fuel
    → serve fuel (fed (echo_back c bytes) (session w s)) ≡ session w (push_all c bytes s)
unfolding serve echo_back
serve-echo_back w c zero [] s h k = refl
serve-echo_back w c (suc fuel) [] s h k = refl
serve-echo_back w c zero (b ∷ bytes) s h k = absurd (omega arith)
serve-echo_back w c (suc fuel) (b ∷ bytes) s h k =
    rw (turn_fast_write w s c b (echo_back c bytes) h)
      (serve-echo_back w c fuel bytes (push_vserial c b s) h (omega arith))

unpadded_take :
    (n : ℕ) (q : List ℕ) → n ≤ length q → take n q ++ replicate (n - length q) 0 ≡ take n q
unpadded_take n q h = let e : n - length q ≡ 0 = omega arith in rw (e, append-nil)

-- What is written and read on the connection of a session that waits for a command.
pub write_echo :
    (w : World) (s : Server) (c : ℕ) (bytes : List ℕ)
    → c < 16
    → served_link.write_all (echo_back c bytes) (session w s)
      ≡ (ok tt, session w (push_all c bytes s))
unfolding served_link
write_echo w s c bytes h =
    ap (λ v. (ok tt, v)) (serve-echo_back w c (length (echo_back c bytes)) bytes s h (omega arith))

write_poll :
    (w : World) (s : Server)
    → served_link.write_all (0x43 ∷ []) (session w s)
      ≡ (ok tt, sent (poll 0 s.vserial_outbox).0 (session w (perform poll_one s)))
unfolding served_link serve
write_poll w s = ap (λ r. (ok tt, r.1)) (turn-poll w s)

write_poll_many :
    (w : World) (s : Server) (c n : ℕ)
    → served_link.write_all (0x63 ∷ c ∷ n ∷ []) (session w s)
      ≡ (ok tt, sent (read_many c n s.vserial_outbox).0 (session w (perform (poll_many c n) s)))
unfolding served_link serve
write_poll_many w s c n = ap (λ r. (ok tt, serve 2 r.1)) (turn_poll_many w s c n)

read_sent :
    (w : World) (s : Server) (n : ℕ) (bytes : List ℕ)
    → n ≡ length bytes
    → served_link.read_exact n (sent bytes (session w s)) ≡ (ok bytes, session w s)
unfolding served_link
read_sent w s n bytes e =
    rw e (ap (split_output (sent bytes (session w s))) (split_exact_all bytes))

-- The answer to a burst of `n` bytes that are all there.
pub answer-burst :
    (w : World) (s : Server) (c n : ℕ)
    → c < 16
    → n ≤ length (queue s.vserial_outbox c)
    → answer served_link (burst c n) (session w s) ≡ (
      ok tt,
      session w (push_all c (take n (queue s.vserial_outbox c)) (perform (poll_many c n) s)),
    )
unfolding answer ◌>>=◌ and_then
answer-burst w s c n h k =
    let q : List ℕ = queue s.vserial_outbox c in
    let s' = perform (poll_many c n) s in
    let sends : (read_many c n s.vserial_outbox).0 ≡ take n q =
      ap (λ r. r.0) (read_many_lem c n s.vserial_outbox h) ∙ unpadded_take n q k in
    rw (write_poll_many w s c n, sends)
      (ap (and_then (λ buf. served_link.write_all (echo_back c buf)))
          (read_sent w s' n (take n q) (omega (arith, length-take n q)))
        ∙ write_echo w s' c (take n q) h)

poll-pair : (idx : ℕ) (qs : List (List ℕ)) → length (poll idx qs).0 ≡ 2
unfolding poll
poll-pair idx [] = refl
poll-pair idx ([] ∷ qs) = poll-pair (suc idx) qs
poll-pair idx ((b ∷ q) ∷ qs) = ground arith

reply_of_pair :
    (xs : List ℕ) → length xs ≡ 2 → guest_reply xs ≡ decode_reply (get_or xs 0 0) (get_or xs 1 0)
unfolding guest_reply
reply_of_pair [] h = absurd (omega arith)
reply_of_pair (x ∷ []) h = absurd (omega arith)
reply_of_pair (x ∷ y ∷ []) h = refl
reply_of_pair (x ∷ y ∷ z ∷ xs) h = absurd (omega arith)

pub poll_once_lem :
    (w : World) (s : Server)
    → poll_once served_link (session w s)
      ≡ answer served_link
          (guest_reply (poll 0 s.vserial_outbox).0)
          (session w (perform poll_one s))
unfolding poll_once ◌>>=◌ and_then
poll_once_lem w s =
    let reply : List ℕ = (poll 0 s.vserial_outbox).0 in
    let pair = poll-pair 0 s.vserial_outbox in
    rw (write_poll w s) (
      ap (and_then (λ resp. answer served_link (decode_reply (get_or resp 0 0) (get_or resp 1 0))))
        (read_sent w (perform poll_one s) 2 reply (sym pair))
      ∙ ap (λ r. answer served_link r (session w (perform poll_one s)))
          (sym (reply_of_pair reply pair)))

write_greeting :
    (w : World) (s : Server)
    → served_link.write_all (0x5a ∷ 0x42 ∷ []) (session w s)
      ≡ (ok tt, sent (0x04 ∷ []) (session w s))
unfolding served_link serve
write_greeting w s = ap (λ r. (ok tt, serve 1 r.1)) (turn_dwinit w s)

-- The server's answer to DWINIT.
pub greet_lem :
    (w : World) (s : Server) → greet served_link (session w s) ≡ (ok (0x04 ∷ []), session w s)
unfolding greet ◌>>=◌ and_then
greet_lem w s =
    ap (and_then (λ _. served_link.read_exact 1)) (write_greeting w s)
    ∙ read_sent w s 1 (0x04 ∷ []) refl
