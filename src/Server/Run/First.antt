-- ===== src/Server/Run/First.antt =====
-- The command at the head of a stream: what it asks of the server, and what its answer gives the guest of
-- the bytes of one channel.
use mathlib.Core.List.{flat_map}
use drivewire_rs.Prelude.{
  ℕ, ◌≤◌, ◌≡◌, refl, ◌∙◌, sym, ap, Bool-cases, inl, inr, List, [], ◌∷◌, ◌++◌, arith, leb, ◌==◌,
  if◌then◌else◌, take, drop, length,
}
use drivewire_rs.Io.{steady}
use drivewire_rs.Proto.Opcode.{Opcode, Decoded, from_byte}
use drivewire_rs.Server.State.{Server, poll, read_many}
use drivewire_rs.Server.State.Poll.{guest_reply}
use drivewire_rs.Server.State.Queues.{queue}
use drivewire_rs.Server.Actions.{
  Action, perform_all, host_bytes, to_guest, to_host, gathered, carried,
}
use drivewire_rs.Server.Session.{World, io, ◌>>=◌, at, send}
use drivewire_rs.Server.Session.Laws.{fed, received, send_steady, bind_of_ok, bind-receive_enough}
use drivewire_rs.Server.Handlers.{poll_outbox, handle_serread, take_outbox, handle_serreadm}
use drivewire_rs.Server.Run.{dispatch, handle_op, turn}
use drivewire_rs.Server.Run.Framing.{payload_len, turn-fed, turn-fed_nil, turn_framing}
use drivewire_rs.Server.Run.Atomic.{turn_atomic}
use drivewire_rs.Server.Run.Asked.{asked, told}
use drivewire_rs.Server.Run.Refinement.{turn-asked}

-- What the first command of a stream asks for, if it has all of its payload.
unfoldable pub first_asked : List ℕ → List Action
first_asked [] = []
first_asked (b ∷ xs) =
    if leb (payload_len (from_byte b) xs) (length xs) then asked (from_byte b) xs else []

-- What a guest takes of the bytes of channel `c` from the answer to a command: the byte that the reply
-- to SERREAD carries, and of the answer to SERREADM as many bytes as waited.
unfoldable pub given_by : ℕ → Decoded → List ℕ → List ℕ → List ℕ → List ℕ
given_by c (Decoded.op Opcode.ser_read) xs waiting answer = carried c (guest_reply answer)
given_by c (Decoded.op Opcode.ser_read_m) xs waiting answer =
    if at xs 0 == c then take (length waiting) answer else []
given_by c _ xs waiting answer = []

unfoldable pub first_given : ℕ → List ℕ → List ℕ → List ℕ → List ℕ
unfolding given_by
first_given c [] waiting answer = []
first_given c (b ∷ xs) waiting answer =
    if leb (payload_len (from_byte b) xs) (length xs)
    then given_by c (from_byte b) xs waiting answer
    else []

pub turn-first_asked :
    (xs : List ℕ) (w : World)
    → w.wire.sink ≡ steady
    → (turn (fed xs w)).1.server ≡ perform_all (first_asked xs) w.server
unfolding first_asked perform_all
turn-first_asked [] w s = ap (λ r. r.1.server) (turn-fed_nil w)
turn-first_asked (b ∷ xs) w s =
    let (left, stays, ends, enough, short) = turn_framing b xs w s in
    elim (Bool-cases (leb (payload_len (from_byte b) xs) (length xs))) [
      | inl fits ↦ rw fits (turn-asked b xs w s (enough (ground (arith, fits))))
      | inr cut ↦
          rw cut
            (turn_atomic (fed (b ∷ xs) w) (io w.wire.ending) s (short (ground (arith, cut)))).server
    ]

-- No session does what a host does.
told-host_bytes : (c channel code : ℕ) → flat_map (host_bytes c) (told channel code) ≡ []
unfolding host_bytes flat_map
told-host_bytes c channel code = ground arith

told-to_host : (c channel code : ℕ) (s : Server) → gathered (to_host c) (told channel code) s ≡ []
unfolding to_host gathered
told-to_host c channel code s = ground arith

told-to_guest : (c channel code : ℕ) (s : Server) → gathered (to_guest c) (told channel code) s ≡ []
unfolding to_guest gathered
told-to_guest c channel code s = ground arith

asked-host_bytes : (c : ℕ) (d : Decoded) (xs : List ℕ) → flat_map (host_bytes c) (asked d xs) ≡ []
unfolding asked host_bytes flat_map
asked-host_bytes c (Decoded.fast_write channel) xs = refl
asked-host_bytes c (Decoded.unknown b) xs = refl
asked-host_bytes c (Decoded.op Opcode.ser_set_stat) xs = told-host_bytes c (at xs 0) (at xs 1)
asked-host_bytes c (Decoded.op _) xs = refl

asked-to_host :
    (c : ℕ) (d : Decoded) (xs : List ℕ) (s : Server) → gathered (to_host c) (asked d xs) s ≡ []
unfolding asked to_host gathered
asked-to_host c (Decoded.fast_write channel) xs s = refl
asked-to_host c (Decoded.unknown b) xs s = refl
asked-to_host c (Decoded.op Opcode.ser_set_stat) xs s = told-to_host c (at xs 0) (at xs 1) s
asked-to_host c (Decoded.op _) xs s = refl

pub first-host_bytes : (c : ℕ) (xs : List ℕ) → flat_map (host_bytes c) (first_asked xs) ≡ []
unfolding first_asked flat_map
first-host_bytes c [] = refl
first-host_bytes c (b ∷ xs) = elim (Bool-cases (leb (payload_len (from_byte b) xs) (length xs))) [
  | inl h ↦ rw h (asked-host_bytes c (from_byte b) xs)
  | inr h ↦ rw h
]

pub first-to_host :
    (c : ℕ) (xs : List ℕ) (s : Server) → gathered (to_host c) (first_asked xs) s ≡ []
unfolding first_asked gathered
first-to_host c [] s = refl
first-to_host c (b ∷ xs) s = elim (Bool-cases (leb (payload_len (from_byte b) xs) (length xs))) [
  | inl h ↦ rw h (asked-to_host c (from_byte b) xs s)
  | inr h ↦ rw h
]

-- What has been written behind what was there.
drop_written : (xs ys : List ℕ) → drop (length xs) (xs ++ ys) ≡ ys
drop_written [] ys = refl
drop_written (x ∷ xs) ys = drop_written xs ys

abbrev pub answer_to : World → World → List ℕ
answer_to w w' = drop (length w.wire.output) w'.wire.output

serread-answer :
    (w : World)
    → w.wire.sink ≡ steady
    → answer_to w (handle_serread w).1 ≡ (poll 0 w.server.vserial_outbox).0
unfolding handle_serread poll_outbox
serread-answer w s =
    let (reply, rest) = poll 0 w.server.vserial_outbox in
    let v : World = record w { server = record w.server { vserial_outbox = rest } } in
    ap (λ r. answer_to w r.1) (bind_of_ok poll_outbox (λ x. send x) w refl ∙ send_steady reply v s)
    ∙ drop_written w.wire.output reply

at_of_two :
    (xs : List ℕ) → 2 ≤ length xs → (at (take 2 xs) 0 ≡ at xs 0) × (at (take 2 xs) 1 ≡ at xs 1)
at_of_two [] h = absurd (omega arith)
at_of_two (x ∷ []) h = absurd (omega arith)
at_of_two (x ∷ y ∷ xs) h = (refl, refl)

serreadm-answer :
    (xs : List ℕ) (w : World)
    → w.wire.sink ≡ steady
    → 2 ≤ length xs
    → answer_to w (handle_serreadm (fed xs w)).1
      ≡ (read_many (at xs 0) (at xs 1) w.server.vserial_outbox).0
unfolding handle_serreadm take_outbox
serreadm-answer xs w s h =
    let (p, q) = at_of_two xs h in
    let c = at (take 2 xs) 0 in
    let n = at (take 2 xs) 1 in
    let (bytes, rest) = read_many c n w.server.vserial_outbox in
    let u : World = received 2 (fed xs w) in
    let v : World = record u { server = record w.server { vserial_outbox = rest } } in
    ap (λ r. answer_to w r.1)
      (bind-receive_enough 2 (λ z. take_outbox (at z 0) (at z 1) >>= λ y. send y) (fed xs w) h
        ∙ bind_of_ok (take_outbox c n) (λ y. send y) u refl
        ∙ send_steady bytes v s)
    ∙ drop_written w.wire.output bytes
    ∙ (λ i. (read_many (p i) (q i) w.server.vserial_outbox).0)

append_none : (xs : List ℕ) → xs ++ [] ≡ xs
append_none [] = refl
append_none (x ∷ xs) = ap (λ ys. x ∷ ys) (append_none xs)

asked-to_guest :
    (c : ℕ) (d : Decoded) (xs : List ℕ) (w : World)
    → w.wire.sink ≡ steady
    → payload_len d xs ≤ length xs
    → gathered (to_guest c) (asked d xs) w.server
      ≡ given_by c d xs (queue w.server.vserial_outbox c) (answer_to w (dispatch d (fed xs w)).1)
unfolding asked to_guest gathered given_by dispatch handle_op payload_len
asked-to_guest c (Decoded.fast_write channel) xs w s h = refl
asked-to_guest c (Decoded.unknown b) xs w s h = refl
asked-to_guest c (Decoded.op Opcode.ser_read) xs w s h =
    append_none _ ∙ ap (λ a. carried c (guest_reply a)) (sym (serread-answer (fed xs w) s))
asked-to_guest c (Decoded.op Opcode.ser_read_m) xs w s h =
    append_none _
    ∙ ap (λ a. if at xs 0 == c then take (length (queue w.server.vserial_outbox c)) a else [])
        (sym (serreadm-answer xs w s h))
asked-to_guest c (Decoded.op Opcode.ser_set_stat) xs w s h =
    told-to_guest c (at xs 0) (at xs 1) w.server
asked-to_guest c (Decoded.op _) xs w s h = refl

-- What the first command takes for the guest is what its answer carries.
pub first-to_guest :
    (c : ℕ) (xs : List ℕ) (w : World)
    → w.wire.sink ≡ steady
    → gathered (to_guest c) (first_asked xs) w.server
      ≡ first_given c xs (queue w.server.vserial_outbox c) (answer_to w (turn (fed xs w)).1)
unfolding first_asked first_given gathered
first-to_guest c [] w s = refl
first-to_guest c (b ∷ xs) w s = elim (Bool-cases (leb (payload_len (from_byte b) xs) (length xs))) [
  | inl fits ↦ rw fits (
      asked-to_guest c (from_byte b) xs w s (ground (arith, fits))
      ∙ ap (λ r. given_by c (from_byte b) xs (queue w.server.vserial_outbox c) (answer_to w r.1))
          (sym (turn-fed b xs w)))
  | inr cut ↦ rw cut
]
