-- ===== src/EchoGuest/Conversation.antt =====
-- The guest's loop until nothing waits: every byte that hosts sent comes back to them.
use drivewire_rs.Prelude.{
  ℕ, zero, suc, ◌+◌, ◌≤◌, ◌<◌, ◌≡◌, refl, ◌∙◌, ap, Bool-cases, inl, inr, List, [], ◌∷◌, ◌++◌, arith,
  Option, none, some, Result, ok, length, drop, set, ◌==◌, ==_iff,
}
use drivewire_rs.Prelude.Lists.{take-append-drop, length-drop}
use mathlib.Core.List.{append-nil, append_assoc}
use drivewire_rs.Io.{IoKind}
use drivewire_rs.EchoGuest.Loop.{answer, poll_once, poll_loop, converse, done, and_then, ◌>>=◌}
use drivewire_rs.EchoGuest.Served.{served_link, session}
use drivewire_rs.EchoGuest.Rounds.{Moved, round}
use drivewire_rs.EchoGuest.Echo.{poll_once_lem, greet_lem}
use drivewire_rs.Server.State.{Server, vserial_channels}
use drivewire_rs.Server.State.Poll.{first_ready, poll_decodes_idle}
use drivewire_rs.Server.State.Queues.{queue, queue-set}
use drivewire_rs.Server.Actions.{perform, poll_one}
use drivewire_rs.Server.Actions.Valid.{IsValid, perform-IsValid}
use drivewire_rs.Server.Session.{World}

-- The number of bytes that wait in some outboxes.
unfoldable pub waiting : List (List ℕ) → ℕ
waiting [] = 0
waiting (q ∷ qs) = length q + waiting qs

waiting-set :
    (qs : List (List ℕ)) (c : ℕ) (q : List ℕ)
    → c < length qs
    → waiting (set qs c q) + length (queue qs c) ≡ waiting qs + length q
unfolding waiting
waiting-set [] c q h = absurd (omega arith)
waiting-set (p ∷ qs) zero q h = omega arith
waiting-set (p ∷ qs) (suc c) q h = omega (arith, waiting-set qs c q)

waiting-none : (idx : ℕ) (qs : List (List ℕ)) → first_ready idx qs ≡ none → waiting qs ≡ 0
unfolding waiting first_ready
waiting-none idx [] h = refl
waiting-none idx ([] ∷ qs) h = omega (arith, waiting-none (suc idx) qs h)
waiting-none idx ((b ∷ q) ∷ qs) h = cc

queue_of_waiting : (qs : List (List ℕ)) (c : ℕ) → waiting qs ≡ 0 → queue qs c ≡ []
unfolding waiting
queue_of_waiting [] c h = refl
queue_of_waiting ([] ∷ qs) zero h = refl
queue_of_waiting ((b ∷ q) ∷ qs) c h = absurd (omega arith)
queue_of_waiting ([] ∷ qs) (suc c) h = queue_of_waiting qs c (omega arith)

-- What a pass keeps: the bytes of each channel, those that came back in front of those that wait.
kept :
    (c k : ℕ) (s s' : Server) (j : ℕ)
    → IsValid s
    → c < vserial_channels
    → Moved c k s s'
    → queue s'.vserial_inbox j ++ queue s'.vserial_outbox j
      ≡ queue s.vserial_inbox j ++ queue s.vserial_outbox j
kept c k s s' j v h m =
    let out =
      ap (λ qs. queue qs j) m.outbox
      ∙ queue-set s.vserial_outbox c j (drop k (queue s.vserial_outbox c)) (omega arith) in
    elim (Bool-cases (c == j)) [
      | inl e ↦
          let same : c ≡ j = (==_iff c j).0 e in
          rw (m.inbox j, out, e)
            (append_assoc (queue s.vserial_inbox c) _ _
              ∙ ap (λ bytes. queue s.vserial_inbox c ++ bytes)
                  (take-append-drop k (queue s.vserial_outbox c))
              ∙ ap (λ i. queue s.vserial_inbox i ++ queue s.vserial_outbox i) same)
      | inr e ↦ rw (m.inbox j, out, e)
    ]

fewer :
    (c k : ℕ) (s s' : Server)
    → IsValid s
    → c < vserial_channels
    → 0 < k
    → k ≤ length (queue s.vserial_outbox c)
    → Moved c k s s'
    → waiting s'.vserial_outbox < waiting s.vserial_outbox
fewer c k s s' v h p l m =
    let q : List ℕ = queue s.vserial_outbox c in
    omega (
      arith,
      waiting-set s.vserial_outbox c (drop k q) (omega arith),
      length-drop k q,
      ap waiting m.outbox,
    )

-- After the loop: nothing waits, and each channel's bytes have come back in order.
pub record Echoed (w : World) (s : Server) (out : Result IoKind (Unit {0}) × World) : Type 0 where
  pub after : Server
  pub passed : out ≡ (ok tt, session w after)
  pub empty : (j : ℕ) → queue after.vserial_outbox j ≡ []
  pub back :
      (j : ℕ) → queue after.vserial_inbox j ≡ queue s.vserial_inbox j ++ queue s.vserial_outbox j

loop_step :
    (w : World) (s s' : Server) (n : ℕ)
    → poll_once served_link (session w s) ≡ (ok tt, session w s')
    → poll_loop served_link (suc n) (session w s) ≡ poll_loop served_link n (session w s')
unfolding poll_loop ◌>>=◌ and_then
loop_step w s s' n e = ap (and_then (λ _. poll_loop served_link n)) e

last_empty :
    (c k : ℕ) (s s' : Server)
    → IsValid s
    → c < vserial_channels
    → Moved c k s s'
    → queue s.vserial_outbox 15 ≡ []
    → queue s'.vserial_outbox 15 ≡ []
last_empty c k s s' v h m e =
    let out =
      ap (λ qs. queue qs 15) m.outbox
      ∙ queue-set s.vserial_outbox c 15 (drop k (queue s.vserial_outbox c)) (omega arith) in
    elim (Bool-cases (c == 15)) [
      | inl t ↦ rw (out, t, (==_iff c 15).0 t, e) (drop_none k)
      | inr f ↦ rw (out, f) e
    ]
  where
    drop_none : (n : ℕ) → drop {A = ℕ} n [] ≡ []
    drop_none zero = refl
    drop_none (suc n) = refl

-- A pass that finds nothing leaves the queues as they are.
idle_pass :
    (w : World) (s : Server)
    → first_ready 0 s.vserial_outbox ≡ none
    → (poll_once served_link (session w s) ≡ (ok tt, session w (perform poll_one s)))
      × ((perform poll_one s).vserial_outbox ≡ s.vserial_outbox)
unfolding answer done perform
idle_pass w s f =
    let (reads, leaves) = poll_decodes_idle s.vserial_outbox f in
    (
      poll_once_lem w s ∙ ap (λ x. answer served_link x (session w (perform poll_one s))) reads,
      leaves,
    )

echo_step :
    (n : ℕ) (w : World) (s : Server)
    → IsValid s
    → queue s.vserial_outbox 15 ≡ []
    → waiting s.vserial_outbox ≤ suc n
    → ((s' : Server)
        → IsValid s'
        → queue s'.vserial_outbox 15 ≡ []
        → waiting s'.vserial_outbox ≤ n
        → Echoed w s' (poll_loop served_link n (session w s')))
    → (o : Option (ℕ × ℕ × List ℕ)) → first_ready 0 s.vserial_outbox ≡ o
    → Echoed w s (poll_loop served_link (suc n) (session w s))
unfolding perform
echo_step n w s v h l ih none f =
    let (passes, same) = idle_pass w s f in
    let s' = perform poll_one s in
    let zero_left = ap waiting same ∙ waiting-none 0 s.vserial_outbox f in
    let rest =
      ih s' (perform-IsValid poll_one s v) (ap (λ qs. queue qs 15) same ∙ h)
        (omega (arith, zero_left)) in
    record {
      after = rest.after;
      passed = loop_step w s s' n passes ∙ rest.passed;
      empty = rest.empty;
      back = λ j. rest.back j ∙ ap (λ qs. queue s.vserial_inbox j ++ queue qs j) same;
    }
echo_step n w s v h l ih (some (c, byte, q)) f =
    let r = round w s c byte q v h f in
    let less = fewer r.channel r.count s r.after v r.there r.some_bytes r.enough r.moved in
    let rest =
      ih r.after r.moved.valid (last_empty r.channel r.count s r.after v r.there r.moved h)
        (omega (arith, less)) in
    record {
      after = rest.after;
      passed = loop_step w s r.after n r.passes ∙ rest.passed;
      empty = rest.empty;
      back = λ j. rest.back j ∙ kept r.channel r.count s r.after j v r.there r.moved;
    }

echo_loop :
    (n : ℕ) (w : World) (s : Server)
    → IsValid s
    → queue s.vserial_outbox 15 ≡ []
    → waiting s.vserial_outbox ≤ n
    → Echoed w s (poll_loop served_link n (session w s))
unfolding poll_loop done
echo_loop zero w s v h l = record {
  after = s;
  passed = refl;
  empty = λ j. queue_of_waiting s.vserial_outbox j (omega arith);
  back = λ j. rw (queue_of_waiting s.vserial_outbox j (omega arith), append-nil);
}
echo_loop (suc n) w s v h l =
    echo_step n w s v h l (λ s' v' h' l'. echo_loop n w s' v' h' l')
      (first_ready 0 s.vserial_outbox) refl

-- Against a valid server with nothing queued for channel 15, with as many passes as bytes wait for
-- the guest or more, the example guest's conversation with a session of the server ends without an
-- error, empties every outbox, and appends to each channel's inbox exactly the bytes that its outbox
-- held, in order.
pub converse-Echoed :
    (n : ℕ) (w : World) (s : Server)
    → IsValid s
    → queue s.vserial_outbox 15 ≡ []
    → waiting s.vserial_outbox ≤ n
    → Echoed w s (converse served_link n (session w s))
unfolding converse ◌>>=◌ and_then
converse-Echoed n w s v h l =
    let rest = echo_loop n w s v h l in
    record {
      after = rest.after;
      passed = ap (and_then (λ _. poll_loop served_link n)) (greet_lem w s) ∙ rest.passed;
      empty = rest.empty;
      back = rest.back;
    }
