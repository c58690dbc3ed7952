-- ===== src/EchoGuest/Rounds.antt =====
-- One pass of the guest's loop over a valid server with bytes for it.
use drivewire_rs.Prelude.{
  ℕ, ◌+◌, ◌-◌, ◌≤◌, ◌<◌, ◌≡◌, ◌≢◌, refl, ◌∙◌, sym, ap, false, Bool-cases, inl, inr, List, [], ◌∷◌,
  ◌++◌, arith, some, ok, length, take, drop, set, min, ◌==◌, ==_iff, ltb, if◌then◌else◌,
}
use mathlib.Core.List.{append-nil, append_assoc}
use drivewire_rs.EchoGuest.{single, burst}
use drivewire_rs.EchoGuest.Loop.{answer, poll_once}
use drivewire_rs.EchoGuest.Served.{served_link, session}
use drivewire_rs.EchoGuest.Echo.{push_all, write_echo, answer-burst, poll_once_lem}
use drivewire_rs.Server.State.{Server, vserial_channels, push_vserial, poll}
use drivewire_rs.Server.State.Poll.{first_ready, guest_reply, poll_decodes}
use drivewire_rs.Server.State.Queues.{queue, queue-set, first_ready-queue, read_many_lem}
use drivewire_rs.Server.Actions.{perform, poll_one, poll_many, write}
use drivewire_rs.Server.Actions.Valid.{IsValid, perform-IsValid}
use drivewire_rs.Server.Session.{World}

push_all-IsValid : (c : ℕ) (bytes : List ℕ) (s : Server) → IsValid s → IsValid (push_all c bytes s)
unfolding perform
push_all-IsValid c [] s v = v
push_all-IsValid c (b ∷ bytes) s v =
    push_all-IsValid c bytes (push_vserial c b s) (perform-IsValid (write c b) s v)

push_outbox : (c b : ℕ) (s : Server) → (push_vserial c b s).vserial_outbox ≡ s.vserial_outbox
unfolding push_vserial
push_outbox c b s = ground arith

push_inbox :
    (c b : ℕ) (s : Server) (j : ℕ)
    → IsValid s
    → c < vserial_channels
    → queue (push_vserial c b s).vserial_inbox j
      ≡ (if c == j then queue s.vserial_inbox c ++ (b ∷ []) else queue s.vserial_inbox j)
unfolding push_vserial
push_inbox c b s j v h =
    ground (arith, queue-set s.vserial_inbox c j (queue s.vserial_inbox c ++ (b ∷ [])))

push_all-outbox :
    (c : ℕ) (bytes : List ℕ) (s : Server) → (push_all c bytes s).vserial_outbox ≡ s.vserial_outbox
push_all-outbox c [] s = refl
push_all-outbox c (b ∷ bytes) s = push_all-outbox c bytes (push_vserial c b s) ∙ push_outbox c b s

push_all-queue :
    (c : ℕ) (bytes : List ℕ) (s : Server) (j : ℕ)
    → IsValid s
    → c < vserial_channels
    → queue (push_all c bytes s).vserial_inbox j
      ≡ (if c == j then queue s.vserial_inbox c ++ bytes else queue s.vserial_inbox j)
push_all-queue c [] s j v h = elim (Bool-cases (c == j)) [
  | inl e ↦ rw (e, append-nil, (==_iff c j).0 e)
  | inr e ↦ rw e
]
push_all-queue c (b ∷ bytes) s j v h =
    let s' = push_vserial c b s in
    let ih = push_all-queue c bytes s' j (push_all-IsValid c (b ∷ []) s v) h in
    let at_c = push_inbox c b s c v h in
    let at_j = push_inbox c b s j v h in
    ground (arith, ih, at_c, at_j, append_assoc (queue s.vserial_inbox c) (b ∷ []) bytes)

-- The first `k` bytes of channel `c` went from its outbox to its inbox.
pub record Moved (c k : ℕ) (s s' : Server) : Type 0 where
  pub valid : IsValid s'
  pub outbox : s'.vserial_outbox ≡ set s.vserial_outbox c (drop k (queue s.vserial_outbox c))
  pub inbox :
      (j : ℕ)
      → queue s'.vserial_inbox j ≡ (
          if c == j
          then queue s.vserial_inbox c ++ take k (queue s.vserial_outbox c)
          else queue s.vserial_inbox j)

-- A pass of the loop that finds bytes.
pub record Round (w : World) (s : Server) : Type 0 where
  pub channel : ℕ
  pub count : ℕ
  pub after : Server
  pub passes : poll_once served_link (session w s) ≡ (ok tt, session w after)
  pub some_bytes : 0 < count
  pub there : channel < vserial_channels
  pub enough : count ≤ length (queue s.vserial_outbox channel)
  pub moved : Moved channel count s after

push_all-Moved :
    (c k : ℕ) (s s' : Server)
    → IsValid s'
    → c < vserial_channels
    → s'.vserial_outbox ≡ set s.vserial_outbox c (drop k (queue s.vserial_outbox c))
    → s'.vserial_inbox ≡ s.vserial_inbox
    → Moved c k s (push_all c (take k (queue s.vserial_outbox c)) s')
push_all-Moved c k s s' v h o i =
    let bytes : List ℕ = take k (queue s.vserial_outbox c) in
    record {
      valid = push_all-IsValid c bytes s' v;
      outbox = push_all-outbox c bytes s' ∙ o;
      inbox = λ j. rw (← i) (push_all-queue c bytes s' j v h);
    }

Round-single :
    (w : World) (s : Server) (c byte : ℕ) (q : List ℕ)
    → IsValid s
    → c < 15
    → queue s.vserial_outbox c ≡ byte ∷ q
    → guest_reply (poll 0 s.vserial_outbox).0 ≡ single c byte
    → (poll 0 s.vserial_outbox).1 ≡ set s.vserial_outbox c q
    → Round w s
unfolding answer perform
Round-single w s c byte q v h e r o =
    let s' = perform poll_one s in
    let front : take 1 (queue s.vserial_outbox c) ≡ byte ∷ [] = rw e in
    let back : drop 1 (queue s.vserial_outbox c) ≡ q = rw e in
    record {
      channel = c;
      count = 1;
      after = push_all c (take 1 (queue s.vserial_outbox c)) s';
      passes =
          poll_once_lem w s
          ∙ ap (λ x. answer served_link x (session w s')) r
          ∙ write_echo w s' c (byte ∷ []) (omega arith)
          ∙ ap (λ bytes. (ok tt, session w (push_all c bytes s'))) (sym front);
      some_bytes = omega arith;
      there = omega arith;
      enough = omega (arith, ap length e);
      moved =
          push_all-Moved c 1 s s' (perform-IsValid poll_one s v) (omega arith)
            (o ∙ ap (λ x. set s.vserial_outbox c x) (sym back)) refl;
    }

Round-burst :
    (w : World) (s : Server) (c byte : ℕ) (q : List ℕ)
    → IsValid s
    → c < 15
    → queue s.vserial_outbox c ≡ byte ∷ q
    → guest_reply (poll 0 s.vserial_outbox).0 ≡ burst c (min (length q + 1) 255)
    → (poll 0 s.vserial_outbox).1 ≡ s.vserial_outbox
    → Round w s
unfolding perform
Round-burst w s c byte q v h e r o =
    let n = min (length q + 1) 255 in
    let s' = perform poll_one s in
    let fits : n ≤ length (queue s.vserial_outbox c) = omega (arith, ap length e) in
    record {
      channel = c;
      count = n;
      after = push_all c (take n (queue s.vserial_outbox c)) (perform (poll_many c n) s');
      passes =
          poll_once_lem w s
          ∙ ap (λ x. answer served_link x (session w s')) r
          ∙ answer-burst w s' c n (omega arith) (rw o fits)
          ∙ ap
              (λ qs.
                (ok tt, session w (push_all c (take n (queue qs c)) (perform (poll_many c n) s'))))
              o;
      some_bytes = omega arith;
      there = omega arith;
      enough = fits;
      moved =
          push_all-Moved c n s (perform (poll_many c n) s')
            (perform-IsValid (poll_many c n) s' (perform-IsValid poll_one s v)) (omega arith)
            (ap (λ r. r.1) (read_many_lem c n s'.vserial_outbox (omega arith))
              ∙ ap (λ qs. set qs c (drop n (queue qs c))) o)
            refl;
    }

pub round :
    (w : World) (s : Server) (c byte : ℕ) (q : List ℕ)
    → IsValid s
    → queue s.vserial_outbox 15 ≡ []
    → first_ready 0 s.vserial_outbox ≡ some (c, byte, q)
    → Round w s
round w s c byte q v h f =
    let (le, lt, at_c) = first_ready-queue 0 s.vserial_outbox c byte q f in
    let zeros : c - 0 ≡ c = omega arith in
    let here : queue s.vserial_outbox c ≡ byte ∷ q = rw (← zeros) at_c in
    let other : c ≢ 15 = λ e. nonempty byte q (sym here ∙ ap (queue s.vserial_outbox) e ∙ h) in
    let below : c < 15 = omega (arith, v.outboxes) in
    let not_last : (c == 15) ≡ false = ground arith in
    let (reads, leaves) = poll_decodes s.vserial_outbox c byte q (omega (arith, v.outboxes)) f in
    elim (Bool-cases (ltb (length q) 2)) [
      | inl e ↦ Round-single w s c byte q v below here (rw (e, not_last) at reads) (rw e at leaves)
      | inr e ↦ Round-burst w s c byte q v below here (rw (e, not_last) at reads) (rw e at leaves)
    ]
  where
    nonempty : (b : ℕ) (bs : List ℕ) → (b ∷ bs) ≢ []
    nonempty b bs e = cc
