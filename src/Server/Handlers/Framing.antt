-- ===== src/Server/Handlers/Framing.antt =====
-- How many bytes each handler takes from the stream.
use drivewire_rs.Prelude.{
  ℕ, ◌+◌, ◌≡◌, refl, List, arith, true, false, Bool, Bool-cases, inl, inr, ◌==◌, if◌then◌else◌,
  take,
}
use drivewire_rs.Proto.Lsn.{Lsn}
use drivewire_rs.Vdisk.{Sector}
use drivewire_rs.Server.State.{poll, read_many}
use drivewire_rs.Server.Session.{Session, ◌>>=◌, receive, at}
use drivewire_rs.Server.Session.Framed.{
  Framed, Quiet, Quiet-Framed, Quiet-done, Quiet-gets, Quiet-modify, Quiet-send, Quiet-bind,
  Framed-Quiet, Framed-receive,
}
use drivewire_rs.Server.Handlers.{
  handle_read, read_reply, handle_write, store, store_sector, handle_dwinit, handle_stat,
  handle_print, handle_print_flush, handle_fastwrite, handle_serwrite, handle_ser_open, poll_outbox,
  handle_serread, handle_serwritem, set_stat, comst, open_code, close_code, handle_sersetstat,
  take_outbox, handle_serreadm, handle_time,
}

-- A handler that reads once, `n` bytes, and then answers.
receive_once {κ} :
    {B : Type κ} (n : ℕ) {f : List ℕ → Session B}
    → ((bytes : List ℕ) → Quiet (f bytes))
    → Framed (λ _. n + 0) (receive n >>= f)
receive_once n {f} q = Framed-receive n (λ _ _. 0) f (λ bytes. Quiet-Framed (q bytes))

pub Quiet-store_sector :
    (slot : ℕ) (lsn : Lsn) (sector : Sector) → Quiet (store_sector slot lsn sector)
unfolding store_sector
Quiet-store_sector slot lsn sector = record {
  at = λ w s.
      let (status, files) = store w.server.drives w.files slot lsn sector in
      (status, record w { files = files }, refl, refl, s, refl);
}

pub Quiet-poll_outbox : Quiet poll_outbox
unfolding poll_outbox
Quiet-poll_outbox = record {
  at = λ w s.
      let (reply, rest) = poll 0 w.server.vserial_outbox in
      (reply, record w { server = record w.server { vserial_outbox = rest } }, refl, refl, s, refl);
}

pub Quiet-take_outbox : (channel count : ℕ) → Quiet (take_outbox channel count)
unfolding take_outbox
Quiet-take_outbox channel count = record {
  at = λ w s.
      let (bytes, rest) = read_many channel count w.server.vserial_outbox in
      (bytes, record w { server = record w.server { vserial_outbox = rest } }, refl, refl, s, refl);
}

read_reply-Framed :
    (extended : Bool) (sector : Sector)
    → Framed (λ _. if extended then 2 else 0) (read_reply extended sector)
unfolding read_reply
read_reply-Framed true sector = receive_once 2 (λ sum. Quiet-send _)
read_reply-Framed false sector = Quiet-Framed (Quiet-send _)

pub handle_read-Framed :
    (extended : Bool) → Framed (λ _. if extended then 6 else 4) (handle_read extended)
unfolding handle_read
handle_read-Framed true =
    Framed-receive 4 (λ _ _. 2) _
      λ hdr.
        Framed-Quiet (Quiet-gets _)
          λ sector. Framed-Quiet (Quiet-send sector) λ _. read_reply-Framed true sector
handle_read-Framed false =
    Framed-receive 4 (λ _ _. 0) _
      λ hdr.
        Framed-Quiet (Quiet-gets _)
          λ sector. Framed-Quiet (Quiet-send sector) λ _. read_reply-Framed false sector

Quiet-if {ℓ} :
    {A : Type ℓ} (b : Bool) {m n : Session A} → Quiet m → Quiet n → Quiet (if b then m else n)
Quiet-if true p q = p
Quiet-if false p q = q

pub handle_write-Framed : Framed (λ _. 262) handle_write
unfolding handle_write
handle_write-Framed =
    Framed-receive 4 (λ _ _. 258) _
      λ hdr.
        Framed-receive 256 (λ _ _. 2) _
          λ sector. receive_once 2 λ sum.
            Quiet-if _ (Quiet-bind (Quiet-store_sector _ _ _) λ status. Quiet-send _) (Quiet-send _)

pub handle_dwinit-Framed : Framed (λ _. 1) handle_dwinit
unfolding handle_dwinit
handle_dwinit-Framed = receive_once 1 λ driver. Quiet-send _

pub handle_stat-Framed : Framed (λ _. 2) handle_stat
unfolding handle_stat
handle_stat-Framed = receive_once 2 λ p. Quiet-done

pub handle_print-Framed : Framed (λ _. 1) handle_print
unfolding handle_print
handle_print-Framed = receive_once 1 λ b. Quiet-modify _

pub handle_print_flush-Framed : Framed (λ _. 0) handle_print_flush
unfolding handle_print_flush
handle_print_flush-Framed = Quiet-Framed (Quiet-modify _)

pub handle_fastwrite-Framed : (channel : ℕ) → Framed (λ _. 1) (handle_fastwrite channel)
unfolding handle_fastwrite
handle_fastwrite-Framed channel = receive_once 1 λ b. Quiet-modify _

pub handle_serwrite-Framed : Framed (λ _. 2) handle_serwrite
unfolding handle_serwrite
handle_serwrite-Framed = receive_once 2 λ p. Quiet-modify _

pub handle_ser_open-Framed : (flag : Bool) → Framed (λ _. 1) (handle_ser_open flag)
unfolding handle_ser_open
handle_ser_open-Framed flag = receive_once 1 λ ch. Quiet-modify _

pub handle_serread-Framed : Framed (λ _. 0) handle_serread
unfolding handle_serread
handle_serread-Framed = Quiet-Framed (Quiet-bind Quiet-poll_outbox λ reply. Quiet-send reply)

pub handle_serreadm-Framed : Framed (λ _. 2) handle_serreadm
unfolding handle_serreadm
handle_serreadm-Framed =
    receive_once 2 λ p. Quiet-bind (Quiet-take_outbox _ _) λ bytes. Quiet-send bytes

pub handle_time-Framed : Framed (λ _. 0) handle_time
unfolding handle_time
handle_time-Framed = Quiet-Framed (Quiet-bind (Quiet-gets _) λ m. Quiet-send _)

-- The second byte of the header says how long the burst is.
pub handle_serwritem-Framed : Framed (λ xs. 2 + (at (take 2 xs) 1 + 0)) handle_serwritem
unfolding handle_serwritem
handle_serwritem-Framed =
    Framed-receive 2 (λ hdr _. at hdr 1 + 0) _ λ hdr. receive_once (at hdr 1) λ buf. Quiet-modify _

set_stat-Framed :
    (channel code : ℕ) → Framed (λ _. if code == comst then 26 else 0) (set_stat channel code)
unfolding set_stat
set_stat-Framed channel code = elim (Bool-cases (code == open_code)) [
  | inl p ↦
      let q : (code == comst) ≡ false = ground arith in rw (p, q) (Quiet-Framed (Quiet-modify _))
  | inr p ↦ elim (Bool-cases (code == close_code)) [
    | inl q ↦
        let r : (code == comst) ≡ false = ground arith in
        rw (p, q, r) (Quiet-Framed (Quiet-modify _))
    | inr q ↦ elim (Bool-cases (code == comst)) [
      | inl r ↦ rw (p, q, r) (receive_once 26 λ payload. Quiet-done)
      | inr r ↦ rw (p, q, r) (Quiet-Framed Quiet-done)
    ]
  ]
]

-- Only SS.ComSt carries a payload.
pub handle_sersetstat-Framed :
    Framed (λ xs. 2 + (if at (take 2 xs) 1 == comst then 26 else 0)) handle_sersetstat
unfolding handle_sersetstat
handle_sersetstat-Framed =
    Framed-receive 2 (λ hdr _. if at hdr 1 == comst then 26 else 0) _
      λ hdr. set_stat-Framed (at hdr 0) (at hdr 1)
