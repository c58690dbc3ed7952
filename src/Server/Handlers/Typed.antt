-- ===== src/Server/Handlers/Typed.antt =====
-- What the methods of the server do to queues of bytes.
use drivewire_rs.Prelude.{
  ℕ, ◌<◌, Bool, List, [], ◌∷◌, arith, ltb, leb, All, IsByte, IsBytes, Bool-cases, inl, inr, get_or,
}
use drivewire_rs.Prelude.Bytes.{append-All, set-All, get_or-All}
use drivewire_rs.Server.State.{Server, vserial_channels, extend, push_vserial, set_channel_open}
use drivewire_rs.Server.Actions.{write, write_many, open_channel, perform}
use drivewire_rs.Server.Actions.Valid.{IsValid, perform-IsValid}
use drivewire_rs.Server.Handlers.{extend_inbox}
use drivewire_rs.Server.Handlers.Bytes.{IsTyped}

pub extend-All :
    (queues : List (List ℕ)) (c : ℕ) (bytes : List ℕ)
    → All IsBytes queues
    → IsBytes bytes
    → All IsBytes (extend queues c bytes)
extend-All queues c bytes h k =
    set-All IsBytes queues c _ h
      (append-All IsByte (get_or queues c []) bytes (get_or-All IsBytes queues c [] h tt) k)

pub push-IsTyped : (c b : ℕ) (s : Server) → b < 256 → IsTyped s → IsTyped (push_vserial c b s)
unfolding push_vserial perform
push-IsTyped c b s h t = record {
  valid = perform-IsValid (write c b) s t.valid;
  inboxes = elim (Bool-cases (leb vserial_channels c)) [
    | inl e ↦ rw (push_vserial, e) t.inboxes
    | inr e ↦ rw (push_vserial, e) (extend-All s.vserial_inbox c (b ∷ []) t.inboxes (h, tt))
  ];
  outboxes = ground (arith, t.outboxes);
  printed = ground (arith, t.printed);
}

pub extend-IsTyped :
    (c : ℕ) (bs : List ℕ) (s : Server) → IsBytes bs → IsTyped s → IsTyped (extend_inbox c bs s)
unfolding extend_inbox perform
extend-IsTyped c bs s h t = record {
  valid = perform-IsValid (write_many c bs) s t.valid;
  inboxes = elim (Bool-cases (ltb c vserial_channels)) [
    | inl e ↦ rw (extend_inbox, e) (extend-All s.vserial_inbox c bs t.inboxes h)
    | inr e ↦ rw (extend_inbox, e) t.inboxes
  ];
  outboxes = ground (arith, t.outboxes);
  printed = ground (arith, t.printed);
}

pub open-IsTyped :
    (c : ℕ) (flag : Bool) (s : Server) → IsTyped s → IsTyped (set_channel_open c flag s)
unfolding set_channel_open perform
open-IsTyped c flag s t = record {
  valid = perform-IsValid (open_channel c flag) s t.valid;
  inboxes = ground (arith, t.inboxes);
  outboxes = ground (arith, t.outboxes);
  printed = ground (arith, t.printed);
}

pub print-IsTyped :
    (bytes : List ℕ) (s : Server)
    → IsBytes bytes
    → IsTyped s
    → IsTyped (record s { print_buffer = bytes })
print-IsTyped bytes s h t = record {
  valid = record {
    inboxes = t.valid.inboxes;
    outboxes = t.valid.outboxes;
    flags = t.valid.flags;
    permits = t.valid.permits;
  };
  inboxes = t.inboxes;
  outboxes = t.outboxes;
  printed = h;
}

-- Other outboxes of bytes.
pub outboxes-IsTyped :
    (qs : List (List ℕ)) (s : Server)
    → IsValid (record s { vserial_outbox = qs })
    → All IsBytes qs
    → IsTyped s
    → IsTyped (record s { vserial_outbox = qs })
outboxes-IsTyped qs s v h t = record {
  valid = v;
  inboxes = t.inboxes;
  outboxes = h;
  printed = t.printed;
}
