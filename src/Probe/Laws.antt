-- ===== src/Probe/Laws.antt =====
-- The probe against the server: the same handshake, and the same opcodes.
use drivewire_rs.Prelude.{
  ℕ, ◌≡◌, ◌≢◌, ◌↔◌, refl, sym, ap, ◌∙◌, true, false, List, [], ◌∷◌, Result, ok, err, ◌==◌, ==_iff,
  Bool-cases, inl, inr,
}
use drivewire_rs.Io.{Wire, IoKind, steady, split_exact, taken, read_exact, write_all, write_to}
use drivewire_rs.Proto.Opcode.{Opcode, Decoded, try_from, from_byte, to_byte}
use drivewire_rs.Proto.Opcode.Laws.{
  encode, encode-from_byte, try_from-to_byte, to_byte_of_try_from, from_byte-to_byte,
}
use drivewire_rs.Probe.{probe, first_byte, judged, handshaken, known, answered}
use drivewire_rs.Server.Session.{World, ◌>>=◌, and_then, lift_io, receive, send}
use drivewire_rs.Server.Session.Laws.{fed}
use drivewire_rs.Server.Handlers.{handle_dwinit}
use drivewire_rs.Server.Run.{turn, dispatch, handle_op}
use drivewire_rs.Server.Run.Framing.{turn-fed}

-- A peer whose bytes start so.
abbrev pub sending : List ℕ → Wire → Wire
sending xs w = record w { input = xs }

-- The probe and the server do the same with what a call of the stream comes to.
answered-lift_io :
    (w : World) (r : Result IoKind (Unit {0}) × Wire)
    → ((answered r).1 ≡ (lift_io w r).1.wire) × ((answered r).0 ≡ ok tt ↔ (lift_io w r).0 ≡ ok tt)
unfolding answered lift_io
answered-lift_io w (ok a, v) = (refl, (λ e. refl, λ e. refl))
answered-lift_io w (err kind, v) = (refl, (λ e. cc, λ e. cc))

-- On a stream that starts with OP_DWINIT, whatever follows and wherever the peer stops taking bytes,
-- dw probe leaves the stream as a turn of the server's loop leaves it, and succeeds just if the turn
-- does.
probe-turn :
    (xs : List ℕ) (w : World)
    → let (r, wire) = probe true (sending (0x5a ∷ xs) w.wire) in
      let (r', w') = turn (fed (0x5a ∷ xs) w) in (wire ≡ w'.wire) × (r ≡ ok tt ↔ r' ≡ ok tt)
unfolding probe judged handshaken first_byte read_exact split_exact taken dispatch handle_op
    handle_dwinit receive lift_io send ◌>>=◌ and_then from_byte try_from
probe-turn [] w = rw (turn-fed 0x5a [] w) (refl, (λ e. cc, λ e. cc))
probe-turn (driver ∷ xs) w =
    rw (turn-fed 0x5a (driver ∷ xs) w)
      (answered-lift_io (fed xs w) (write_all (0x04 ∷ []) (fed xs w).wire))

-- What the server decodes to an opcode is what the table has.
opcode_of_try_from : (b : ℕ) (o : Opcode) → try_from b ≡ ok o → from_byte b ≡ Decoded.op o
opcode_of_try_from b o h = ap from_byte (sym (to_byte_of_try_from b o h)) ∙ from_byte-to_byte o

try_from_of_opcode : (b : ℕ) (o : Opcode) → from_byte b ≡ Decoded.op o → try_from b ≡ ok o
unfolding encode
try_from_of_opcode b o h =
    ap try_from (sym (ap encode (sym h) ∙ encode-from_byte b)) ∙ try_from-to_byte o

-- A guest that talks so that the probe is content.
abbrev pub Talks : ℕ → List ℕ → Type 0
Talks b xs = (o : Opcode) × (from_byte b ≡ Decoded.op o) × (o ≡ Opcode.dw_init → xs ≢ [])

known_lem :
    (b : ℕ) (xs : List ℕ) (w : Wire) (r : Result ℕ Opcode)
    → (b == 0x5a) ≡ false
    → try_from b ≡ r
    → (known r w).0 ≡ ok tt ↔ Talks b xs
unfolding known to_byte
known_lem b xs w (ok o) n h = (
  λ p. (
    o,
    opcode_of_try_from b o h,
    λ e.
        let same : b ≡ 0x5a = sym (to_byte_of_try_from b o h) ∙ ap to_byte e in
        let equal = (==_iff b 0x5a).1 same in cc,
  ),
  λ t. refl,
)
known_lem b xs w (err e) n h =
    (λ p. cc, λ t. let (o, p, q) = t in let known = try_from_of_opcode b o p in cc)

op_inj : (o : Opcode) → Decoded.op Opcode.dw_init ≡ Decoded.op o → o ≡ Opcode.dw_init
op_inj o p = cc

dwinit_lem :
    (xs : List ℕ) (w : Wire)
    → w.sink ≡ steady
    → (probe true (sending (0x5a ∷ xs) w)).0 ≡ ok tt ↔ Talks 0x5a xs
unfolding probe judged handshaken first_byte read_exact split_exact taken write_all write_to
    answered from_byte try_from
dwinit_lem [] w s = (λ e. cc, λ t. let (o, p, q) = t in absurd (q (op_inj o p) refl))
dwinit_lem (driver ∷ xs) w s = (λ e. (Opcode.dw_init, refl, λ _ n. cc), λ t. rw s refl)

-- On a peer that takes every byte and sends one in time, dw probe succeeds just if the server
-- decodes the first byte to an opcode, and if that is OP_DWINIT a driver byte follows; so it refuses
-- fast writes, which the server decodes too.
pub probe-Talks :
    (b : ℕ) (xs : List ℕ) (w : Wire)
    → w.sink ≡ steady
    → (probe true (sending (b ∷ xs) w)).0 ≡ ok tt ↔ Talks b xs
unfolding probe judged first_byte read_exact split_exact taken
probe-Talks b xs w s = elim (Bool-cases (b == 0x5a)) [
  | inl e ↦ rw ((==_iff b 0x5a).0 e) (dwinit_lem xs w s)
  | inr e ↦ rw e (known_lem b xs (sending xs w) (try_from b) e refl)
]
