-- ===== src/Server/Attach/Notified/Delivers.antt =====
-- What the outbound task of `handle_attach` does with the bytes that wait for its client.
use drivewire_rs.Prelude.{
  ℕ, ◌<◌, ◌≡◌, ◌≢◌, refl, sym, ap, ◌∙◌, inl, inr, List, [], ◌∷◌, ◌++◌, arith, true, false, Option,
  some, none,
}
use mathlib.Core.List.{append-nil}
use drivewire_rs.Server.State.{Server, vserial_channels, drain_vserial, wait_vserial_inbox}
use drivewire_rs.Server.Actions.Valid.{IsValid}
use drivewire_rs.Server.State.Queues.{queue}
use drivewire_rs.Server.Attach.{
  Attached, Phase, draining, waiting, closed, deliver, wake, outbound_at, outbound,
}
use drivewire_rs.Server.Attach.Wakeup.{permit, drained_queue}
use drivewire_rs.Server.Attach.Notified.{Parted, PartedStep, parted_steps, owed}
use drivewire_rs.Server.Attach.Notified.Awaited.{
  IsAwaited, AreSparing, own-IsAwaited, parted_steps-IsAwaited,
}

-- A step of the task of a client that takes its bytes.
module _ (c : ℕ) (h : c < vserial_channels) where
  -- What the task has to do: bytes written and none left.
  abbrev Empties : Attached → Attached → Type 0
  Empties a b =
      (queue b.server.vserial_inbox c ≡ [])
      × (b.written ≡ a.written ++ queue a.server.vserial_inbox c)
      × (b.phase ≢ closed)

  deliver_lem :
      (a : Attached) (bytes : List ℕ) (s : Server)
      → a.phase ≡ draining
      → (deliver true (bytes, s) a).server ≡ s
        × ((deliver true (bytes, s) a).written ≡ a.written ++ bytes)
        × ((deliver true (bytes, s) a).phase ≢ closed)
  unfolding deliver
  deliver_lem a [] s e = (refl, sym (append-nil a.written), λ k. cc)
  deliver_lem a (b ∷ bytes) s e = (refl, refl, λ k. cc)

  drains : (a : Attached) → IsValid a.server → a.phase ≡ draining → Empties a (outbound c true a)
  unfolding outbound drain_vserial
  drains a v e =
      let (bytes, s) = drain_vserial c a.server in
      let run : outbound c true a ≡ deliver true (drain_vserial c a.server) a =
        ap (λ phase. outbound_at phase c true a) e in
      let (left, wrote, open_still) = deliver_lem a bytes s e in
      let took : (drain_vserial c a.server).0 ≡ queue a.server.vserial_inbox c = ground arith in
      rw run (
        ap (λ t. queue t.vserial_inbox c) left ∙ drained_queue c a.server v h,
        wrote ∙ ap (λ xs. a.written ++ xs) took,
        open_still,
      )

  -- A permit, or none, changes no queue.
  wake_lem :
      (a : Attached) (o : Option Server)
      → ((s : Server) → o ≡ some s → s.vserial_inbox ≡ a.server.vserial_inbox)
      → a.phase ≡ waiting
      → ((wake o a).server.vserial_inbox ≡ a.server.vserial_inbox)
        × ((wake o a).written ≡ a.written)
        × ((wake o a).phase ≢ closed)
  unfolding wake
  wake_lem a none k e = (refl, refl, λ p. cc)
  wake_lem a (some s) k e = (k s refl, refl, λ p. cc)

  wait_keeps :
      (s s' : Server) → wait_vserial_inbox c s ≡ some s' → s'.vserial_inbox ≡ s.vserial_inbox
  unfolding wait_vserial_inbox
  wait_keeps s s' e = ground (arith, e)

  wakes_up :
      (a : Attached)
      → a.phase ≡ waiting
      → ((outbound c true a).server.vserial_inbox ≡ a.server.vserial_inbox)
        × ((outbound c true a).written ≡ a.written)
        × ((outbound c true a).phase ≢ closed)
  unfolding outbound
  wakes_up a e =
      let run : outbound c true a ≡ wake (wait_vserial_inbox c a.server) a =
        ap (λ phase. outbound_at phase c true a) e in
      rw run (wake_lem a (wait_vserial_inbox c a.server) (wait_keeps a.server) e)

  idles :
      (phase : Phase) (a : Attached)
      → IsValid a.server
      → a.phase ≡ phase
      → phase ≢ closed
      → queue a.server.vserial_inbox c ≡ []
      → Empties a (outbound c true a)
  idles draining a v e n q = drains a v e
  idles waiting a v e n q =
      let (same, wrote, open_still) = wakes_up a e in
      (
        ap (λ qs. queue qs c) same ∙ q,
        wrote ∙ sym (append-nil a.written) ∙ ap (λ xs. a.written ++ xs) (sym q),
        open_still,
      )
  idles closed a v e n q = absurd (n refl)

  -- With a permit the sleeping task is before its drain again.
  rises :
      (a : Attached)
      → a.phase ≡ waiting
      → permit c a.server ≡ true
      → (outbound c true a).phase ≡ draining
  unfolding outbound outbound_at wake wait_vserial_inbox
  rises a e k = ground (arith, e, k)

  -- A step that empties the queue, and one more.
  Empties-Empties : (a b d : Attached) → Empties a b → Empties b d → Empties a d
  Empties-Empties a b d (q, wrote, p) (q', wrote', p') =
      (q', wrote' ∙ ap (λ xs. b.written ++ xs) q ∙ append-nil b.written ∙ wrote, p')

  outbound-IsValid : (p : Parted) → IsAwaited c p → IsValid (outbound c true p.attached).server
  unfolding outbound
  outbound-IsValid p aw = (own-IsAwaited c h p.attached.phase true p aw).valid

  idles_next :
      (p : Parted) (a : Attached)
      → IsAwaited c p
      → Empties a (outbound c true p.attached)
      → Empties a (outbound c true (outbound c true p.attached))
  idles_next p a aw d =
      let b = outbound c true p.attached in
      Empties-Empties a b (outbound c true b) d
        (idles b.phase b (outbound-IsValid p aw) refl d.2 d.0)

  two_steps-Empties :
      (phase : Phase) (p : Parted)
      → IsAwaited c p
      → owed c p.pushed ≡ false
      → p.attached.phase ≡ phase
      → phase ≢ closed
      → Empties p.attached (outbound c true (outbound c true p.attached))
  two_steps-Empties draining p aw o e n = idles_next p p.attached aw (drains p.attached aw.valid e)
  two_steps-Empties waiting p aw o e n = go (queue p.attached.server.vserial_inbox c) refl
    where
      go :
          (q : List ℕ)
          → queue p.attached.server.vserial_inbox c ≡ q
          → Empties p.attached (outbound c true (outbound c true p.attached))
      go [] k = idles_next p p.attached aw (idles waiting p.attached aw.valid e n k)
      go (b ∷ bytes) k =
          let (same, wrote, open_still) = wakes_up p.attached e in
          let full : queue p.attached.server.vserial_inbox c ≢ [] = λ z. cc in
          let stored : permit c p.attached.server ≡ true = elim (aw.wakes e full) [
            | inl y ↦ y
            | inr y ↦ absurd (ground arith)
          ] in
          let (q, wrote', open') =
            drains (outbound c true p.attached) (outbound-IsValid p aw)
              (rises p.attached e stored) in
          (q, wrote' ∙ rw (wrote, same) refl, open')
  two_steps-Empties closed p aw o e n = absurd (n refl)

-- Where the byte of a push into an inbox and its notification come apart, with any steps of other
-- tasks between them, but no SERWRITEM goes into the channel and no second client waits on it: on a
-- valid server and a channel below 16, whenever no push into the channel still owes its
-- notification, and the outbound task of its client, which started before its drain, has not ended,
-- two more steps of that task write all that waits in the inbox to a client that takes it, and leave
-- the inbox empty.
pub parted_steps-Deliver :
    (c : ℕ) (run : List PartedStep) (p : Parted)
    → c < vserial_channels
    → AreSparing c run
    → IsValid p.attached.server
    → p.attached.phase ≡ draining
    → owed c (parted_steps c run p).pushed ≡ false
    → (parted_steps c run p).attached.phase ≢ closed
    → let a = (parted_steps c run p).attached in
      let b = outbound c true (outbound c true a) in
      (queue b.server.vserial_inbox c ≡ [])
      × (b.written ≡ a.written ++ queue a.server.vserial_inbox c)
parted_steps-Deliver c run p h sp v e o n =
    let start : IsAwaited c p = record { valid = v; wakes = λ w. cc } in
    let (q, wrote, _) =
      two_steps-Empties c h _ (parted_steps c run p) (parted_steps-IsAwaited c run p h sp start) o
        refl n in
    (q, wrote)
