-- ===== src/Tests/Serial.antt =====
-- The virtual serial channels.
use drivewire_rs.Prelude.{
  ℕ, ◌+◌, ◌≡◌, ◌≢◌, refl, true, List, [], ◌∷◌, ◌++◌, arith, ltb, ◌==◌, if◌then◌else◌, min, set,
}
use drivewire_rs.EchoGuest.{single, closing, burst, unhandled}
use drivewire_rs.Server.State.{
  new, poll, read_many, send_to_vserial, push_vserial, drain_vserial, wait_vserial_inbox,
}
use drivewire_rs.Server.State.Poll.{first_ready, guest_reply, poll_decodes}
use drivewire_rs.Server.Actions.{
  Action, write, write_many, poll_one, poll_many, host_send, host_drain, perform, to_guest,
  gathered,
}
use drivewire_rs.Server.Actions.Valid.{new-IsValid}
use drivewire_rs.Server.State.Queues.{queue}
use drivewire_rs.Server.Attach.{
  Attached, Phase, closed, draining, waiting, outbound, outbound_at, deliver, wake,
}
use drivewire_rs.Server.Attach.Wakeup.{acted, burst_sleeps}
use drivewire_rs.Server.Attach.Notified.{
  Parted, PartedStep, own, pushes, notifies, other, parted_steps, parted_step, owed, push_locked,
  split_off, notified, notify_one,
}
use drivewire_rs.Server.Attach.Notified.Delivers.{parted_steps-Deliver}

abbrev queues : List (List ℕ)
queues = [] ∷ (0x51 ∷ []) ∷ []

poll_decodes_example :
    (guest_reply (poll 0 queues).0 ≡ (
      if ltb 0 2
      then (if 1 == 15 then closing 0x51 else single 1 0x51)
      else (if 1 == 15 then unhandled 0x20 else burst 1 (min (0 + 1) 255))))
    × ((poll 0 queues).1 ≡ (if ltb 0 2 then set queues 1 [] else queues))
unfolding first_ready
poll_decodes_example = poll_decodes queues 1 0x51 [] (omega arith) refl

abbrev script : List Action
script =
    host_send 2 (1 ∷ 2 ∷ 3 ∷ [])
    ∷ poll_one
    ∷ poll_many 2 2
    ∷ write 2 7
    ∷ poll_one
    ∷ write_many 2 (8 ∷ 9 ∷ [])
    ∷ host_drain 2
    ∷ []

got : gathered (to_guest 2) script new ≡ 1 ∷ 2 ∷ 3 ∷ []
unfolding gathered to_guest perform guest_reply poll read_many send_to_vserial push_vserial
got = refl

abbrev fresh : Attached
fresh = record { server = new; phase = draining; written = [] }

abbrev asleep : Attached
asleep = record fresh { phase = waiting }

-- The task falls asleep, and wakes for nothing between the push and its notification.
abbrev turns : List PartedStep
turns = own true ∷ pushes 2 7 ∷ own true ∷ other poll_one ∷ notifies 0 ∷ []

abbrev parted : Parted
parted = record { attached = fresh; pushed = [] }

turns_asleep : (parted_steps 2 turns parted).attached.phase ≡ waiting
unfolding parted_steps parted_step outbound outbound_at deliver wake drain_vserial
    wait_vserial_inbox push_locked split_off notified notify_one perform poll
turns_asleep = refl

not_closed : (phase : Phase) → phase ≡ waiting → phase ≢ closed
not_closed phase e k = cc

parted_steps-Deliver_example :
    let a = (parted_steps 2 turns parted).attached in
    let b = outbound 2 true (outbound 2 true a) in
    (queue b.server.vserial_inbox 2 ≡ [])
    × (b.written ≡ a.written ++ queue a.server.vserial_inbox 2)
unfolding parted_steps parted_step owed split_off notified notify_one
parted_steps-Deliver_example =
    parted_steps-Deliver 2 turns parted (omega arith) (tt, tt) new-IsValid refl refl
      (not_closed _ turns_asleep)

burst_sleeps_example :
    let b = acted (write_many 2 (7 ∷ [])) asleep in
    (queue b.server.vserial_inbox 2 ≡ 7 ∷ []) × (outbound 2 true b ≡ b)
burst_sleeps_example = burst_sleeps 2 (7 ∷ []) true asleep new-IsValid (omega arith) refl refl refl
