-- ===== src/Server/Attach/Notified.antt =====
-- `push_vserial` of crates/drivewire-server/src/lib.rs as the two steps that it is: a byte joins the inbox under its
-- lock, and the waiting reader is notified after the lock is gone, with other tasks between.
pub mod Awaited
pub mod Delivers
use drivewire_rs.Prelude.{
  ℕ, zero, suc, ◌<◌, ◌≡◌, ◌≢◌, refl, sym, ap, ◌∙◌, ◌⊎◌, inl, inr, List, [], ◌∷◌, ◌++◌, arith, true,
  false, Bool, Bool-cases, ◌||◌, Option, some, none, ◌==◌, ==_iff, leb, if◌then◌else◌, length,
  get_or, set,
}
use mathlib.Core.List.{append-nil}
use native.Mathlib.Decide.{dec_lt}
use drivewire_rs.Prelude.Lists.{length-set, get_or-set_self, get_or-set_ne}
use drivewire_rs.Server.State.{
  Server, vserial_channels, push_vserial, extend, drain_vserial, wait_vserial_inbox,
}
use drivewire_rs.Server.Actions.{Action, write, write_many, perform}
use drivewire_rs.Server.Actions.Valid.{IsValid, perform-IsValid}
use drivewire_rs.Server.State.Queues.{queue, queue-set}
use drivewire_rs.Server.Attach.{
  Attached, Phase, draining, waiting, closed, deliver, wake, outbound_at, outbound,
}
use drivewire_rs.Server.Attach.Wakeup.{
  permit, permit-set, Spares, acted, wakes_step, drained_queue, drain_vserial-IsValid, wait-IsValid,
}

-- The push under the lock of the inbox.
unfoldable pub push_locked : ℕ → ℕ → Server → Server
push_locked channel byte s =
    if leb vserial_channels channel
    then s
    else record s { vserial_inbox = extend s.vserial_inbox channel (byte ∷ []) }

-- `notify_one`, which stores a permit for the reader.
unfoldable pub notify_one : ℕ → Server → Server
notify_one channel s = record s { vserial_inbox_notify = set s.vserial_inbox_notify channel true }

-- With nothing between them, the two are `push_vserial`.
push_vserial-steps :
    (channel byte : ℕ) (s : Server)
    → channel < vserial_channels
    → push_vserial channel byte s ≡ notify_one channel (push_locked channel byte s)
unfolding push_vserial push_locked notify_one
push_vserial-steps channel byte s h = ground arith

-- The client's task, and the channels of the tasks that stand between their push and its notification.
pub record Parted : Type 0 where
  pub attached : Attached
  pub pushed : List ℕ

-- A step of the outbound task, of a push, of the notification of the `i`th push that still owes one, or of
-- another task.
pub data PartedStep : Type 0 where
  own : Bool → PartedStep
  pushes : ℕ → ℕ → PartedStep
  notifies : ℕ → PartedStep
  other : Action → PartedStep

unfoldable pub behind_first : ℕ → Option (ℕ × List ℕ) → Option (ℕ × List ℕ)
behind_first c none = none
behind_first c (some (d, more)) = some (d, c ∷ more)

-- The element at an index, and the others.
unfoldable pub split_off : ℕ → List ℕ → Option (ℕ × List ℕ)
unfolding behind_first
split_off i [] = none
split_off zero (c ∷ rest) = some (c, rest)
split_off (suc i) (c ∷ rest) = behind_first c (split_off i rest)

abbrev pub changed : (Server → Server) → Parted → Parted
changed f p = record p { attached = record p.attached { server = f p.attached.server } }

unfoldable pub notified : Option (ℕ × List ℕ) → Parted → Parted
unfolding notify_one
notified none p = p
notified (some (channel, rest)) p = record (changed (notify_one channel) p) { pushed = rest }

unfoldable pub parted_step : ℕ → PartedStep → Parted → Parted
unfolding push_locked split_off notified outbound
parted_step c (own accepts) p = record p { attached = outbound c accepts p.attached }
parted_step c (pushes channel byte) p = record (changed (push_locked channel byte) p) {
  pushed = if leb vserial_channels channel then p.pushed else channel ∷ p.pushed;
}
parted_step c (notifies i) p = notified (split_off i p.pushed) p
parted_step c (other x) p = changed (perform x) p

unfoldable pub parted_steps : ℕ → List PartedStep → Parted → Parted
unfolding parted_step
parted_steps c [] p = p
parted_steps c (e ∷ rest) p = parted_steps c rest (parted_step c e p)

-- Whether a push into the channel still owes its notification.
unfoldable pub owed : ℕ → List ℕ → Bool
owed c [] = false
owed c (d ∷ rest) = d == c || owed c rest
