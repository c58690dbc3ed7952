-- ===== src/Server/Attach/Wakeup.antt =====
-- When the outbound task sleeps although bytes wait for it.
use drivewire_rs.Prelude.{
  ℕ, ◌<◌, ◌≡◌, ◌≢◌, refl, List, [], ◌∷◌, ◌++◌, arith, true, false, Bool, Bool-cases, inl, inr,
  Option, some, none, ◌==◌, ==_iff, if◌then◌else◌, length, get_or, set,
}
use native.Mathlib.Decide.{dec_lt}
use drivewire_rs.Prelude.Lists.{get_or-set_self, get_or-set_ne, length-set}
use drivewire_rs.Server.State.{
  Server, vserial_channels, mount, unmount, push_vserial, drain_vserial, send_to_vserial,
  wait_vserial_inbox, set_channel_open,
}
use drivewire_rs.Server.Handlers.{extend_inbox}
use drivewire_rs.Server.Actions.{Action, write, write_many, host_drain, host_wait, perform}
use drivewire_rs.Server.Actions.Valid.{IsValid, perform-IsValid}
use drivewire_rs.Server.State.Queues.{queue, queue-set}
use drivewire_rs.Server.Attach.{
  Attached, Phase, draining, waiting, closed, deliver, wake, outbound_at, outbound,
}

-- Whether the channel's `Notify` stores a permit.
abbrev pub permit : ℕ → Server → Bool
permit c s = get_or s.vserial_inbox_notify c false

pub permit-set :
    (xs : List Bool) (i j : ℕ) (b : Bool)
    → i < length xs
    → get_or (set xs i b) j false ≡ (if i == j then b else get_or xs j false)
permit-set xs i j b h = elim (Bool-cases (i == j)) [
  | inl p ↦ rw (p, ← (==_iff i j).0 p) (get_or-set_self xs i b false h)
  | inr p ↦ rw p (get_or-set_ne xs i j b false (λ e. ground arith))
]

-- The outbound task does not sleep on bytes: where it waits and bytes are there, a permit is stored.
pub record IsAwake (c : ℕ) (a : Attached) : Type 0 where
  pub valid : IsValid a.server
  pub wakes : a.phase ≡ waiting → queue a.server.vserial_inbox c ≢ [] → permit c a.server ≡ true

-- What the other tasks may do: all but a burst into the channel, and a wait by a second client.
abbrev pub Spares : ℕ → Action → Type 0
Spares c (write_many channel bytes) = channel ≢ c
Spares c (host_wait channel) = channel ≢ c
Spares c _ = Unit

abbrev pub acted : Action → Attached → Attached
acted x a = record a { server = perform x a.server }

pub wakes_step :
    (c : ℕ) (x : Action) (s : Server)
    → IsValid s
    → Spares c x
    → (queue s.vserial_inbox c ≢ [] → permit c s ≡ true)
    → queue (perform x s).vserial_inbox c ≢ []
    → permit c (perform x s) ≡ true
unfolding perform push_vserial extend_inbox set_channel_open drain_vserial wait_vserial_inbox
    send_to_vserial mount unmount
wakes_step c (write channel b) s v sp k ne = elim (dec_lt channel vserial_channels) [
  | yes lt ↦ ground (
    arith,
    queue-set s.vserial_inbox channel c (queue s.vserial_inbox channel ++ (b ∷ [])),
    permit-set s.vserial_inbox_notify channel c true,
  )
  | no ge ↦ ground arith
]
wakes_step c (write_many channel bytes) s v sp k ne =
    ground (arith, queue-set s.vserial_inbox channel c (queue s.vserial_inbox channel ++ bytes))
wakes_step c (host_drain channel) s v sp k ne =
    ground (arith, queue-set s.vserial_inbox channel c [])
wakes_step c (host_wait channel) s v sp k ne =
    ground (arith, permit-set s.vserial_inbox_notify channel c false)
wakes_step c _ s v sp k ne = ground arith

-- No step of another task that spares the channel puts the outbound task to sleep on bytes.
acted-IsAwake :
    (c : ℕ) (x : Action) (a : Attached) → Spares c x → IsAwake c a → IsAwake c (acted x a)
acted-IsAwake c x a sp aw = record {
  valid = perform-IsValid x a.server aw.valid;
  wakes = λ e ne. wakes_step c x a.server aw.valid sp (aw.wakes e) ne;
}

deliver-IsAwake :
    (c : ℕ) (accepts : Bool) (bytes : List ℕ) (s : Server) (a : Attached)
    → IsValid s
    → queue s.vserial_inbox c ≡ []
    → IsAwake c (deliver accepts (bytes, s) a)
unfolding deliver
deliver-IsAwake c accepts [] s a v q = record { valid = v; wakes = λ _ ne. absurd (ne q) }
deliver-IsAwake c true (b ∷ bytes) s a v q = record { valid = v; wakes = λ _ ne. absurd (ne q) }
deliver-IsAwake c false (b ∷ bytes) s a v q = record { valid = v; wakes = λ _ ne. absurd (ne q) }

pub drained_queue :
    (c : ℕ) (s : Server)
    → IsValid s
    → c < vserial_channels
    → queue (drain_vserial c s).1.vserial_inbox c ≡ []
unfolding drain_vserial
drained_queue c s v h = ground (arith, queue-set s.vserial_inbox c c [])

pub drain_vserial-IsValid : (c : ℕ) (s : Server) → IsValid s → IsValid (drain_vserial c s).1
unfolding perform
drain_vserial-IsValid c s v = perform-IsValid (host_drain c) s v

wake-IsAwake :
    (c : ℕ) (o : Option Server) (a : Attached)
    → ((s : Server) → o ≡ some s → IsValid s)
    → IsAwake c a
    → IsAwake c (wake o a)
unfolding wake
wake-IsAwake c none a k aw = aw
wake-IsAwake c (some s) a k aw = record { valid = k s refl; wakes = λ e. cc }

pub wait-IsValid :
    (c : ℕ) (s s' : Server) → IsValid s → wait_vserial_inbox c s ≡ some s' → IsValid s'
unfolding wait_vserial_inbox
wait-IsValid c s s' v e = ground (arith, length-set s.vserial_inbox_notify c false)

outbound_at-IsAwake :
    (p : Phase) (c : ℕ) (accepts : Bool) (a : Attached)
    → c < vserial_channels
    → IsAwake c a
    → IsAwake c (outbound_at p c accepts a)
unfolding outbound_at
outbound_at-IsAwake draining c accepts a h aw =
    let (bytes, s) = drain_vserial c a.server in
    deliver-IsAwake c accepts bytes s a (drain_vserial-IsValid c a.server aw.valid)
      (drained_queue c a.server aw.valid h)
outbound_at-IsAwake waiting c accepts a h aw =
    wake-IsAwake c (wait_vserial_inbox c a.server) a (λ s e. wait-IsValid c a.server s aw.valid e)
      aw
outbound_at-IsAwake closed c accepts a h aw = aw

-- A run of an attached client: steps of its outbound task, and of the other tasks.
pub data Step : Type 0 where
  own : Bool → Step
  other : Action → Step

unfoldable pub steps : ℕ → List Step → Attached → Attached
steps c [] a = a
steps c (own accepts ∷ rest) a = steps c rest (outbound c accepts a)
steps c (other x ∷ rest) a = steps c rest (acted x a)

abbrev pub AllSpare : ℕ → List Step → Type 0
AllSpare c [] = Unit
AllSpare c (own accepts ∷ rest) = AllSpare c rest
AllSpare c (other x ∷ rest) = Spares c x × AllSpare c rest

-- If no SERWRITEM goes into the channel and no second client waits on it, the outbound task of an
-- attached client on a channel below 16, awake at first, never sleeps without a permit while bytes
-- wait in its inbox, whatever the other tasks do.
steps-IsAwake :
    (c : ℕ) (run : List Step) (a : Attached)
    → c < vserial_channels
    → AllSpare c run
    → IsAwake c a
    → IsAwake c (steps c run a)
unfolding steps outbound
steps-IsAwake c [] a h sp aw = aw
steps-IsAwake c (own accepts ∷ rest) a h sp aw =
    steps-IsAwake c rest (outbound c accepts a) h sp (outbound_at-IsAwake a.phase c accepts a h aw)
steps-IsAwake c (other x ∷ rest) a h sp aw =
    steps-IsAwake c rest (acted x a) h sp.1 (acted-IsAwake c x a sp.0 aw)

-- A SERWRITEM burst into a channel below 16 with an empty inbox, whose outbound task is asleep with
-- no permit, leaves its bytes in the inbox and the task asleep: the task's steps change nothing.
pub burst_sleeps :
    (c : ℕ) (bytes : List ℕ) (accepts : Bool) (a : Attached)
    → IsValid a.server
    → c < vserial_channels
    → a.phase ≡ waiting
    → permit c a.server ≡ false
    → queue a.server.vserial_inbox c ≡ []
    → let b = acted (write_many c bytes) a in
      (queue b.server.vserial_inbox c ≡ bytes) × (outbound c accepts b ≡ b)
unfolding outbound outbound_at wake perform extend_inbox wait_vserial_inbox
burst_sleeps c bytes accepts a v h e p q = (
  ground (arith, q, queue-set a.server.vserial_inbox c c (queue a.server.vserial_inbox c ++ bytes)),
  ground (arith, e, p),
)
