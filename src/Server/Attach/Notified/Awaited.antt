-- ===== src/Server/Attach/Notified/Awaited.antt =====
-- While the outbound task sleeps on bytes, a permit for it is stored or still to come.
use drivewire_rs.Prelude.{
  ℕ, zero, suc, ◌<◌, ◌≡◌, ◌≢◌, refl, sym, ◌∙◌, ◌⊎◌, inl, inr, List, [], ◌∷◌, ◌++◌, arith, true,
  false, Bool, Bool-cases, Option, some, none, ◌==◌, get_or,
}
use native.Mathlib.Decide.{dec_lt}
use drivewire_rs.Prelude.Lists.{length-set, get_or-set_self, get_or-set_ne}
use drivewire_rs.Server.State.{Server, vserial_channels, drain_vserial, wait_vserial_inbox}
use drivewire_rs.Server.Actions.{Action, perform}
use drivewire_rs.Server.Actions.Valid.{IsValid, perform-IsValid}
use drivewire_rs.Server.State.Queues.{queue, queue-set}
use drivewire_rs.Server.Attach.{
  Attached, Phase, draining, waiting, closed, deliver, wake, outbound_at, outbound,
}
use drivewire_rs.Server.Attach.Wakeup.{
  permit, Spares, wakes_step, drained_queue, drain_vserial-IsValid, wait-IsValid,
}
use drivewire_rs.Server.Attach.Notified.{
  Parted, PartedStep, own, pushes, notifies, other, split_off, behind_first, changed, notified,
  parted_step, parted_steps, owed, push_locked, notify_one,
}

-- The outbound task does not sleep on bytes for long: a permit is stored for it, or one is on its way.
pub record IsAwaited (c : ℕ) (p : Parted) : Type 0 where
  pub valid : IsValid p.attached.server
  pub wakes :
      p.attached.phase ≡ waiting
      → queue p.attached.server.vserial_inbox c ≢ []
      → (permit c p.attached.server ≡ true) ⊎ (owed c p.pushed ≡ true)

split_off-owed :
    (c d i : ℕ) (xs rest : List ℕ)
    → split_off i xs ≡ some (d, rest)
    → d ≢ c
    → owed c xs ≡ owed c rest
unfolding split_off owed behind_first
split_off-owed c d i [] rest e n = cc
split_off-owed c d zero (x ∷ xs) rest e n = ground arith
split_off-owed c d (suc i) (x ∷ xs) rest e n =
    go (split_off i xs) (λ more k. split_off-owed c d i xs more k n) e
  where
    go :
        (o : Option (ℕ × List ℕ))
        → ((more : List ℕ) → o ≡ some (d, more) → owed c xs ≡ owed c more)
        → behind_first x o ≡ some (d, rest)
        → owed c (x ∷ xs) ≡ owed c rest
    go none k e = cc
    go (some (d', more)) k e =
        let ih : owed c xs ≡ owed c more = k more (grind arith) in ground (arith, ih)

module _ (c : ℕ) (h : c < vserial_channels) (a : Attached) (v : IsValid a.server) where
  -- A push into any channel.
  push_locked-IsValid : (ch b : ℕ) → IsValid (push_locked ch b a.server)
  unfolding push_locked
  push_locked-IsValid ch b = record {
    inboxes = ground (
      arith,
      v.inboxes,
      length-set a.server.vserial_inbox ch (get_or a.server.vserial_inbox ch [] ++ (b ∷ [])),
    );
    outboxes = ground (arith, v.outboxes);
    flags = ground (arith, v.flags);
    permits = ground (arith, v.permits);
  }

  notify_one-IsValid : (ch : ℕ) → IsValid (notify_one ch a.server)
  unfolding notify_one
  notify_one-IsValid ch = record {
    inboxes = v.inboxes;
    outboxes = v.outboxes;
    flags = v.flags;
    permits = length-set a.server.vserial_inbox_notify ch true ∙ v.permits;
  }

  -- One into another channel leaves this one's queue, and stores no permit.
  push_elsewhere :
      (ch b : ℕ)
      → ch ≢ c
      → (queue (push_locked ch b a.server).vserial_inbox c ≡ queue a.server.vserial_inbox c)
        × (permit c (push_locked ch b a.server) ≡ permit c a.server)
  unfolding push_locked
  push_elsewhere ch b n = elim (dec_lt ch vserial_channels) [
    | yes lt ↦ (
      ground (
        arith,
        v.inboxes,
        queue-set a.server.vserial_inbox ch c (queue a.server.vserial_inbox ch ++ (b ∷ [])),
      ),
      ground arith,
    )
    | no ge ↦ (ground arith, ground arith)
  ]

  notify_here : permit c (notify_one c a.server) ≡ true
  unfolding notify_one
  notify_here =
      get_or-set_self a.server.vserial_inbox_notify c true false (omega (arith, h, v.permits))

  notify_elsewhere : (ch : ℕ) → ch ≢ c → permit c (notify_one ch a.server) ≡ permit c a.server
  unfolding notify_one
  notify_elsewhere ch n = get_or-set_ne a.server.vserial_inbox_notify ch c true false n

emptied-IsAwaited :
    (c : ℕ) (accepts : Bool) (bytes : List ℕ) (s : Server) (p : Parted)
    → IsValid s
    → queue s.vserial_inbox c ≡ []
    → IsAwaited c (record p { attached = deliver accepts (bytes, s) p.attached })
unfolding deliver
emptied-IsAwaited c accepts [] s p v q = record { valid = v; wakes = λ _ ne. absurd (ne q) }
emptied-IsAwaited c true (b ∷ bytes) s p v q = record { valid = v; wakes = λ _ ne. absurd (ne q) }
emptied-IsAwaited c false (b ∷ bytes) s p v q = record { valid = v; wakes = λ _ ne. absurd (ne q) }

woken-IsAwaited :
    (c : ℕ) (o : Option Server) (p : Parted)
    → ((s : Server) → o ≡ some s → IsValid s)
    → IsAwaited c p
    → IsAwaited c (record p { attached = wake o p.attached })
unfolding wake
woken-IsAwaited c none p k aw = aw
woken-IsAwaited c (some s) p k aw = record { valid = k s refl; wakes = λ e. cc }

module _ (c : ℕ) (h : c < vserial_channels) where
  pub own-IsAwaited :
      (phase : Phase) (accepts : Bool) (p : Parted)
      → IsAwaited c p
      → IsAwaited c (record p { attached = outbound_at phase c accepts p.attached })
  unfolding outbound_at
  own-IsAwaited draining accepts p aw =
      let (bytes, s) = drain_vserial c p.attached.server in
      emptied-IsAwaited c accepts bytes s p (drain_vserial-IsValid c p.attached.server aw.valid)
        (drained_queue c p.attached.server aw.valid h)
  own-IsAwaited waiting accepts p aw =
      woken-IsAwaited c (wait_vserial_inbox c p.attached.server) p
        (λ s e. wait-IsValid c p.attached.server s aw.valid e) aw
  own-IsAwaited closed accepts p aw = aw

  owed_here : (xs : List ℕ) → owed c (c ∷ xs) ≡ true
  unfolding owed
  owed_here xs = ground arith

  owed_still : (ch : ℕ) (xs : List ℕ) → owed c xs ≡ true → owed c (ch ∷ xs) ≡ true
  unfolding owed
  owed_still ch xs e = ground (arith, e)

  pushes-IsAwaited :
      (ch b : ℕ) (p : Parted) → IsAwaited c p → IsAwaited c (parted_step c (pushes ch b) p)
  unfolding parted_step
  pushes-IsAwaited ch b p aw = record {
    valid = push_locked-IsValid c h p.attached aw.valid ch b;
    wakes = λ w ne. elim (Bool-cases (ch == c)) [
      | inl same ↦ inr (ground (arith, owed_here p.pushed))
      | inr apart ↦
          let (q, k) = push_elsewhere c h p.attached aw.valid ch b (λ e. ground arith) in
          elim (aw.wakes w (λ e. ne (q ∙ e))) [
            | inl stored ↦ inl (k ∙ stored)
            | inr due ↦ inr (ground (arith, owed_still ch p.pushed due))
          ]
    ];
  }

  notified-IsAwaited :
      (i : ℕ) (p : Parted) (o : Option (ℕ × List ℕ))
      → split_off i p.pushed ≡ o
      → IsAwaited c p
      → IsAwaited c (notified o p)
  unfolding notified
  notified-IsAwaited i p none e aw = aw
  notified-IsAwaited i p (some (ch, rest)) e aw = record {
    valid = notify_one-IsValid c h p.attached aw.valid ch;
    wakes = λ w ne. elim (Bool-cases (ch == c)) [
      | inl same ↦ inl (ground (arith, notify_here c h p.attached aw.valid))
      | inr apart ↦
          let n : ch ≢ c = λ k. ground arith in
          elim (aw.wakes w ne) [
            | inl stored ↦ inl (notify_elsewhere c h p.attached aw.valid ch n ∙ stored)
            | inr due ↦ inr (sym (split_off-owed c ch i p.pushed rest e n) ∙ due)
          ]
    ];
  }

  other-IsAwaited :
      (x : Action) (p : Parted) → Spares c x → IsAwaited c p → IsAwaited c (changed (perform x) p)
  other-IsAwaited x p sp aw = record {
    valid = perform-IsValid x p.attached.server aw.valid;
    wakes = λ w ne. elim (Bool-cases (owed c p.pushed)) [
      | inl e ↦ inr e
      | inr e ↦ inl (
          wakes_step c x p.attached.server aw.valid sp
            (λ full. elim (aw.wakes w full) [ inl k ↦ k | inr k ↦ ground arith ]) ne)
    ];
  }

-- What the parted_steps may be: no burst into the channel, and no second client that waits on it.
abbrev pub AreSparing : ℕ → List PartedStep → Type 0
AreSparing c [] = Unit
AreSparing c (other x ∷ rest) = Spares c x × AreSparing c rest
AreSparing c (_ ∷ rest) = AreSparing c rest

pub parted_steps-IsAwaited :
    (c : ℕ) (run : List PartedStep) (p : Parted)
    → c < vserial_channels
    → AreSparing c run
    → IsAwaited c p
    → IsAwaited c (parted_steps c run p)
unfolding parted_steps outbound
parted_steps-IsAwaited c [] p h sp aw = aw
parted_steps-IsAwaited c (own accepts ∷ rest) p h sp aw =
    parted_steps-IsAwaited c rest _ h sp (own-IsAwaited c h p.attached.phase accepts p aw)
parted_steps-IsAwaited c (pushes ch b ∷ rest) p h sp aw =
    parted_steps-IsAwaited c rest _ h sp (pushes-IsAwaited c h ch b p aw)
parted_steps-IsAwaited c (notifies i ∷ rest) p h sp aw =
    parted_steps-IsAwaited c rest _ h sp (notified-IsAwaited c h i p (split_off i p.pushed) refl aw)
parted_steps-IsAwaited c (other x ∷ rest) p h sp aw =
    parted_steps-IsAwaited c rest _ h sp.1 (other-IsAwaited c h x p sp.0 aw)
