-- ===== src/Server/Awaits/Whole.antt =====
-- Sessions interrupted at their awaits do what sessions do by whole turns.
use drivewire_rs.Prelude.{
  ℕ, Option, none, some, List, [], ◌∷◌, ◌++◌, Result, ◌≡◌, refl, sym, ap, ◌∙◌, subst, ◌⊎◌, inl, inr,
  get_or, set, All, IsBytes,
}
use drivewire_rs.Prelude.Lists.{set-get_or}
use drivewire_rs.Io.{Wire}
use drivewire_rs.Vdisk.{Files}
use drivewire_rs.Server.State.{Server, Drives}
use drivewire_rs.Server.Actions.{Action, perform}
use drivewire_rs.Server.Session.{World, ServerError, Clock, done}
use drivewire_rs.Server.Handlers.{now}
use drivewire_rs.Server.Handlers.Bytes.{calendar}
use drivewire_rs.Server.Run.{turn}
use drivewire_rs.Server.Sessions.{
  Guests, turn_at, turn_of, accept, served, accepted, acted, passed, Reaches, BringsBytes,
}
use drivewire_rs.Server.Sessions
use drivewire_rs.Server.Awaits.{Program, await, uninterrupted}
use drivewire_rs.Server.Awaits.Tasks.{
  Process, resumed, Tasks, seen_by, put_back, poll_at, poll_task, fresh, HoldsDisk, HandsFree,
  KeepsDrives, Moves, polled, connected, Interleaves,
}
use drivewire_rs.Server.Awaits.Tasks
use drivewire_rs.Server.Awaits.Following.{
  AllFollow, get-AllFollow, set-AllFollow, append-AllFollow, free-AllFollow,
}
use drivewire_rs.Server.Awaits.Moving.{on, outcome, Follows}
use drivewire_rs.Server.Awaits.Counting.{Advances, await-Advances, perform-drives}

-- The same server with the streams that the sessions have by whole turns.
abbrev pub whole : Tasks → List (Option Wire) → Guests
whole t wires = record { server = t.server; files = t.files; clock = t.clock; sessions = wires }

-- What comes from outside the sessions: a connection, a step of another task, and time.
pub data Outside : Type 0 where
  connects : Wire → Outside
  acts : Action → Outside
  passes : Clock → Outside

-- A run by whole turns between these events from outside, in this order; nothing else changes the guests.
pub data Turns : List Outside → Guests → Guests → Type 0 where
  here : (g : Guests) → Turns [] g g
  taken_whole :
      {events : List Outside} {k : Guests} (g : Guests) (i : ℕ)
      → Turns events (turn_of i g) k
      → Turns events g k
  joined :
      {events : List Outside} {k : Guests} (g : Guests) (wire : Wire)
      → IsBytes wire.input
      → wire.output ≡ []
      → Turns events (accept wire g) k
      → Turns (connects wire ∷ events) g k
  done_outside :
      {events : List Outside} {k : Guests} (g : Guests) (a : Action)
      → BringsBytes a
      → Turns events (record g { server = perform a g.server }) k
      → Turns (acts a ∷ events) g k
  later :
      {events : List Outside} {k : Guests} (g : Guests) (clock : Clock)
      → IsBytes (calendar (now clock))
      → Turns events (record g { clock = clock }) k
      → Turns (passes clock ∷ events) g k

pub Turns-Reaches : {events : List Outside} {g k : Guests} → Turns events g k → Reaches g k
Turns-Reaches (here g) = Sessions.here g
Turns-Reaches (taken_whole g i rest) = Sessions.then (served g i) (Turns-Reaches rest)
Turns-Reaches (joined g wire b o rest) = Sessions.then (accepted g wire b o) (Turns-Reaches rest)
Turns-Reaches (done_outside g a b rest) = Sessions.then (acted g a b) (Turns-Reaches rest)
Turns-Reaches (later g clock c rest) = Sessions.then (passed g clock c) (Turns-Reaches rest)

-- The events before others that a step of an interleaving is, and those of an interleaving.
unfoldable pub heard : {t u : Tasks} → Moves t u → List Outside → List Outside
heard (polled t i) events = events
heard (connected t wire b o) events = connects wire ∷ events
heard (Tasks.acted t a b keeps) events = acts a ∷ events
heard (Tasks.passed t clock c) events = passes clock ∷ events

unfoldable pub outside : {t u : Tasks} → Interleaves t u → List Outside
unfolding heard
outside (Tasks.here t) = []
outside (Tasks.then step rest) = heard step (outside rest)

-- What a run by whole turns can do as well, before any other such run, with these events before its.
abbrev pub Refines : (List Outside → List Outside) → Tasks → List (Option Wire) → Tasks → Type 0
Refines before t ws u =
    (ws' : List (Option Wire)) × ((events : List Outside) (k : Guests)
      → Turns events (whole u ws') k
      → Turns (before events) (whole t ws) k)
    × AllFollow u.server.drives u.processes ws'

guests_eq :
    (s s' : Server) (f f' : Files) (c : Clock) (ws : List (Option Wire))
    → s ≡ s'
    → f ≡ f'
    → ◌≡◌ {A = Guests}
        (record { server = s; files = f; clock = c; sessions = ws })
        (record { server = s'; files = f'; clock = c; sessions = ws })
guests_eq s s' f f' c ws p q = λ i. record { server = p i; files = q i; clock = c; sessions = ws }

put_back-Refines :
    (t : Tasks) (ws : List (Option Wire)) (i : ℕ) (wire : Wire)
    (out : Result ServerError Program × World)
    → AllFollow t.server.drives t.processes ws
    → Advances t.server.drives (seen_by t wire) out (get_or ws i none)
    → Refines (λ events. events) t ws (put_back i t out)
unfolding turn_of
put_back-Refines t ws i wire (r, w) h (inl stays) = (
  ws,
  λ events k.
      subst (λ g. Turns events g k)
        (guests_eq w.server t.server w.files t.files t.clock ws stays.server stays.files),
  subst (λ d. AllFollow d (set t.processes i (resumed r w.wire)) ws)
      (ap (λ s. s.drives) (sym stays.server))
      (subst (AllFollow t.server.drives (set t.processes i (resumed r w.wire)))
        (set-get_or ws i none)
        (set-AllFollow t.server.drives t.processes ws i (resumed r w.wire) (get_or ws i none) h
          stays.follows)),
)
put_back-Refines t ws i wire (r, w) h (inr counts) =
    let g = whole t ws in
    let turned = turn (on counts.start (seen_by t wire)) in
    let ws' = set ws i (outcome turned) in
    let moved : turn_of i g ≡ whole (put_back i t (r, w)) ws' =
      ap (turn_at i g) counts.live
      ∙ guests_eq turned.1.server w.server turned.1.files w.files t.clock ws' counts.server
          counts.files in
    (
      ws',
      λ events k run. taken_whole g i (subst (λ h. Turns events h k) (sym moved) run),
      subst (λ d. AllFollow d (set t.processes i (resumed r w.wire)) ws') (sym counts.keeps)
          (set-AllFollow t.server.drives t.processes ws i (resumed r w.wire) (outcome turned) h
            counts.follows),
    )

poll_at-Refines :
    (t : Tasks) (ws : List (Option Wire)) (i : ℕ) (q : Option Process)
    → AllFollow t.server.drives t.processes ws
    → Follows t.server.drives q (get_or ws i none)
    → Refines (λ events. events) t ws (poll_at i t q)
poll_at-Refines t ws i none h f = (ws, λ events k run. run, h)
poll_at-Refines t ws i (some q) h f =
    put_back-Refines t ws i q.wire (await q.rest (seen_by t q.wire)) h
      (await-Advances t.server.drives q.rest q.wire (get_or ws i none) (seen_by t q.wire) refl f)

-- A session at the end of a turn, and the stream that it has.
pub fresh-Follows : (drives : Drives) (wire : Wire) → Follows drives (fresh wire) (some wire)
unfolding uninterrupted done
fresh-Follows drives wire = inr (record { silent = tt; rest = λ w. refl })

acted-AllFollow :
    (t : Tasks) (ws : List (Option Wire)) (a : Action)
    → KeepsDrives a ⊎ All HandsFree t.processes
    → AllFollow t.server.drives t.processes ws
    → AllFollow (perform a t.server).drives t.processes ws
acted-AllFollow t ws a (inl keeps) h =
    subst (λ d. AllFollow d t.processes ws) (sym (perform-drives a t.server keeps)) h
acted-AllFollow t ws a (inr free) h =
    free-AllFollow t.server.drives (perform a t.server).drives t.processes ws free h

moves-Refines :
    {t u : Tasks} (ws : List (Option Wire)) (step : Moves t u)
    → AllFollow t.server.drives t.processes ws
    → Refines (heard step) t ws u
unfolding poll_task heard
moves-Refines ws (polled t i) h =
    poll_at-Refines t ws i (get_or t.processes i none) h
      (get-AllFollow t.server.drives t.processes ws i h)
moves-Refines ws (connected t wire b o) h = (
  ws ++ (some wire ∷ []),
  λ events k run. joined (whole t ws) wire b o run,
  append-AllFollow t.server.drives t.processes ws (fresh wire) (some wire) h
      (fresh-Follows t.server.drives wire),
)
moves-Refines ws (Tasks.acted t a b keeps) h =
    (ws, λ events k run. done_outside (whole t ws) a b run, acted-AllFollow t ws a keeps h)
moves-Refines ws (Tasks.passed t clock c) h =
    (ws, λ events k run. later (whole t ws) clock c run, h)

-- However the awaits of the sessions and the steps of the other tasks are interleaved, if the drives are
-- changed only while no session holds a disk that it has looked up and not used: a run by whole turns
-- between the same events leads to the same server, files and clock, with streams that the sessions
-- follow.
pub Interleaves-Refines :
    {t u : Tasks} (ws : List (Option Wire)) (run : Interleaves t u)
    → AllFollow t.server.drives t.processes ws
    → (ws' : List (Option Wire)) × Turns (outside run) (whole t ws) (whole u ws')
      × AllFollow u.server.drives u.processes ws'
unfolding outside
Interleaves-Refines ws (Tasks.here t) h = (ws, here (whole t ws), h)
Interleaves-Refines ws (Tasks.then {v = v} step rest) h =
    let (ws', first, f) = moves-Refines ws step h in
    let (ws'', more, g) = Interleaves-Refines ws' rest f in
    (ws'', first (outside rest) (whole v ws'') more, g)
