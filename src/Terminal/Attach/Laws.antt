-- ===== src/Terminal/Attach/Laws.antt =====
-- How `dw attach` leaves the terminal, and what its two tasks do together.
use drivewire_rs.Prelude.{
  ◌≡◌, refl, ◌&&◌, Option, none, some, List, [], ◌∷◌, Result, ok, err, Bool-cases, inl, inr,
}
use drivewire_rs.Io.{IoKind, Wire, write_all}
use drivewire_rs.Terminal.Attach.{
  AttachArgs, AttachHost, Event, Attached, both_tasks, AttachEnd, still_attached, begun, Mode,
  cooked, raw_mode, selected, run_tasks, introduced, connected, attach,
}

-- Of a command that has ended the terminal is cooked; of one that goes on it is raw.
abbrev pub IsRestored : AttachEnd × Mode → Type 0
IsRestored (still_attached a, mode) = mode ≡ raw_mode
IsRestored (_, mode) = mode ≡ cooked

module _ (host : AttachHost) (leaves : host.disable_raw_mode ≡ none) where
  selected-IsRestored : (a : Attached) → IsRestored (selected host a raw_mode)
  unfolding selected
  selected-IsRestored a = elim (Bool-cases (a.typing && a.showing)) [
    | inl e ↦ rw e refl
    | inr e ↦ rw (e, leaves) refl
  ]

  run_tasks-IsRestored :
      (args : AttachArgs) (events : List Event) (stdout sock : Wire) (enabled : Option IoKind)
      → IsRestored (run_tasks host args events stdout sock enabled cooked)
  unfolding run_tasks
  run_tasks-IsRestored args events stdout sock (some kind) = refl
  run_tasks-IsRestored args events stdout sock none =
      selected-IsRestored (both_tasks args.raw events (begun sock stdout))

  introduced-IsRestored :
      (args : AttachArgs) (events : List Event) (stdout : Wire)
      (written : Result IoKind (Unit {0}) × Wire)
      → IsRestored (introduced host args events stdout written cooked)
  unfolding introduced
  introduced-IsRestored args events stdout (err kind, sock) = refl
  introduced-IsRestored args events stdout (ok _, sock) =
      run_tasks-IsRestored args events stdout sock host.enable_raw_mode

  connected-IsRestored :
      (args : AttachArgs) (events : List Event) (stdout : Wire) (sock : Result IoKind Wire)
      → IsRestored (connected host args events stdout sock cooked)
  unfolding connected
  connected-IsRestored args events stdout (err kind) = refl
  connected-IsRestored args events stdout (ok sock) =
      introduced-IsRestored args events stdout (write_all (args.channel ∷ []) sock)

  -- On a terminal that was cooked and that leaves raw mode when told to: whichever call fails,
  -- whatever is read, and whichever task ends first, the terminal is cooked again once dw attach has
  -- ended, and raw as long as both tasks run.
  pub attach-IsRestored :
      (args : AttachArgs) (events : List Event) (stdout : Wire)
      → IsRestored (attach host args events stdout cooked)
  unfolding attach
  attach-IsRestored args events stdout =
      connected-IsRestored args events stdout (host.connect args.socket)
