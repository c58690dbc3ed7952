-- ===== src/Server/Awaits/Following.antt =====
-- Sessions at their awaits beside the streams that they have by whole turns.
use drivewire_rs.Prelude.{
  ℕ, zero, suc, Option, none, some, List, [], ◌∷◌, ◌++◌, refl, inl, inr, get_or, set, All,
}
use drivewire_rs.Io.{Wire}
use drivewire_rs.Server.State.{Drives}
use drivewire_rs.Server.Awaits.Tasks.{Process, HandsFree}
use drivewire_rs.Server.Awaits.Moving.{Follows}

-- Each session follows its stream.
abbrev pub AllFollow : Drives → List (Option Process) → List (Option Wire) → Type 0
AllFollow drives [] [] = Unit
AllFollow drives (q ∷ qs) (a ∷ as') = Follows drives q a × AllFollow drives qs as'
AllFollow drives _ _ = ⊥

module _ (drives : Drives) where
  pub get-AllFollow :
      (qs : List (Option Process)) (ws : List (Option Wire)) (i : ℕ)
      → AllFollow drives qs ws
      → Follows drives (get_or qs i none) (get_or ws i none)
  get-AllFollow [] [] i h = refl
  get-AllFollow (q ∷ qs) (a ∷ ws) zero h = h.0
  get-AllFollow (q ∷ qs) (a ∷ ws) (suc i) h = get-AllFollow qs ws i h.1
  get-AllFollow [] (a ∷ ws) i h = absurd h
  get-AllFollow (q ∷ qs) [] i h = absurd h

  pub set-AllFollow :
      (qs : List (Option Process)) (ws : List (Option Wire)) (i : ℕ) (q : Option Process)
      (a : Option Wire)
      → AllFollow drives qs ws
      → Follows drives q a
      → AllFollow drives (set qs i q) (set ws i a)
  set-AllFollow [] [] i q a h f = tt
  set-AllFollow (p ∷ qs) (b ∷ ws) zero q a h f = (f, h.1)
  set-AllFollow (p ∷ qs) (b ∷ ws) (suc i) q a h f = (h.0, set-AllFollow qs ws i q a h.1 f)
  set-AllFollow [] (b ∷ ws) i q a h f = absurd h
  set-AllFollow (p ∷ qs) [] i q a h f = absurd h

  pub append-AllFollow :
      (qs : List (Option Process)) (ws : List (Option Wire)) (q : Option Process) (a : Option Wire)
      → AllFollow drives qs ws
      → Follows drives q a
      → AllFollow drives (qs ++ (q ∷ [])) (ws ++ (a ∷ []))
  append-AllFollow [] [] q a h f = (f, tt)
  append-AllFollow (p ∷ qs) (b ∷ ws) q a h f = (h.0, append-AllFollow qs ws q a h.1 f)
  append-AllFollow [] (b ∷ ws) q a h f = absurd h
  append-AllFollow (p ∷ qs) [] q a h f = absurd h

  -- Where no session holds a disk, the drives may change.
  free-Follows :
      (drives' : Drives) (q : Option Process) (a : Option Wire)
      → HandsFree q
      → Follows drives q a
      → Follows drives' q a
  free-Follows drives' none a free h = h
  free-Follows drives' (some q) a free (inl b) = inl (record {
    start = b.start;
    live = b.live;
    ready = b.ready;
    rest = λ w _. b.rest w (λ holds. absurd (free holds));
  })
  free-Follows drives' (some q) a free (inr b) = inr b

  pub free-AllFollow :
      (drives' : Drives) (qs : List (Option Process)) (ws : List (Option Wire))
      → All HandsFree qs
      → AllFollow drives qs ws
      → AllFollow drives' qs ws
  free-AllFollow drives' [] [] free h = tt
  free-AllFollow drives' (q ∷ qs) (a ∷ ws) free h =
      (free-Follows drives' q a free.0 h.0, free-AllFollow drives' qs ws free.1 h.1)
  free-AllFollow drives' [] (a ∷ ws) free h = absurd h
  free-AllFollow drives' (q ∷ qs) [] free h = absurd h
