-- ===== src/Command/Mount.antt =====
-- `dw mount` of crates/drivewire-cli/src/main.rs as a command, against a server.
use drivewire_rs.Prelude.{
  ℕ, ◌≤◌, ◌≡◌, ap, sym, ◌∙◌, subst, false, none, some, Bool-cases, inl, inr, [], ◌∷◌, ◌++◌, Result,
  ok, err,
}
use drivewire_rs.Vdisk.{Directory, Files, DskFile, VDiskError, open_dsk}
use drivewire_rs.Server.State.{Server, get}
use drivewire_rs.Text.{Text, chars, trim_end, is_empty, starts_with}
use drivewire_rs.Text.Laws.{IsLine}
use drivewire_rs.Control.{Wording, handle_control}
use drivewire_rs.Control.Client.{
  mount_line, mount_request, reported, control_request, mount_outcome,
}
use drivewire_rs.Control.Complete.{IsOneLine, HasLineNames, handle_control_command-Fine}
use drivewire_rs.Control.Outcome.{
  Agree, mount_session, mount_line-IsLine, mount_outcome-handle_control,
}
use drivewire_rs.Command.Reading.{read_reply_whole}
use drivewire_rs.Command.{
  Cmd, Daemon, rejected, read_reply, written_to, connected_to, request, checked, mount_path,
  run_mount, Outside, Exit, replied, main,
}

-- How the command ends, whether the disk was opened, and the server behind it agree.
abbrev pub ExitsWith : ℕ → Server → Result VDiskError DskFile → Exit → Server → Type 0
ExitsWith slot s (ok d) (replied (ok reply)) s' = get slot s'.drives ≡ some d
ExitsWith slot s (err e) (replied (err (rejected reply))) s' = s' ≡ s
ExitsWith slot s _ _ s' = ⊥

reported-checked :
    (slot : ℕ) (s s' : Server) (opened : Result VDiskError DskFile) (reply : Text)
    → Agree slot s opened (reported reply) s'
    → ExitsWith slot s opened (replied (checked (ok reply))) s'
unfolding reported checked
reported-checked slot s s' (ok d) reply h = elim (Bool-cases (starts_with (chars "ERROR") reply)) [
  | inl e ↦ absurd (rw e at h)
  | inr e ↦ rw e (rw e at h)
]
reported-checked slot s s' (err x) reply h = elim (Bool-cases (starts_with (chars "ERROR") reply)) [
  | inl e ↦ rw e (rw e at h)
  | inr e ↦ absurd (rw e at h)
]

module _ (fuel : ℕ) (o : Outside) (slot : ℕ) (path socket : Text) (d : Daemon) where
  -- A connection that takes the request and brings this.
  main-request :
      (stream : Text)
      → o.connect socket ≡ ok d
      → d.refuses ≡ none
      → read_reply stream d.broken ≡ ok (control_request stream)
      → d.replies (mount_request slot path) ≡ stream
      → main fuel o (Cmd.mount (record { slot = slot; path = some path; socket = socket }))
        ≡ replied (checked (ok (control_request stream)))
  unfolding main run_mount mount_path request connected_to written_to
  main-request stream c r b e =
      ap (λ x. replied (checked (connected_to (mount_request slot path) x))) c
      ∙ ap (λ x. replied (checked (written_to d (mount_request slot path) x))) r
      ∙ ap (λ x. replied (checked (read_reply x d.broken))) e
      ∙ ap (λ x. replied (checked x)) b

  -- If the control socket leads to a session of the server, which takes the request, whatever text
  -- or error stands behind its reply, for a slot of 8 bits and a path of one line that is not empty
  -- and does not end with white space, where no text that the standard library or the host prints
  -- has a line feed and no mounted disk has one in its name: the process of dw mount succeeds just
  -- if the path can be opened, and then the disk is in its slot; else it fails on the server's
  -- reply, and the server is as it was.
  pub main-handle_control :
      (wording : Wording) (directory : Directory) (files : Files) (rest : Text) (s : Server)
      → slot ≤ 255
      → trim_end path ≡ path
      → is_empty path ≡ false
      → IsLine path
      → IsOneLine wording
      → HasLineNames s.drives
      → o.connect socket ≡ ok d
      → d.refuses ≡ none
      → d.replies (mount_request slot path)
        ≡ (handle_control wording directory files ((mount_line slot path, none) ∷ []) s).0 ++ rest
      → ExitsWith slot s
          (open_dsk directory files path false)
          (main fuel o (Cmd.mount (record { slot = slot; path = some path; socket = socket })))
          (handle_control wording directory files ((mount_line slot path, none) ∷ []) s).1
  unfolding mount_outcome
  main-handle_control wording directory files rest s h solid some_path line one names c r e =
      let (written, s') =
        handle_control wording directory files ((mount_line slot path, none) ∷ []) s in
      let opened = open_dsk directory files path false in
      let session = mount_session wording directory files slot path s h solid some_path in
      let fine =
        handle_control_command-Fine wording one directory files (mount_line slot path) s
          (mount_line-IsLine slot path line) names in
      let whole : read_reply (written ++ rest) d.broken ≡ ok (control_request (written ++ rest)) =
        rw session (read_reply_whole _ rest d.broken fine.0) in
      subst (λ exit. ExitsWith slot s opened exit s')
        (sym (main-request (written ++ rest) c r whole e))
        (reported-checked slot s s' opened (control_request (written ++ rest)) (
          mount_outcome-handle_control wording directory files slot path rest s h solid some_path
            line one names))
