-- ===== src/Control/Outcome.antt =====
-- `dw mount` against the server's control session: when it reports success.
use mathlib.Core.List.{append-nil}
use drivewire_rs.Prelude.{
  none, ℕ, ◌≤◌, ◌≡◌, refl, sym, ap, ◌∙◌, false, some, [], ◌∷◌, ◌++◌, Result, ok, err,
}
use drivewire_rs.Vdisk.{Directory, Files, DskFile, VDiskError, open_dsk}
use drivewire_rs.Server.State.{Server, get, mount}
use drivewire_rs.Text.{Text, chars, trim_end, is_empty, starts_with}
use drivewire_rs.Text.Laws.{IsLine, is_line-append, decimal-IsLine}
use drivewire_rs.Control.{
  Wording, mount_opened, mount_dsk, mount_reply, handle_control_command, handle_control,
}
use drivewire_rs.Control.Client.{mount_line, reported, mount_outcome}
use drivewire_rs.Control.Requests.{handle_control_command-mount_line, trim-mount_line}
use drivewire_rs.Control.Complete.{IsOneLine, HasLineNames, control_request-handle_control_command}
use drivewire_rs.Control.Serving.{get-insert_self}

-- The client's outcome and the server behind it agree on whether the disk was opened.
abbrev pub Agree : ℕ → Server → Result VDiskError DskFile → Result Text Text → Server → Type 0
Agree slot s (ok d) (ok reply) s' = get slot s'.drives ≡ some d
Agree slot s (ok d) (err reply) s' = ⊥
Agree slot s (err e) (ok reply) s' = ⊥
Agree slot s (err e) (err reply) s' = s' ≡ s

mount_reply_goes_on :
    (wording : Wording) (slot : ℕ) (o : Result VDiskError (ℕ × Text))
    → starts_with (chars "BYE") (mount_reply wording slot o) ≡ false
unfolding mount_reply
mount_reply_goes_on wording slot (ok (sectors, name)) = refl
mount_reply_goes_on wording slot (err e) = refl

reported-mount_reply :
    (wording : Wording) (directory : Directory) (files : Files) (slot : ℕ) (path : Text)
    (s : Server) (o : Result VDiskError DskFile)
    → let (outcome, s') = mount_opened slot s o in
      Agree slot s o (reported (mount_reply wording slot outcome)) s'
unfolding reported mount_reply mount
reported-mount_reply wording directory files slot path s (ok d) = get-insert_self slot d s.drives
reported-mount_reply wording directory files slot path s (err e) = refl

module _ (wording : Wording) (directory : Directory) (files : Files) (slot : ℕ) (path : Text)
    (s : Server) (h : slot ≤ 255) (solid : trim_end path ≡ path)
    (some_path : is_empty path ≡ false) where
  pub handled : handle_control_command wording directory files (mount_line slot path) s ≡ (
      let (outcome, s') = mount_dsk directory files slot path false s in
      (mount_reply wording slot outcome, s'))
  handled =
      ap (λ line. handle_control_command wording directory files line s)
        (sym (trim-mount_line slot path solid some_path))
      ∙ handle_control_command-mount_line wording directory files slot path s h solid some_path

  pub mount_session :
      handle_control wording directory files ((mount_line slot path, none) ∷ []) s
      ≡ handle_control_command wording directory files (mount_line slot path) s
  unfolding handle_control mount_line mount_dsk
  mount_session = rw (
    trim-mount_line slot path solid some_path,
    handled,
    mount_reply_goes_on wording slot (mount_dsk directory files slot path false s).0,
    append-nil (mount_reply wording slot (mount_dsk directory files slot path false s).0),
  )

pub mount_line-IsLine : (slot : ℕ) (path : Text) → IsLine path → IsLine (mount_line slot path)
unfolding mount_line
mount_line-IsLine slot path h = simp (is_line-append, decimal-IsLine, h)

-- For a slot of 8 bits and a path of one line that is not empty and does not end with white space,
-- where no text that the standard library or the host prints has a line feed and no mounted disk has
-- one in its name: dw mount succeeds on the reply of a control session to its line just if the path
-- can be opened, and then the disk is in its slot; if it fails, the server is as it was.
pub mount_outcome-handle_control :
    (wording : Wording) (directory : Directory) (files : Files) (slot : ℕ) (path rest : Text)
    (s : Server)
    → slot ≤ 255
    → trim_end path ≡ path
    → is_empty path ≡ false
    → IsLine path
    → IsOneLine wording
    → HasLineNames s.drives
    → let (written, s') =
        handle_control wording directory files ((mount_line slot path, none) ∷ []) s in
      Agree slot s (open_dsk directory files path false) (mount_outcome (written ++ rest)) s'
unfolding mount_outcome mount_dsk
mount_outcome-handle_control wording directory files slot path rest s h solid some_path line one
      names =
    let taken =
      (control_request-handle_control_command wording one directory files (mount_line slot path)
        rest s (mount_line-IsLine slot path line) names).0 in
    let reply = handled wording directory files slot path s h solid some_path in
    let session = mount_session wording directory files slot path s h solid some_path in
    rw (session, taken, reply)
      (reported-mount_reply wording directory files slot path s
        (open_dsk directory files path false))
