-- ===== src/Control/Requests.antt =====
-- The client's requests and the server's commands: what a request line comes to on the server.
use drivewire_rs.Prelude.{
  ℕ, ◌≤◌, ◌≡◌, ◌≢◌, refl, Bool, true, false, none, some, [], ◌∷◌, ◌++◌, arith, ◌&&◌, All,
}
use drivewire_rs.Vdisk.{Directory, Files}
use drivewire_rs.Server.State.{Server, unmount}
use drivewire_rs.Text.{
  Text, chars, decimal, is_whitespace, is_empty, trim, trim_start, trim_end, split_once, splitn3,
}
use drivewire_rs.Text.Decimal.{IsDigit, decimal-IsDigit, decimal_ne, parse_u8-decimal}
use drivewire_rs.Control.{
  Wording, mount_dsk, mount_reply, unmount_reply, mount_at, mount_command, unmount_at,
  unmount_command, run_verb, handle_control_command,
}
use drivewire_rs.Control.Client.{mount_line, unmount_line}

-- Text without white space.
abbrev pub IsSolid : Text → Type 0
IsSolid = All (λ c. is_whitespace c ≡ false)

IsSolid-IsDigit : (s : Text) → All IsDigit s → IsSolid s
IsSolid-IsDigit [] h = tt
IsSolid-IsDigit (c ∷ s) ((a, b), h) = (ground arith, IsSolid-IsDigit s h)

decimal-IsSolid : (n : ℕ) → IsSolid (decimal n)
decimal-IsSolid n = IsSolid-IsDigit (decimal n) (decimal-IsDigit n)

trim_end-IsSolid : (s : Text) → IsSolid s → trim_end s ≡ s
trim_end-IsSolid [] h = refl
trim_end-IsSolid (c ∷ s) (e, h) = rw (e, trim_end-IsSolid s h)

is_empty-append : (s t : Text) → is_empty t ≡ false → is_empty (s ++ t) ≡ false
is_empty-append [] t h = h
is_empty-append (c ∷ s) t h = refl

trim_end-append : (s t : Text) → trim_end t ≡ t → is_empty t ≡ false → trim_end (s ++ t) ≡ s ++ t
trim_end-append [] t e h = e
trim_end-append (c ∷ s) t e h =
    rw (trim_end-append s t e h, is_empty-append s t h, &&_false (is_whitespace c))
  where
    &&_false : (b : Bool) → (b && false) ≡ false
    &&_false true = refl
    &&_false false = refl

split_once-IsSolid : (s t : Text) → IsSolid s → split_once (s ++ (0x20 ∷ t)) ≡ (s, some t)
split_once-IsSolid [] t h = refl
split_once-IsSolid (c ∷ s) t (e, h) = rw (split_once-IsSolid s t h, e)

split_once_of_IsSolid : (s : Text) → IsSolid s → split_once s ≡ (s, none)
split_once_of_IsSolid [] h = refl
split_once_of_IsSolid (c ∷ s) (e, h) = rw (split_once_of_IsSolid s h, e)

is_empty_of_ne : (s : Text) → s ≢ [] → is_empty s ≡ false
is_empty_of_ne [] h = absurd (h refl)
is_empty_of_ne (c ∷ s) h = refl

pub trim-mount_line :
    (slot : ℕ) (path : Text)
    → trim_end path ≡ path
    → is_empty path ≡ false
    → trim (mount_line slot path) ≡ mount_line slot path
unfolding mount_line trim_start
trim-mount_line slot path e k =
    trim_end-append (chars "MOUNT ") (decimal slot ++ (chars " " ++ path))
      (trim_end-append (decimal slot) (chars " " ++ path) (trim_end-append (chars " ") path e k)
        refl)
      (is_empty-append (decimal slot) (chars " " ++ path) refl)

splitn3-mount_line :
    (slot : ℕ) (path : Text)
    → splitn3 (mount_line slot path) ≡ (chars "MOUNT", some (decimal slot), some path)
unfolding mount_line splitn3
splitn3-mount_line slot path = rw (split_once-IsSolid (decimal slot) path (decimal-IsSolid slot))

trim-unmount_line : (slot : ℕ) → trim (unmount_line slot) ≡ unmount_line slot
unfolding unmount_line trim_start
trim-unmount_line slot =
    trim_end-append (chars "UNMOUNT ") (decimal slot)
      (trim_end-IsSolid (decimal slot) (decimal-IsSolid slot))
      (is_empty_of_ne (decimal slot) (decimal_ne slot))

splitn3-unmount_line :
    (slot : ℕ) → splitn3 (unmount_line slot) ≡ (chars "UNMOUNT", some (decimal slot), none)
unfolding unmount_line splitn3
splitn3-unmount_line slot = rw (split_once_of_IsSolid (decimal slot) (decimal-IsSolid slot))

module _ (wording : Wording) (directory : Directory) (files : Files) where
  -- The line of dw mount for a slot of 8 bits and a path that is not empty and does not end with
  -- white space, once trimmed, makes the server mount that path for writing in that slot, and answer
  -- with the outcome.
  pub handle_control_command-mount_line :
      (slot : ℕ) (path : Text) (s : Server)
      → slot ≤ 255
      → trim_end path ≡ path
      → is_empty path ≡ false
      → handle_control_command wording directory files (trim (mount_line slot path)) s ≡ (
          let (outcome, s') = mount_dsk directory files slot path false s in
          (mount_reply wording slot outcome, s'))
  unfolding handle_control_command run_verb mount_command mount_at
  handle_control_command-mount_line slot path s h e k =
      rw (trim-mount_line slot path e k, splitn3-mount_line slot path, parse_u8-decimal slot h)

  -- The line of dw unmount for a slot of 8 bits, once trimmed, makes the server unmount that slot
  -- and say so.
  handle_control_command-unmount_line :
      (slot : ℕ) (s : Server)
      → slot ≤ 255
      → handle_control_command wording directory files (trim (unmount_line slot)) s
        ≡ (unmount_reply slot, unmount slot s)
  unfolding handle_control_command run_verb unmount_command unmount_at
  handle_control_command-unmount_line slot s h =
      rw (trim-unmount_line slot, splitn3-unmount_line slot, parse_u8-decimal slot h)
