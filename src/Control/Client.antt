-- ===== src/Control/Client.antt =====
-- `mount`, `unmount`, `status` and `control_request` of crates/drivewire-cli/src/main.rs: the requests
-- that are sent and how much of the server's output is taken for the reply.
use drivewire_rs.Prelude.{ℕ, Bool, ◌||◌, Result, ok, err, List, [], ◌∷◌, ◌++◌, ◌==◌, if◌then◌else◌}
use drivewire_rs.Text.{Text, chars, trim_end, starts_with, same, decimal}

unfoldable pub mount_line : ℕ → Text → Text
mount_line slot path = chars "MOUNT " ++ (decimal slot ++ (chars " " ++ path))

unfoldable pub mount_request : ℕ → Text → Text
unfolding mount_line
mount_request slot path = mount_line slot path ++ (0x0a ∷ [])

unfoldable pub unmount_line : ℕ → Text
unmount_line slot = chars "UNMOUNT " ++ decimal slot

unfoldable pub unmount_request : ℕ → Text
unfolding unmount_line
unmount_request slot = unmount_line slot ++ (0x0a ∷ [])

-- The text up to its first line feed, which it includes, and the rest: `read_line`.
unfoldable pub prepend : ℕ → List Text → List Text
prepend c [] = (c ∷ []) ∷ []
prepend c (line ∷ rest) = (c ∷ line) ∷ rest

-- The lines that `read_line` returns one by one, each with its line feed.
unfoldable pub read_lines : Text → List Text
unfolding prepend
read_lines [] = []
read_lines (c ∷ s) =
    let rest = read_lines s in if c == 0x0a then (c ∷ []) ∷ rest else prepend c rest

abbrev pub is_terminal : Text → Bool
is_terminal line =
    let trimmed = trim_end line in
    same trimmed (chars "OK")
    || (starts_with (chars "OK ") trimmed
        || (starts_with (chars "ERROR") trimmed || starts_with (chars "BYE") trimmed))

-- The loop: up to a terminal line or the end of the stream.
unfoldable pub take_reply : List Text → Text
take_reply [] = []
take_reply (line ∷ rest) =
    let more = take_reply rest in if is_terminal line then line else line ++ more

unfoldable pub control_request : Text → Text
unfolding read_lines take_reply
control_request stream = take_reply (read_lines stream)

-- `mount` and `unmount`: the reply is printed, and the command fails on one that starts with ERROR. `status`
-- prints and does not look.
unfoldable pub reported : Text → Result Text Text
reported reply = if starts_with (chars "ERROR") reply then err reply else ok reply

unfoldable pub mount_outcome : Text → Result Text Text
unfolding control_request reported
mount_outcome stream = reported (control_request stream)

unfoldable pub status_outcome : Text → Text
unfolding control_request
status_outcome stream = control_request stream

abbrev pub status_request : Text
status_request = chars "STATUS" ++ (0x0a ∷ [])

unfoldable pub unmount_outcome : Text → Result Text Text
unfolding control_request reported
unmount_outcome stream = reported (control_request stream)
