-- ===== src/Terminal/Escape.antt =====
-- `process_input_byte`, and the loop over the standard input that calls it.
pub mod Laws
use drivewire_rs.Prelude.{ℕ, Bool, true, false, List, [], ◌∷◌, ◌++◌, ◌==◌, ◌||◌, if◌then◌else◌}

pub data EscapeAction : Type 0 where
  continue exit : EscapeAction

abbrev pub ctrl_a : ℕ
ctrl_a = 0x01

-- What a byte adds to the output, the flag behind it, and what to do next.
unfoldable pub process_input_byte : ℕ → Bool → List ℕ × Bool × EscapeAction
process_input_byte byte true =
    if byte == ctrl_a
    then (ctrl_a ∷ [], false, continue)
    else if byte == b'q' || byte == b'Q'
    then ([], false, exit)
    else (ctrl_a ∷ byte ∷ [], false, continue)
process_input_byte byte false =
    if byte == ctrl_a then ([], true, continue) else (byte ∷ [], false, continue)

-- The bytes of one read, up to an exit: the output, the flag, and whether it is time to leave.
unfoldable pub process_chunk : List ℕ → Bool → List ℕ × Bool × EscapeAction
unfolding process_input_byte
process_chunk [] armed = ([], armed, continue)
process_chunk (b ∷ input) armed =
    let (out, armed', next) = process_input_byte b armed in
    let (more, armed'', next') = process_chunk input armed' in
    elim next [ exit ↦ (out, armed', exit) | continue ↦ (out ++ more, armed'', next') ]

-- The loop over the reads: all that goes to the socket, and whether the user left.
unfoldable pub stdin_to_sock : List (List ℕ) → Bool → List ℕ × EscapeAction
stdin_to_sock [] armed = ([], continue)
stdin_to_sock (chunk ∷ chunks) armed =
    let (out, armed', next) = process_chunk chunk armed in
    let (more, next') = stdin_to_sock chunks armed' in
    elim next [ exit ↦ (out, exit) | continue ↦ (out ++ more, next') ]

-- All that `attach` writes to the socket: the channel, and then what is typed.
unfoldable pub attach_sends : ℕ → List (List ℕ) → List ℕ
attach_sends channel typed = channel ∷ (stdin_to_sock typed false).0
